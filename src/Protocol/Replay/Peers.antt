-- ===== src/Protocol/Replay/Peers.antt =====
-- When a registry is valid, and that pruning and rewriting peers keeps it so.
use podmesh.Prelude.{
  subst, ℕ, ◌≤◌, ◌<◌, ◌≡◌, String, false, some, ◌==◌, string_eq, eq_lem, Option-cases, Bool-cases,
  inl, inr, length, elem, Distinct, arith, elem-retain, retain-Distinct,
}
use podmesh.Map.{Map, size, get, contains_key, insert, retain_entries, map_values, UniqueKeys}
use podmesh.Map.Laws.{
  get-insert, get-map_values, insert-UniqueKeys, map_values-UniqueKeys, retain_entries-UniqueKeys,
  get_from_retained,
}
use podmesh.Map.Totals.{size-insert_old, size-map_values, size-retain_entries-le}
use podmesh.Fifo.Consistent.{
  IsConsistent, prune-IsConsistent, add-IsConsistent, prune-length, add-length,
}
use podmesh.Protocol.Replay.{
  ReplayLimits, PeerNonces, ReplayState, expired, prune_expired, insert_nonce, has_nonces,
  prune_expired_peers, known_peer,
}

-- A peer's nonces: the queue and the map agree, and neither passes the limit per peer.
pub record PeerIsValid (limit : ℕ) (p : PeerNonces) : Type 0 where
  pub consistent : IsConsistent p
  pub bounded : length p.order ≤ limit

pub record IsValid (l : ReplayLimits) (s : ReplayState) : Type 0 where
  pub unique : UniqueKeys s.peers
  pub distinct : Distinct s.peer_order
  pub agree : (k : String) → contains_key s.peers k ≡ elem k s.peer_order
  pub peers_valid :
      (k : String) (p : PeerNonces) → get s.peers k ≡ some p → PeerIsValid l.nonces_per_peer p
  pub bounded : size s.peers ≤ l.max_peers

pub prune_expired-PeerIsValid :
    (limit now retention : ℕ) (p : PeerNonces)
    → PeerIsValid limit p
    → PeerIsValid limit (prune_expired now retention p)
unfolding prune_expired
prune_expired-PeerIsValid limit now retention p h = record {
  consistent = prune-IsConsistent (expired now retention) p h.consistent;
  bounded = omega (arith, h.bounded, prune-length (expired now retention) p);
}

pub insert_nonce-PeerIsValid :
    (limit now : ℕ) (nonce : String) (p : PeerNonces)
    → 0 < limit
    → contains_key p.seen nonce ≡ false
    → PeerIsValid limit p
    → PeerIsValid limit (insert_nonce nonce now limit p)
unfolding insert_nonce
insert_nonce-PeerIsValid limit now nonce p pos fresh h = record {
  consistent = add-IsConsistent limit nonce now p fresh h.consistent;
  bounded = add-length limit nonce now p pos h.bounded;
}

module _ (l : ReplayLimits) where
  -- Writing a valid peer under a key that is there keeps the registry valid.
  replace-IsValid :
      (id : String) (p q : PeerNonces) (s : ReplayState)
      → get s.peers id ≡ some p
      → PeerIsValid l.nonces_per_peer q
      → IsValid l s
      → IsValid l (record s { peers = insert s.peers id q })
  replace-IsValid id p q s e hq h = record {
    unique = insert-UniqueKeys s.peers id q h.unique;
    distinct = h.distinct;
    agree = λ k. ground (arith, h.agree k, get-insert s.peers id k q, eq_lem id k);
    peers_valid = λ k r f. elim (Bool-cases (id == k)) [
      | inl same ↦
          subst (PeerIsValid l.nonces_per_peer) (ground (arith, get-insert s.peers id k q)) hq
      | inr other ↦ h.peers_valid k r (ground (arith, get-insert s.peers id k q))
    ];
    bounded = omega (arith, h.bounded, size-insert_old s.peers id p q h.unique e);
  }

  pub known_peer-IsValid :
      (id nonce : String) (now : ℕ) (p : PeerNonces) (s : ReplayState)
      → 0 < l.nonces_per_peer
      → get s.peers id ≡ some p
      → IsValid l s
      → IsValid l (known_peer l id nonce now p s).0
  unfolding known_peer
  known_peer-IsValid id nonce now p s pos e h = elim (Bool-cases (contains_key pruned.seen nonce)) [
    | inl seen ↦ rw seen (replace-IsValid id p pruned s e valid h)
    | inr fresh ↦ rw fresh (
        replace-IsValid id p _ s e
          (insert_nonce-PeerIsValid l.nonces_per_peer now nonce pruned pos fresh valid) h)
  ]
    where
      pruned : PeerNonces
      pruned = prune_expired now l.retention p

      valid : PeerIsValid l.nonces_per_peer pruned
      valid = prune_expired-PeerIsValid l.nonces_per_peer now l.retention p (h.peers_valid id p e)

  pub prune_expired_peers-IsValid :
      (now : ℕ) (s : ReplayState) → IsValid l s → IsValid l (prune_expired_peers l now s)
  unfolding prune_expired_peers
  prune_expired_peers-IsValid now s h = record {
    unique = retain_entries-UniqueKeys has_nonces pruned unique_pruned;
    distinct = retain-Distinct (contains_key kept) s.peer_order h.distinct;
    agree = λ k. elim (Option-cases (get kept k)) [
      | inl gone ↦ rw (gone, elem-retain (contains_key kept) k s.peer_order, gone) (ground arith)
      | inr (p, f) ↦ ground (
        arith,
        elem-retain (contains_key kept) k s.peer_order,
        h.agree k,
        get_from_retained has_nonces pruned k p f unique_pruned,
        get-map_values prune s.peers k,
      )
    ];
    peers_valid = λ k p f. valid k p (get_from_retained has_nonces pruned k p f unique_pruned);
    bounded =
        omega (
          arith,
          h.bounded,
          size-map_values prune s.peers,
          size-retain_entries-le has_nonces pruned,
        );
  }
    where
      prune : PeerNonces → PeerNonces
      prune = prune_expired now l.retention

      pruned : Map String PeerNonces
      pruned = map_values prune s.peers

      kept : Map String PeerNonces
      kept = retain_entries has_nonces pruned

      unique_pruned : UniqueKeys pruned
      unique_pruned = map_values-UniqueKeys prune s.peers h.unique

      valid :
          (k : String) (p : PeerNonces) → get pruned k ≡ some p → PeerIsValid l.nonces_per_peer p
      valid k p f = elim (Option-cases (get s.peers k)) [
        | inl gone ↦ absurd (ground (arith, get-map_values prune s.peers k))
        | inr (q, g) ↦
            subst (PeerIsValid l.nonces_per_peer) (ground (arith, get-map_values prune s.peers k))
              (prune_expired-PeerIsValid l.nonces_per_peer now l.retention q (h.peers_valid k q g))
      ]
