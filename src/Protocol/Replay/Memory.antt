-- ===== src/Protocol/Replay/Memory.antt =====
-- That an accepted nonce is remembered, and what one call of the registry leaves of it.
use podmesh.Prelude.{
  ℕ, suc, ◌-◌, ◌≤◌, ◌<◌, ◌≡◌, ◌≢◌, refl, String, some, string_eq, eq_lem, Option-cases, Bool-cases,
  inl, inr, arith, ok, err,
}
use podmesh.Map.{get, contains_key, insert}
use podmesh.Map.Laws.{get-insert}
use podmesh.Fifo.{empty}
use podmesh.Fifo.Consistent.{IsConsistent, empty-IsConsistent, prune-IsConsistent}
use podmesh.Fifo.Held.{Held, prune-Held, add-Held, add-Held_self}
use podmesh.Protocol.Replay.{
  ReplayLimits, PeerNonces, ReplayState, expired, prune_expired, insert_nonce, make_peer_room,
  known_peer, add_peer, check_arguments, record_nonce, check_and_insert,
}
use podmesh.Protocol.Replay.Peers.{IsValid}

-- `nonce` of peer `id` was recorded at `t`, and at most `n` nonces of that peer since.
pub record Remembered (id nonce : String) (t n : ℕ) (s : ReplayState) : Type 0 where
  pub peer : PeerNonces
  pub later : ℕ
  pub found : get s.peers id ≡ some peer
  pub held : Held nonce t later peer
  pub few : later ≤ n

module _ (l : ReplayLimits) (id nonce : String) (t : ℕ) where
  -- The arguments of the accepted call are good ones.
  pub accepted_arguments :
      (s : ReplayState)
      → (check_and_insert l id nonce t s).1 ≡ ok tt
      → (check_arguments l id nonce ≡ ok tt)
        × ((check_and_insert l id nonce t s).0 ≡ (record_nonce l id nonce t s).0)
        × ((record_nonce l id nonce t s).1 ≡ ok tt)
  unfolding check_and_insert
  accepted_arguments s h = ground arith

  add_peer-Remembered : (s : ReplayState) → Remembered id nonce t 0 (add_peer l id nonce t s)
  unfolding add_peer insert_nonce
  add_peer-Remembered s = record {
    peer = insert_nonce nonce t l.nonces_per_peer empty;
    later = 0;
    found = ground (
      arith,
      get-insert s.peers id id (insert_nonce nonce t l.nonces_per_peer empty),
      eq_lem id id,
    );
    held = add-Held_self l.nonces_per_peer nonce t empty empty-IsConsistent (unfold get in refl);
    few = omega arith;
  }

  known_peer-Remembered :
      (p : PeerNonces) (s : ReplayState)
      → IsConsistent p
      → (known_peer l id nonce t p s).1 ≡ ok tt
      → Remembered id nonce t 0 (known_peer l id nonce t p s).0
  unfolding known_peer insert_nonce prune_expired
  known_peer-Remembered p s v g = elim (Bool-cases (contains_key pruned.seen nonce)) [
    | inl seen ↦ absurd (ground arith)
    | inr fresh ↦ rw fresh (record {
      peer = insert_nonce nonce t l.nonces_per_peer pruned;
      later = 0;
      found = ground (
        arith,
        get-insert s.peers id id (insert_nonce nonce t l.nonces_per_peer pruned),
        eq_lem id id,
      );
      held =
          add-Held_self l.nonces_per_peer nonce t pruned
            (prune-IsConsistent (expired t l.retention) p v) fresh;
      few = omega arith;
    })
  ]
    where
      pruned : PeerNonces
      pruned = prune_expired t l.retention p

  -- An accepted call is remembered.
  pub record_nonce-Remembered :
      (s : ReplayState)
      → IsValid l s
      → (record_nonce l id nonce t s).1 ≡ ok tt
      → Remembered id nonce t 0 (record_nonce l id nonce t s).0
  unfolding record_nonce
  record_nonce-Remembered s v h = elim (Option-cases (get s.peers id)) [
    | inl new ↦ rw (new, record_nonce) (add_peer-Remembered (make_peer_room l t s))
    | inr (p, e) ↦
        rw (e, record_nonce)
          (known_peer-Remembered p s (v.peers_valid id p e).consistent (ground arith))
  ]

  -- While the entry is young it is refused.
  pub held_refused :
      (now n : ℕ) (s : ReplayState)
      → now - t < l.retention
      → Remembered id nonce t n s
      → check_arguments l id nonce ≡ ok tt
      → (check_and_insert l id nonce now s).1 ≡ err "envelope replay detected"
  unfolding check_and_insert record_nonce known_peer prune_expired
  held_refused now n s young r good =
      let kept : Held nonce t r.later (prune_expired now l.retention r.peer) =
        prune-Held (expired now l.retention) nonce t r.later r.peer (ground arith) r.held in
      rw (good, check_and_insert, r.found, record_nonce) (ground (arith, kept.entry))

  pub other_known :
      (j m : String) (now n : ℕ) (q : PeerNonces) (s : ReplayState)
      → j ≢ id
      → Remembered id nonce t n s
      → Remembered id nonce t n (known_peer l j m now q s).0
  unfolding known_peer
  other_known j m now n q s other r = record {
    peer = r.peer;
    later = r.later;
    found =
        let pruned = prune_expired now l.retention q in
        ground (
          arith,
          r.found,
          get-insert s.peers j id pruned,
          get-insert s.peers j id (insert_nonce m now l.nonces_per_peer pruned),
          eq_lem j id,
        );
    held = r.held;
    few = r.few;
  }

  pub other_new :
      (j m : String) (now n : ℕ) (s : ReplayState)
      → j ≢ id
      → Remembered id nonce t n s
      → Remembered id nonce t n (add_peer l j m now s)
  unfolding add_peer
  other_new j m now n s other r = record {
    peer = r.peer;
    later = r.later;
    found = ground (
      arith,
      r.found,
      get-insert s.peers j id (insert_nonce m now l.nonces_per_peer empty),
      eq_lem j id,
    );
    held = r.held;
    few = r.few;
  }

  -- A write of the peer's own bucket after pruning, with or without a new nonce.
  own_bucket :
      (k now : ℕ) (p : PeerNonces) (s : ReplayState)
      → Held nonce t k p
      → Remembered id nonce t k (record s { peers = insert s.peers id p })
  own_bucket k now p s h = record {
    peer = p;
    later = k;
    found = ground (arith, get-insert s.peers id id p, eq_lem id id);
    held = h;
    few = omega arith;
  }

  pub weaken :
      (m n : ℕ) (s : ReplayState) → m ≤ n → Remembered id nonce t m s → Remembered id nonce t n s
  weaken m n s le r = record {
    peer = r.peer;
    later = r.later;
    found = r.found;
    held = r.held;
    few = omega (arith, r.few);
  }

  pub own_known :
      (m : String) (now n : ℕ) (p : PeerNonces) (s : ReplayState)
      → now - t < l.retention
      → suc n < l.nonces_per_peer
      → Held nonce t n p
      → Remembered id nonce t (suc n) (known_peer l id m now p s).0
  unfolding known_peer prune_expired insert_nonce
  own_known m now n p s young small h = elim (Bool-cases (contains_key pruned.seen m)) [
    | inl seen ↦ rw seen (weaken n (suc n) _ (omega arith) (own_bucket n now pruned s kept))
    | inr fresh ↦ rw fresh (
        own_bucket (suc n) now (insert_nonce m now l.nonces_per_peer pruned) s (
          add-Held l.nonces_per_peer nonce m t now n pruned small
            (λ same. ground (arith, kept.entry)) kept))
  ]
    where
      pruned : PeerNonces
      pruned = prune_expired now l.retention p

      kept : Held nonce t n pruned
      kept = prune-Held (expired now l.retention) nonce t n p (ground arith) h
