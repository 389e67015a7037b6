-- ===== src/Protocol/Replay/Bounds.antt =====
-- Every call keeps the registry within its limits, and its queues in step with its maps.
use podmesh.Prelude.{
  Result-cases, subst, ℕ, ◌<◌, ◌≡◌, refl, String, none, List, [], ◌∷◌, ◌==◌, string_eq, eq_lem,
  Option-cases, Bool-cases, inl, inr, leb, arith, append-Distinct, elem-append,
}
use podmesh.Map.{Map, size, get, map_values}
use podmesh.Map.Laws.{
  retain_entries_absent, get-remove, get-insert, get-map_values, remove-UniqueKeys,
  insert-UniqueKeys,
}
use podmesh.Map.Totals.{size-remove-le, size-remove, size-insert_new}
use podmesh.Fifo.{empty}
use podmesh.Fifo.Consistent.{empty-IsConsistent}
use podmesh.Protocol.Replay.{
  ReplayLimits, PeerNonces, ReplayState, prune_expired, insert_nonce, has_nonces,
  prune_expired_peers, evict_front, evict_if_full, make_peer_room, add_peer, check_arguments,
  record_nonce, check_and_insert,
}
use podmesh.Protocol.Replay.Peers.{
  PeerIsValid, IsValid, known_peer-IsValid, prune_expired_peers-IsValid, insert_nonce-PeerIsValid,
}

module _ (l : ReplayLimits) where
  evict_front-IsValid :
      (peers : Map String PeerNonces) (order : List String)
      → IsValid l (record { peers = peers; peer_order = order })
      → IsValid l (evict_front peers order)
  unfolding evict_front
  evict_front-IsValid peers [] h = h
  evict_front-IsValid peers (x ∷ xs) h = record {
    unique = remove-UniqueKeys peers x h.unique;
    distinct = h.distinct.1;
    agree = λ k. ground (arith, h.agree k, get-remove peers x k, eq_lem x k);
    peers_valid = λ k p f. h.peers_valid k p (ground (arith, get-remove peers x k));
    bounded = omega (arith, h.bounded, size-remove-le peers x);
  }

  -- Afterwards there is room for one more peer.
  evict_front-size :
      (peers : Map String PeerNonces) (order : List String)
      → 0 < l.max_peers
      → IsValid l (record { peers = peers; peer_order = order })
      → size (evict_front peers order).peers < l.max_peers
  unfolding evict_front
  evict_front-size [] [] pos h = pos
  evict_front-size ((k, p) ∷ peers) [] pos h =
      absurd (unfold get in ground (arith, h.agree k, eq_lem k k))
  evict_front-size peers (x ∷ xs) pos h = elim (Option-cases (get peers x)) [
    | inl gone ↦ absurd (ground (arith, h.agree x, eq_lem x x))
    | inr (p, e) ↦ omega (arith, size-remove peers x p h.unique e, h.bounded)
  ]

  evict_if_full-IsValid :
      (s : ReplayState)
      → 0 < l.max_peers
      → IsValid l s
      → IsValid l (evict_if_full l s) × (size (evict_if_full l s).peers < l.max_peers)
  unfolding evict_if_full
  evict_if_full-IsValid s pos h = elim (Bool-cases (leb l.max_peers (size s.peers))) [
    | inl full ↦
        rw full
          (evict_front-IsValid s.peers s.peer_order h, evict_front-size s.peers s.peer_order pos h)
    | inr below ↦ rw below (h, ground arith)
  ]

  make_peer_room-IsValid :
      (now : ℕ) (s : ReplayState)
      → 0 < l.max_peers
      → IsValid l s
      → IsValid l (make_peer_room l now s) × (size (make_peer_room l now s).peers < l.max_peers)
  unfolding make_peer_room
  make_peer_room-IsValid now s pos h = elim (Bool-cases (leb l.max_peers (size s.peers))) [
    | inl full ↦ rw full (
        evict_if_full-IsValid (prune_expired_peers l now s) pos
          (prune_expired_peers-IsValid l now s h))
    | inr below ↦ rw below (evict_if_full-IsValid s pos h)
  ]

  add_peer-IsValid :
      (id nonce : String) (now : ℕ) (s : ReplayState)
      → 0 < l.nonces_per_peer
      → get s.peers id ≡ none
      → size s.peers < l.max_peers
      → IsValid l s
      → IsValid l (add_peer l id nonce now s)
  unfolding add_peer
  add_peer-IsValid id nonce now s pos new room h = record {
    unique = insert-UniqueKeys s.peers id _ h.unique;
    distinct = append-Distinct id s.peer_order (ground (arith, h.agree id)) h.distinct;
    agree = λ k. ground (
      arith,
      h.agree k,
      get-insert s.peers id k (insert_nonce nonce now l.nonces_per_peer empty),
      elem-append k s.peer_order (id ∷ []),
      eq_lem id k,
    );
    peers_valid = λ k r f. elim (Bool-cases (id == k)) [
      | inl same ↦
          subst (PeerIsValid l.nonces_per_peer)
            (ground
              (arith, get-insert s.peers id k (insert_nonce nonce now l.nonces_per_peer empty)))
            first
      | inr other ↦
          h.peers_valid k r (
            ground
              (arith, get-insert s.peers id k (insert_nonce nonce now l.nonces_per_peer empty)))
    ];
    bounded =
        omega
          (arith, size-insert_new s.peers id (insert_nonce nonce now l.nonces_per_peer empty) new);
  }
    where
      first : PeerIsValid l.nonces_per_peer (insert_nonce nonce now l.nonces_per_peer empty)
      first =
          insert_nonce-PeerIsValid l.nonces_per_peer now nonce empty pos (unfold get in refl)
            (record { consistent = empty-IsConsistent; bounded = omega arith })

  -- A peer that is not there is not there after room has been made.
  evict_front_absent :
      (id : String) (peers : Map String PeerNonces) (order : List String)
      → get peers id ≡ none
      → get (evict_front peers order).peers id ≡ none
  unfolding evict_front
  evict_front_absent id peers [] h = h
  evict_front_absent id peers (x ∷ xs) h = ground (arith, get-remove peers x id)

  prune_expired_peers_absent :
      (id : String) (now : ℕ) (s : ReplayState)
      → get s.peers id ≡ none
      → get (prune_expired_peers l now s).peers id ≡ none
  unfolding prune_expired_peers
  prune_expired_peers_absent id now s h =
      retain_entries_absent has_nonces (map_values (prune_expired now l.retention) s.peers) id
        (rw (get-map_values (prune_expired now l.retention) s.peers id, h))

  make_peer_room_absent :
      (id : String) (now : ℕ) (s : ReplayState)
      → get s.peers id ≡ none
      → get (make_peer_room l now s).peers id ≡ none
  unfolding make_peer_room evict_if_full
  make_peer_room_absent id now s h =
      let pruned = prune_expired_peers l now s in
      ground (
        arith,
        prune_expired_peers_absent id now s h,
        evict_front_absent id s.peers s.peer_order,
        evict_front_absent id pruned.peers pruned.peer_order,
      )

  record_nonce-IsValid :
      (id nonce : String) (now : ℕ) (s : ReplayState)
      → 0 < l.max_peers
      → 0 < l.nonces_per_peer
      → IsValid l s
      → IsValid l (record_nonce l id nonce now s).0
  unfolding record_nonce
  record_nonce-IsValid id nonce now s peers nonces h = elim (Option-cases (get s.peers id)) [
    | inl new ↦
        let (valid, room) = make_peer_room-IsValid now s peers h in
        rw (new, record_nonce)
          (add_peer-IsValid id nonce now (make_peer_room l now s) nonces
            (make_peer_room_absent id now s new) room valid)
    | inr (p, e) ↦ rw (e, record_nonce) (known_peer-IsValid l id nonce now p s nonces e h)
  ]

  -- With limits that are not zero, every call, accepted or refused, keeps a valid registry valid:
  -- unique peers, queues that agree with the maps, at most `max_peers` peers and at most
  -- `nonces_per_peer` nonces for each.
  pub check_and_insert-IsValid :
      (id nonce : String) (now : ℕ) (s : ReplayState)
      → 0 < l.max_peers
      → 0 < l.nonces_per_peer
      → IsValid l s
      → IsValid l (check_and_insert l id nonce now s).0
  unfolding check_and_insert record_nonce
  check_and_insert-IsValid id nonce now s peers nonces h =
      elim (Result-cases (check_arguments l id nonce)) [
        | inr (e, refused) ↦ rw (refused, check_and_insert) h
        | inl (_, accepted) ↦
            rw (accepted, check_and_insert) (record_nonce-IsValid id nonce now s peers nonces h)
      ]
