-- ===== src/Protocol/Replay/Refusal.antt =====
-- How long a nonce is refused after it was accepted.
use podmesh.Map.Totals.{size-insert-le}
use podmesh.Prelude.{
  sym, subst, false, [], ◌==◌, ◌+◌, Result-cases, ◌∷◌, length, List, ℕ, suc, ◌-◌, ◌≤◌, ◌<◌, ◌≡◌,
  ◌≢◌, String, string_eq, eq_lem, Option-cases, Bool-cases, inl, inr, arith, ok, err,
}
use podmesh.Map.{size, get}
use podmesh.Fifo.{empty}
use podmesh.Protocol.Replay.{
  evict_if_full, Call, run, ReplayLimits, ReplayState, prune_expired, insert_nonce, make_peer_room,
  known_peer, add_peer, check_arguments, record_nonce, check_and_insert,
}
use podmesh.Protocol.Replay.Peers.{IsValid}
use podmesh.Protocol.Replay.Memory.{
  Remembered, accepted_arguments, record_nonce-Remembered, held_refused, other_known, other_new,
  weaken, own_known,
}

module _ (l : ReplayLimits) (id nonce : String) (t : ℕ) where
  -- One further call, of any peer, leaves the nonce remembered while the registry has room.
  record_nonce-keeps_Remembered :
      (j m : String) (now n : ℕ) (s : ReplayState)
      → now - t < l.retention
      → suc n < l.nonces_per_peer
      → size s.peers < l.max_peers
      → Remembered id nonce t n s
      → Remembered id nonce t (suc n) (record_nonce l j m now s).0
  unfolding record_nonce make_peer_room evict_if_full
  record_nonce-keeps_Remembered j m now n s young small room r = elim (Bool-cases (j == id)) [
    | inl same ↦
        subst (λ (z : String). Remembered id nonce t (suc n) (record_nonce l z m now s).0)
          (sym ((eq_lem j id).0 same))
          (rw (r.found, record_nonce)
            (weaken l id nonce t (suc r.later) (suc n) _ (omega (arith, r.few))
              (own_known l id nonce t m now r.later r.peer s young (omega (arith, r.few)) r.held)))
    | inr differs ↦ elim (Option-cases (get s.peers j)) [
      | inl new ↦
          rw (new, record_nonce)
            (subst (λ (z : ReplayState). Remembered id nonce t (suc n) (add_peer l j m now z))
              (ground arith)
              (weaken l id nonce t n (suc n) _ (omega arith)
                (other_new l id nonce t j m now n s (other differs) r)))
      | inr (q, e) ↦
          rw (e, record_nonce)
            (weaken l id nonce t n (suc n) _ (omega arith)
              (other_known l id nonce t j m now n q s (other differs) r))
    ]
  ]
    where
      other : (j == id) ≡ false → j ≢ id
      other differs same = ground (arith, eq_lem j id)

  record_nonce-size :
      (j m : String) (now : ℕ) (s : ReplayState)
      → size s.peers < l.max_peers
      → size (record_nonce l j m now s).0.peers ≤ suc (size s.peers)
  unfolding record_nonce known_peer add_peer make_peer_room evict_if_full
  record_nonce-size j m now s room = elim (Option-cases (get s.peers j)) [
    | inl new ↦
        rw (new, record_nonce)
          (ground (arith, size-insert-le s.peers j (insert_nonce m now l.nonces_per_peer empty)))
    | inr (q, e) ↦
        let pruned = prune_expired now l.retention q in
        rw (e, record_nonce)
          (ground (
            arith,
            size-insert-le s.peers j pruned,
            size-insert-le s.peers j (insert_nonce m now l.nonces_per_peer pruned),
          ))
  ]

  abbrev pub AllYoung : List Call → Type 0
  AllYoung [] = Unit {0}
  AllYoung (c ∷ cs) = (c.now - t < l.retention) × AllYoung cs

  call-keeps_Remembered :
      (c : Call) (n : ℕ) (s : ReplayState)
      → c.now - t < l.retention
      → suc n < l.nonces_per_peer
      → size s.peers < l.max_peers
      → Remembered id nonce t n s
      → Remembered id nonce t (suc n) (check_and_insert l c.peer_id c.nonce c.now s).0
        × (size (check_and_insert l c.peer_id c.nonce c.now s).0.peers ≤ suc (size s.peers))
  unfolding check_and_insert
  call-keeps_Remembered c n s young small room r =
      elim (Result-cases (check_arguments l c.peer_id c.nonce)) [
        | inr (e, refused) ↦
            rw (refused, check_and_insert)
              (weaken l id nonce t n (suc n) s (omega arith) r, omega arith)
        | inl (_, good) ↦
            rw (good, check_and_insert)
              (
                record_nonce-keeps_Remembered c.peer_id c.nonce c.now n s young small room r,
                record_nonce-size c.peer_id c.nonce c.now s room,
              )
      ]

  run-Remembered :
      (cs : List Call) (n : ℕ) (s : ReplayState)
      → AllYoung cs
      → n + length cs < l.nonces_per_peer
      → size s.peers + length cs ≤ l.max_peers
      → Remembered id nonce t n s
      → Remembered id nonce t (n + length cs) (run l cs s)
  unfolding run
  run-Remembered [] n s young small room r = weaken l id nonce t n (n + 0) s (omega arith) r
  run-Remembered (c ∷ cs) n s young small room r =
      let (kept, grown) = call-keeps_Remembered c n s young.0 (omega arith) (omega arith) r in
      let after : ReplayState = (check_and_insert l c.peer_id c.nonce c.now s).0 in
      weaken l id nonce t (suc n + length cs) (n + suc (length cs)) (run l cs after) (omega arith)
        (run-Remembered cs (suc n) after young.1 (omega arith) (omega (arith, grown)) kept)

  -- A nonce that a valid registry accepted at `t` is refused at any later call that comes before
  -- the retention is over, whatever calls of whatever peers stand in between, provided that these
  -- are fewer than the nonces kept for a peer, that they come within the retention too, and that
  -- the registry has room for as many new peers.
  pub replay_refused :
      (s : ReplayState) (cs : List Call) (now : ℕ)
      → IsValid l s
      → (check_and_insert l id nonce t s).1 ≡ ok tt
      → AllYoung cs
      → length cs < l.nonces_per_peer
      → size (check_and_insert l id nonce t s).0.peers + length cs ≤ l.max_peers
      → now - t < l.retention
      → (check_and_insert l id nonce now (run l cs (check_and_insert l id nonce t s).0)).1
        ≡ err "envelope replay detected"
  replay_refused s cs now v accepted young small room last =
      let (good, same, recorded) = accepted_arguments l id nonce t s accepted in
      let start : Remembered id nonce t 0 (check_and_insert l id nonce t s).0 =
        rw same (record_nonce-Remembered l id nonce t s v recorded) in
      held_refused l id nonce t now (0 + length cs) (run l cs (check_and_insert l id nonce t s).0)
        last
        (run-Remembered cs 0 (check_and_insert l id nonce t s).0 young (omega arith) room start)
        good
