-- ===== src/Agent/ReplayCache/Window.antt =====
-- The replay cache against the validity window of the messages that it remembers: the window closes
-- a clock skew after the expiry, and the cache forgets at the expiry.
use podmesh.Prelude.{string_eq}
use podmesh.Prelude.{false, ℕ, ◌+◌, ◌≤◌, ◌<◌, ◌≡◌, String, ok, arith, Bool-cases, inl, inr, u64_max}
use podmesh.Map.{contains_key}
use podmesh.Fifo.{prune}
use podmesh.Fifo.Consistent.{IsConsistent, prune-IsConsistent, add-IsConsistent}
use podmesh.Fifo.Stale.{AllEntries, prune-AllEntries, add-AllEntries, prune_all}
use podmesh.Protocol.Freshness.{validate_validity_window, validate_validity_window_lem}
use podmesh.Agent.ReplayCache.{false, ReplayCache, record_key, is_past, max_replay_entries}

-- The record of an accepted key and everything before it is past at `later`.
accepted_past :
    (key : String) (expires_at first later : ℕ) (c : ReplayCache)
    → IsConsistent c
    → AllEntries (is_past later) c.seen
    → expires_at < later
    → (record_key key expires_at first c).1 ≡ ok tt
    → IsConsistent (record_key key expires_at first c).0
      × AllEntries (is_past later) (record_key key expires_at first c).0.seen
unfolding record_key
accepted_past key expires_at first later c v past closed accepted =
    elim (Bool-cases (contains_key pruned.seen key)) [
      | inl seen ↦ absurd (ground arith)
      | inr fresh ↦ rw fresh (
        add-IsConsistent max_replay_entries key expires_at pruned fresh
            (prune-IsConsistent (is_past first) c v),
        add-AllEntries (is_past later) max_replay_entries key expires_at pruned (ground arith)
            (prune-AllEntries (is_past later) (is_past first) c past),
      )
    ]
  where
    pruned : ReplayCache
    pruned = prune (is_past first) c

-- A message that a consistent cache accepted is accepted again, by its validity window and by the
-- cache, at every second of the clock skew after its expiry, provided that whatever the cache held
-- before is past by then, that the message has a lifetime of at most 300 seconds, and that no time
-- reaches the largest u64.
pub replay_after_expiry :
    (key : String) (issued_at expires_at first later : ℕ) (c : ReplayCache)
    → IsConsistent c
    → AllEntries (is_past later) c.seen
    → (record_key key expires_at first c).1 ≡ ok tt
    → issued_at < expires_at
    → expires_at ≤ issued_at + 300
    → expires_at < later
    → later ≤ expires_at + 60
    → later + 60 ≤ u64_max
    → (validate_validity_window issued_at expires_at later ≡ ok tt)
      × ((record_key key expires_at later (record_key key expires_at first c).0).1 ≡ ok tt)
replay_after_expiry key issued_at expires_at first later c v past accepted a b closed open_ bound =
    (
      (validate_validity_window_lem issued_at expires_at later bound (omega arith)).1
          (omega arith, omega arith, a, b),
      again,
    )
  where
    again : (record_key key expires_at later (record_key key expires_at first c).0).1 ≡ ok tt
    again =
        let (v', past') = accepted_past key expires_at first later c v past closed accepted in
        let gone : contains_key (prune (is_past later) (record_key key expires_at first c).0).seen
              key
            ≡ false =
          prune_all (is_past later) (record_key key expires_at first c).0 key v' past' in
        unfold record_key in ground (arith, gone)
