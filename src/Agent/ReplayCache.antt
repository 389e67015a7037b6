-- ===== src/Agent/ReplayCache.antt =====
-- The agent's memory of the nonces that it has acted on (`ReplayCache` of service.rs).
pub mod Window
pub mod Tests
use podmesh.Prelude.{
  ℕ, suc, ◌+◌, ◌≤◌, ◌<◌, ◌≡◌, ◌≢◌, refl, String, Bool, true, false, Option, none, some, List, [],
  ◌∷◌, ltb, if◌then◌else◌, length, Result, ok, err, arith, string_eq, Bool-cases, inl, inr,
  Option-cases, sym, ap,
}
use podmesh.Map.{Map, get, contains_key}
use podmesh.Fifo.{Fifo, prune, add}
use podmesh.Fifo.Consistent.{
  IsConsistent, prune-IsConsistent, add-IsConsistent, prune-length, add-length,
}
use podmesh.Fifo.Held.{Held, prune-Held, add-Held, add-Held_self}

abbrev pub max_replay_entries : ℕ
max_replay_entries = 16384

-- The expiry of each message, and the keys from the oldest.
abbrev pub ReplayCache : Type 0
ReplayCache = Fifo ℕ

-- `*expiry < now_secs`
abbrev pub is_past : ℕ → ℕ → Bool
is_past now expiry = ltb expiry now

-- The entries that have passed are dropped even if the request is refused afterwards.
unfoldable pub record_key : String → ℕ → ℕ → ReplayCache → ReplayCache × Result (Unit {0})
record_key key expires_at now c =
    let pruned = prune (is_past now) c in
    if contains_key pruned.seen key
    then (pruned, err "replayed request")
    else (add max_replay_entries key expires_at pruned, ok tt)

pub record Call : Type 0 where
  pub key : String
  pub expires_at : ℕ
  pub now : ℕ

unfoldable pub run : List Call → ReplayCache → ReplayCache
run [] c = c
run (r ∷ rs) c = run rs (record_key r.key r.expires_at r.now c).0

pub record IsValid (c : ReplayCache) : Type 0 where
  pub consistent : IsConsistent c
  pub bounded : length c.order ≤ max_replay_entries

-- Every call, accepted or refused, keeps a valid cache valid: the queue and the map in step, and at
-- most 16384 keys.
pub record_key-IsValid :
    (key : String) (expires_at now : ℕ) (c : ReplayCache)
    → IsValid c
    → IsValid (record_key key expires_at now c).0
unfolding record_key
record_key-IsValid key expires_at now c h = elim (Bool-cases (contains_key pruned.seen key)) [
  | inl seen ↦ rw seen (record { consistent = consistent_pruned; bounded = bounded_pruned })
  | inr fresh ↦ rw fresh (record {
    consistent = add-IsConsistent max_replay_entries key expires_at pruned fresh consistent_pruned;
    bounded = add-length max_replay_entries key expires_at pruned (omega arith) bounded_pruned;
  })
]
  where
    pruned : ReplayCache
    pruned = prune (is_past now) c

    consistent_pruned : IsConsistent pruned
    consistent_pruned = prune-IsConsistent (is_past now) c h.consistent

    bounded_pruned : length pruned.order ≤ max_replay_entries
    bounded_pruned = omega (arith, h.bounded, prune-length (is_past now) c)

-- `key` is in the cache with its expiry, and at most `n` keys were recorded since.
record Remembered (key : String) (expires_at n : ℕ) (c : ReplayCache) : Type 0 where
  later : ℕ
  held : Held key expires_at later c
  few : later ≤ n

module _ (key : String) (expires_at : ℕ) where
  first-Remembered :
      (now : ℕ) (c : ReplayCache)
      → IsConsistent c
      → (record_key key expires_at now c).1 ≡ ok tt
      → Remembered key expires_at 0 (record_key key expires_at now c).0
  unfolding record_key
  first-Remembered now c v h = elim (Bool-cases (contains_key pruned.seen key)) [
    | inl seen ↦ absurd (ground arith)
    | inr fresh ↦ rw fresh (record {
      later = 0;
      held =
          add-Held_self max_replay_entries key expires_at pruned
            (prune-IsConsistent (is_past now) c v) fresh;
      few = omega arith;
    })
  ]
    where
      pruned : ReplayCache
      pruned = prune (is_past now) c

  next-Remembered :
      (r : Call) (n : ℕ) (c : ReplayCache)
      → r.now ≤ expires_at
      → suc n < max_replay_entries
      → Remembered key expires_at n c
      → Remembered key expires_at (suc n) (record_key r.key r.expires_at r.now c).0
  unfolding record_key
  next-Remembered r n c young small m = elim (Bool-cases (contains_key pruned.seen r.key)) [
    | inl seen ↦ rw seen (record { later = m.later; held = kept; few = omega (arith, m.few) })
    | inr fresh ↦ rw fresh (record {
      later = suc m.later;
      held =
          add-Held max_replay_entries key r.key expires_at r.expires_at m.later pruned
            (omega (arith, m.few)) (λ same. ground (arith, kept.entry)) kept;
      few = omega (arith, m.few);
    })
  ]
    where
      pruned : ReplayCache
      pruned = prune (is_past r.now) c

      kept : Held key expires_at m.later pruned
      kept = prune-Held (is_past r.now) key expires_at m.later c (ground arith) m.held

  abbrev pub AllBefore : List Call → Type 0
  AllBefore [] = Unit {0}
  AllBefore (r ∷ rs) = (r.now ≤ expires_at) × AllBefore rs

  run-Remembered :
      (rs : List Call) (n : ℕ) (c : ReplayCache)
      → AllBefore rs
      → n + length rs < max_replay_entries
      → Remembered key expires_at n c
      → Remembered key expires_at (n + length rs) (run rs c)
  unfolding run
  run-Remembered [] n c young small m = record {
    later = m.later;
    held = m.held;
    few = omega (arith, m.few);
  }
  run-Remembered (r ∷ rs) n c young small m =
      let after : ReplayCache = (record_key r.key r.expires_at r.now c).0 in
      let kept : Remembered key expires_at (suc n + length rs) (run rs after) =
        run-Remembered rs (suc n) after young.1 (omega arith)
          (next-Remembered r n c young.0 (omega arith) m) in
      record { later = kept.later; held = kept.held; few = omega (arith, kept.few) }

  -- A key that a consistent cache accepted is refused up to its message's expiry, whatever fewer
  -- than 16384 calls stand in between, provided that none of these comes later than that expiry.
  pub recorded_refused :
      (first : ℕ) (c : ReplayCache) (rs : List Call) (expiry now : ℕ)
      → IsConsistent c
      → (record_key key expires_at first c).1 ≡ ok tt
      → AllBefore rs
      → length rs < max_replay_entries
      → now ≤ expires_at
      → (record_key key expiry now (run rs (record_key key expires_at first c).0)).1
        ≡ err "replayed request"
  recorded_refused first c rs expiry now v accepted young small last =
      let m : Remembered key expires_at (0 + length rs)
          (run rs (record_key key expires_at first c).0) =
        run-Remembered rs 0 (record_key key expires_at first c).0 young (omega arith)
          (first-Remembered first c v accepted) in
      let kept : Held key expires_at m.later
          (prune (is_past now) (run rs (record_key key expires_at first c).0)) =
        prune-Held (is_past now) key expires_at m.later
          (run rs (record_key key expires_at first c).0) (ground arith) m.held in
      unfold record_key in ground (arith, kept.entry)
