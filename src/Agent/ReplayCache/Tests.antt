-- ===== src/Agent/ReplayCache/Tests.antt =====
-- Tests of the replay cache, and the theorems on it at a concrete cache.
use podmesh.Fifo.Stale.{AllEntries}
use podmesh.Map.{get}
use podmesh.Prelude.{◌≡◌, refl, List, [], ◌∷◌, ok, err, arith, string_eq}
use podmesh.Fifo.{prune}
use podmesh.Fifo.Consistent.{empty-IsConsistent}
use podmesh.Protocol.Freshness.{validate_validity_window}
use podmesh.Agent.ReplayCache.{
  ReplayCache, is_past, record_key, Call, run, IsValid, record_key-IsValid, recorded_refused,
}
use podmesh.Agent.ReplayCache.Window.{replay_after_expiry}

abbrev fresh_cache : ReplayCache
fresh_cache = record { seen = []; order = [] }

fresh_cache-IsValid : IsValid fresh_cache
fresh_cache-IsValid = record { consistent = empty-IsConsistent; bounded = omega arith }

abbrev between : List Call
between = record { key = "update:ns:n2"; expires_at = 400; now = 120 } ∷ []

recorded : (record_key "admission:ns:n1" 200 100 fresh_cache).1 ≡ ok tt
unfolding record_key get prune
recorded = refl

record_key-IsValid_example : IsValid (record_key "admission:ns:n1" 200 100 fresh_cache).0
record_key-IsValid_example =
    record_key-IsValid "admission:ns:n1" 200 100 fresh_cache fresh_cache-IsValid

recorded_refused_example :
    (record_key "admission:ns:n1" 200 150
      (run between (record_key "admission:ns:n1" 200 100 fresh_cache).0)).1
    ≡ err "replayed request"
recorded_refused_example =
    recorded_refused "admission:ns:n1" 200 100 fresh_cache between 200 150 empty-IsConsistent
      recorded (omega arith, tt) (omega arith) (omega arith)

nothing_held : AllEntries (is_past 230) fresh_cache.seen
unfolding get
nothing_held k v e = absurd (ground arith)

replay_after_expiry_example :
    (validate_validity_window 100 200 230 ≡ ok tt)
    × ((record_key "admission:ns:n1" 200 230 (record_key "admission:ns:n1" 200 100 fresh_cache).0).1
        ≡ ok tt)
replay_after_expiry_example =
    replay_after_expiry "admission:ns:n1" 100 200 100 230 fresh_cache empty-IsConsistent
      nothing_held recorded (omega arith) (omega arith) (omega arith) (omega arith) (omega arith)
