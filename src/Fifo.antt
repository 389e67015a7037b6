-- ===== src/Fifo.antt =====
-- A map with a queue of its keys in the order of insertion: the shape that the envelope replay
-- registry and the agent's replay cache share (shared/protocol/src/replay_registry.rs and
-- podmesh-agent/src/service.rs).
pub mod Consistent
pub mod Held
pub mod Stale
use podmesh.Prelude.{
  ℕ, suc, ◌+◌, ◌≤◌, ◌≡◌, String, Bool, Option, none, some, List, [], ◌∷◌, ◌++◌, ◌==◌, if◌then◌else◌,
  length, leb, string_eq,
}
use podmesh.Map.{Map, get, remove, insert}

pub record Fifo {ℓ} (V : Type ℓ) : Type ℓ where
  pub seen : Map String V
  pub order : List String

module _ {ℓ} {V : Type ℓ} where
  abbrev pub empty : Fifo V
  empty = record { seen = []; order = [] }

  -- The loop that drops stale entries from the front, and queued keys that have no entry.
  unfoldable pub prune_order : (V → Bool) → Map String V → List String → Fifo V
  prune_order stale seen [] = record { seen = seen; order = [] }
  prune_order stale seen (k ∷ ks) = elim (get seen k) [
    | none ↦ prune_order stale seen ks
    | some v ↦
        let rest = prune_order stale (remove seen k) ks in
        if stale v then rest else record { seen = seen; order = k ∷ ks }
  ]

  unfoldable pub prune : (V → Bool) → Fifo V → Fifo V
  unfolding prune_order
  prune stale c = prune_order stale c.seen c.order

  unfoldable pub pop_oldest : Map String V → List String → Fifo V
  pop_oldest seen [] = record { seen = seen; order = [] }
  pop_oldest seen (k ∷ ks) = record { seen = remove seen k; order = ks }

  -- Drops the oldest entry when the queue is full.
  unfoldable pub make_room : ℕ → Fifo V → Fifo V
  unfolding pop_oldest
  make_room limit c = if leb limit (length c.order) then pop_oldest c.seen c.order else c

  unfoldable pub push : String → V → Fifo V → Fifo V
  push k v c = record { seen = insert c.seen k v; order = c.order ++ k ∷ [] }

  unfoldable pub add : ℕ → String → V → Fifo V → Fifo V
  unfolding make_room push
  add limit k v c = push k v (make_room limit c)
