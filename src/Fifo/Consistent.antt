-- ===== src/Fifo/Consistent.antt =====
-- The queue and the map of a cache hold the same keys, and no operation passes its bound.
use podmesh.Prelude.{
  ℕ, suc, ◌≤◌, ◌<◌, ◌≡◌, refl, String, Bool, List, [], ◌∷◌, length, leb, arith, elem, Distinct,
  eq_lem, string_eq, append-Distinct, elem-append, length-append, false, Option-cases, Bool-cases,
  inl, inr,
}
use podmesh.Map.{Map, get, remove, contains_key}
use podmesh.Map.Laws.{get-remove, get-insert}
use podmesh.Fifo.{Fifo, empty, prune_order, prune, pop_oldest, make_room, push, add}

pub record IsConsistent {ℓ} {V : Type ℓ} (c : Fifo V) : Type ℓ where
  pub distinct : Distinct c.order
  pub agree : (k : String) → contains_key c.seen k ≡ elem k c.order

module _ {ℓ} {V : Type ℓ} where
  pub empty-IsConsistent : IsConsistent (empty {V = V})
  unfolding get
  empty-IsConsistent = record { distinct = tt; agree = λ k. refl }

  -- Dropping the front key keeps the two in step.
  front_agrees :
      (seen : Map String V) (k : String) (ks : List String)
      → Distinct (k ∷ ks)
      → ((j : String) → contains_key seen j ≡ elem j (k ∷ ks))
      → (j : String) → contains_key (remove seen k) j ≡ elem j ks
  front_agrees seen k ks d a j = ground (arith, a j, get-remove seen k j, eq_lem k j)

  prune_order-IsConsistent :
      (stale : V → Bool) (seen : Map String V) (ks : List String)
      → Distinct ks
      → ((j : String) → contains_key seen j ≡ elem j ks)
      → IsConsistent (prune_order stale seen ks)
  unfolding prune_order
  prune_order-IsConsistent stale seen [] d a = record { distinct = tt; agree = a }
  prune_order-IsConsistent stale seen (k ∷ ks) d a = elim (Option-cases (get seen k)) [
    | inl gone ↦ absurd (ground (arith, a k, eq_lem k k))
    | inr (v, e) ↦ elim (Bool-cases (stale v)) [
      | inl old ↦
          rw (e, prune_order, old)
            (prune_order-IsConsistent stale (remove seen k) ks d.1 (front_agrees seen k ks d a))
      | inr fresh ↦ rw (e, prune_order, fresh) (record { distinct = d; agree = a })
    ]
  ]

  pub prune-IsConsistent :
      (stale : V → Bool) (c : Fifo V) → IsConsistent c → IsConsistent (prune stale c)
  unfolding prune
  prune-IsConsistent stale c h = prune_order-IsConsistent stale c.seen c.order h.distinct h.agree

  pop_oldest-IsConsistent :
      (seen : Map String V) (ks : List String)
      → Distinct ks
      → ((j : String) → contains_key seen j ≡ elem j ks)
      → IsConsistent (pop_oldest seen ks)
  unfolding pop_oldest
  pop_oldest-IsConsistent seen [] d a = record { distinct = tt; agree = a }
  pop_oldest-IsConsistent seen (k ∷ ks) d a = record {
    distinct = d.1;
    agree = front_agrees seen k ks d a;
  }

  pub make_room-IsConsistent :
      (limit : ℕ) (c : Fifo V) → IsConsistent c → IsConsistent (make_room limit c)
  unfolding make_room
  make_room-IsConsistent limit c h = elim (Bool-cases (leb limit (length c.order))) [
    | inl full ↦ rw full (pop_oldest-IsConsistent c.seen c.order h.distinct h.agree)
    | inr room ↦ rw room h
  ]

  pop_oldest_absent :
      (k : String) (seen : Map String V) (ks : List String)
      → elem k ks ≡ false
      → elem k (pop_oldest seen ks).order ≡ false
  unfolding pop_oldest
  pop_oldest_absent k seen [] h = refl
  pop_oldest_absent k seen (j ∷ ks) h = ground arith

  pub make_room_absent :
      (limit : ℕ) (k : String) (c : Fifo V)
      → elem k c.order ≡ false
      → elem k (make_room limit c).order ≡ false
  unfolding make_room
  make_room_absent limit k c h = ground (arith, pop_oldest_absent k c.seen c.order)

  push-IsConsistent :
      (k : String) (v : V) (c : Fifo V)
      → elem k c.order ≡ false
      → IsConsistent c
      → IsConsistent (push k v c)
  unfolding push
  push-IsConsistent k v c fresh h = record {
    distinct = append-Distinct k c.order fresh h.distinct;
    agree = λ j.
        ground
          (arith, h.agree j, get-insert c.seen k j v, elem-append j c.order (k ∷ []), eq_lem k j);
  }

  pub add-IsConsistent :
      (limit : ℕ) (k : String) (v : V) (c : Fifo V)
      → contains_key c.seen k ≡ false
      → IsConsistent c
      → IsConsistent (add limit k v c)
  unfolding add
  add-IsConsistent limit k v c fresh h =
      push-IsConsistent k v (make_room limit c)
        (make_room_absent limit k c (ground (arith, h.agree k))) (make_room-IsConsistent limit c h)

  prune_order-length :
      (stale : V → Bool) (seen : Map String V) (ks : List String)
      → length (prune_order stale seen ks).order ≤ length ks
  unfolding prune_order
  prune_order-length stale seen [] = omega arith
  prune_order-length stale seen (k ∷ ks) =
      ground (arith, prune_order-length stale seen ks, prune_order-length stale (remove seen k) ks)

  pub prune-length : (stale : V → Bool) (c : Fifo V) → length (prune stale c).order ≤ length c.order
  unfolding prune
  prune-length stale c = prune_order-length stale c.seen c.order

  pop_oldest-length :
      (seen : Map String V) (ks : List String)
      → 0 < length ks
      → suc (length (pop_oldest seen ks).order) ≡ length ks
  unfolding pop_oldest
  pop_oldest-length seen [] h = elim h [ ]
  pop_oldest-length seen (k ∷ ks) h = refl

  -- A positive limit bounds the queue.
  pub add-length :
      (limit : ℕ) (k : String) (v : V) (c : Fifo V)
      → 0 < limit
      → length c.order ≤ limit
      → length (add limit k v c).order ≤ limit
  unfolding add make_room push
  add-length limit k v c p h = ground (
    arith,
    pop_oldest-length c.seen c.order,
    length-append c.order (k ∷ []),
    length-append (pop_oldest c.seen c.order).order (k ∷ []),
  )
