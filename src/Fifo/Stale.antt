-- ===== src/Fifo/Stale.antt =====
-- What pruning forgets.
use podmesh.Prelude.{
  ℕ, ◌≡◌, refl, String, Bool, true, false, some, List, [], ◌∷◌, length, leb, arith, string_eq,
  Option-cases, Bool-cases, inl, inr,
}
use podmesh.Map.{Map, get, remove, contains_key}
use podmesh.Map.Laws.{get-remove, get-insert}
use podmesh.Fifo.{Fifo, prune_order, prune, pop_oldest, make_room, push, add}
use podmesh.Fifo.Consistent.{IsConsistent, prune-IsConsistent}

-- Every entry passes a test.
abbrev pub AllEntries {ℓ} : {V : Type ℓ} → (V → Bool) → Map String V → Type ℓ
AllEntries {V} p seen = (k : String) (v : V) → get seen k ≡ some v → p v ≡ true

module _ {ℓ} {V : Type ℓ} where
  remove-AllEntries :
      (p : V → Bool) (seen : Map String V) (j : String)
      → AllEntries p seen
      → AllEntries p (remove seen j)
  remove-AllEntries p seen j a k v e = a k v (ground (arith, get-remove seen j k))

  prune_order-AllEntries :
      (p stale : V → Bool) (seen : Map String V) (ks : List String)
      → AllEntries p seen
      → AllEntries p (prune_order stale seen ks).seen
  unfolding prune_order
  prune_order-AllEntries p stale seen [] a = a
  prune_order-AllEntries p stale seen (x ∷ xs) a = elim (Option-cases (get seen x)) [
    | inl gone ↦ rw (gone, prune_order) (prune_order-AllEntries p stale seen xs a)
    | inr (v, e) ↦ elim (Bool-cases (stale v)) [
      | inl old ↦
          rw (e, prune_order, old)
            (prune_order-AllEntries p stale (remove seen x) xs (remove-AllEntries p seen x a))
      | inr fresh ↦ rw (e, prune_order, fresh) a
    ]
  ]

  pub prune-AllEntries :
      (p stale : V → Bool) (c : Fifo V) → AllEntries p c.seen → AllEntries p (prune stale c).seen
  unfolding prune
  prune-AllEntries p stale c a = prune_order-AllEntries p stale c.seen c.order a

  pop_oldest-AllEntries :
      (p : V → Bool) (seen : Map String V) (ks : List String)
      → AllEntries p seen
      → AllEntries p (pop_oldest seen ks).seen
  unfolding pop_oldest
  pop_oldest-AllEntries p seen [] a = a
  pop_oldest-AllEntries p seen (x ∷ xs) a = remove-AllEntries p seen x a

  make_room-AllEntries :
      (p : V → Bool) (limit : ℕ) (c : Fifo V)
      → AllEntries p c.seen
      → AllEntries p (make_room limit c).seen
  unfolding make_room
  make_room-AllEntries p limit c a = elim (Bool-cases (leb limit (length c.order))) [
    | inl full ↦ rw full (pop_oldest-AllEntries p c.seen c.order a)
    | inr room ↦ rw room a
  ]

  pub add-AllEntries :
      (p : V → Bool) (limit : ℕ) (j : String) (w : V) (c : Fifo V)
      → p w ≡ true
      → AllEntries p c.seen
      → AllEntries p (add limit j w c).seen
  unfolding add push
  add-AllEntries p limit j w c good a k v e =
      ground
        (arith, get-insert (make_room limit c).seen j k w, make_room-AllEntries p limit c a k v)

  prune_order_all :
      (stale : V → Bool) (seen : Map String V) (ks : List String)
      → AllEntries stale seen
      → (prune_order stale seen ks).order ≡ []
  unfolding prune_order
  prune_order_all stale seen [] a = refl
  prune_order_all stale seen (x ∷ xs) a = elim (Option-cases (get seen x)) [
    | inl gone ↦ rw (gone, prune_order) (prune_order_all stale seen xs a)
    | inr (v, e) ↦
        rw (e, prune_order, a x v e)
          (prune_order_all stale (remove seen x) xs (remove-AllEntries stale seen x a))
  ]

  -- Where every entry is stale nothing is left.
  pub prune_all :
      (stale : V → Bool) (c : Fifo V) (k : String)
      → IsConsistent c
      → AllEntries stale c.seen
      → contains_key (prune stale c).seen k ≡ false
  unfolding prune
  prune_all stale c k v a =
      ground (arith, (prune-IsConsistent stale c v).agree k, prune_order_all stale c.seen c.order a)
