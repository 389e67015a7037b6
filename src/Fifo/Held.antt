-- ===== src/Fifo/Held.antt =====
-- How long a cache keeps an entry.
use podmesh.Prelude.{
  ℕ, suc, ◌<◌, ◌≡◌, ◌≢◌, String, Bool, Option, none, some, List, [], ◌∷◌, ◌++◌, ◌==◌, if◌then◌else◌,
  length, leb, arith, elem, eq_lem, string_eq, length-append, false, Option-cases, Bool-cases, inl,
  inr,
}
use podmesh.Map.{Map, get, remove, contains_key}
use podmesh.Map.Laws.{get-remove, get-insert}
use podmesh.Fifo.{Fifo, prune_order, prune, pop_oldest, make_room, push, add}
use podmesh.Fifo.Consistent.{IsConsistent, make_room_absent}

-- How many keys were queued behind the first occurrence of a key.
abbrev pub behind : String → List String → Option ℕ
behind k [] = none
behind k (x ∷ xs) = if x == k then some (length xs) else behind k xs

pub behind-lt : (k : String) (xs : List String) (n : ℕ) → behind k xs ≡ some n → n < length xs
behind-lt k [] n h = absurd (cc)
behind-lt k (x ∷ xs) n h = ground (arith, behind-lt k xs n)

pub behind-append :
    (k j : String) (xs : List String) (n : ℕ)
    → behind k xs ≡ some n
    → behind k (xs ++ j ∷ []) ≡ some (suc n)
behind-append k j [] n h = cc
behind-append k j (x ∷ xs) n h = ground (arith, behind-append k j xs n, length-append xs (j ∷ []))

pub behind-append_self :
    (k : String) (xs : List String) → elem k xs ≡ false → behind k (xs ++ k ∷ []) ≡ some 0
behind-append_self k [] h = ground (arith, eq_lem k k)
behind-append_self k (x ∷ xs) h = ground (arith, behind-append_self k xs)

-- The entry of `k` is `v`, and `n` keys were queued after it.
pub record Held {ℓ} {V : Type ℓ} (k : String) (v : V) (n : ℕ) (c : Fifo V) : Type ℓ where
  pub entry : get c.seen k ≡ some v
  pub place : behind k c.order ≡ some n

module _ {ℓ} {V : Type ℓ} where
  prune_order-Held :
      (stale : V → Bool) (k : String) (v : V) (n : ℕ) (seen : Map String V) (ks : List String)
      → stale v ≡ false
      → get seen k ≡ some v
      → behind k ks ≡ some n
      → Held k v n (prune_order stale seen ks)
  unfolding prune_order
  prune_order-Held stale k v n seen [] fresh e p = absurd (cc)
  prune_order-Held stale k v n seen (x ∷ xs) fresh e p = elim (Option-cases (get seen x)) [
    | inl gone ↦
        rw (gone, prune_order)
          (prune_order-Held stale k v n seen xs fresh e (ground (arith, eq_lem x k)))
    | inr (w, f) ↦ elim (Bool-cases (stale w)) [
      | inl old ↦
          rw (f, prune_order, old)
            (prune_order-Held stale k v n (remove seen x) xs fresh
              (ground (arith, get-remove seen x k, eq_lem x k)) (ground (arith, eq_lem x k)))
      | inr young ↦ rw (f, prune_order, young) (record { entry = e; place = p })
    ]
  ]

  -- Pruning keeps an entry that is not stale.
  pub prune-Held :
      (stale : V → Bool) (k : String) (v : V) (n : ℕ) (c : Fifo V)
      → stale v ≡ false
      → Held k v n c
      → Held k v n (prune stale c)
  unfolding prune
  prune-Held stale k v n c fresh h =
      prune_order-Held stale k v n c.seen c.order fresh h.entry h.place

  pop_oldest-Held :
      (k : String) (v : V) (n : ℕ) (seen : Map String V) (ks : List String)
      → suc n < length ks
      → get seen k ≡ some v
      → behind k ks ≡ some n
      → Held k v n (pop_oldest seen ks)
  unfolding pop_oldest
  pop_oldest-Held k v n seen [] small e p = absurd (cc)
  pop_oldest-Held k v n seen (x ∷ xs) small e p = record {
    entry = ground (arith, get-remove seen x k, eq_lem x k);
    place = ground (arith, eq_lem x k);
  }

  pub make_room-Held :
      (limit : ℕ) (k : String) (v : V) (n : ℕ) (c : Fifo V)
      → suc n < limit
      → Held k v n c
      → Held k v n (make_room limit c)
  unfolding make_room
  make_room-Held limit k v n c small h = elim (Bool-cases (leb limit (length c.order))) [
    | inl full ↦ rw full (pop_oldest-Held k v n c.seen c.order (ground arith) h.entry h.place)
    | inr room ↦ rw room h
  ]

  push-Held :
      (k j : String) (v w : V) (n : ℕ) (c : Fifo V)
      → j ≢ k
      → Held k v n c
      → Held k v (suc n) (push j w c)
  unfolding push
  push-Held k j v w n c other h = record {
    entry = ground (arith, h.entry, get-insert c.seen j k w, eq_lem j k);
    place = behind-append k j c.order n h.place;
  }

  -- Another key pushes an entry one place towards the front, and not out, if there is room.
  pub add-Held :
      (limit : ℕ) (k j : String) (v w : V) (n : ℕ) (c : Fifo V)
      → suc n < limit
      → j ≢ k
      → Held k v n c
      → Held k v (suc n) (add limit j w c)
  unfolding add
  add-Held limit k j v w n c small other h =
      push-Held k j v w n (make_room limit c) other (make_room-Held limit k v n c small h)

  -- A new key stands last.
  pub add-Held_self :
      (limit : ℕ) (k : String) (v : V) (c : Fifo V)
      → IsConsistent c
      → contains_key c.seen k ≡ false
      → Held k v 0 (add limit k v c)
  unfolding add push
  add-Held_self limit k v c h fresh = record {
    entry = ground (arith, get-insert (make_room limit c).seen k k v, eq_lem k k);
    place =
        behind-append_self k (make_room limit c).order
          (make_room_absent limit k c (ground (arith, h.agree k)));
  }
