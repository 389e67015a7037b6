-- ===== src/Manifest/Measure/Sums.antt =====
-- What is measured is the sum of what the containers ask for.
use podmesh.Manifest.Quantity.{parse_bytes, parse_cpu}
use podmesh.Manifest.{checked_add, ManifestResources}
use podmesh.Manifest.Measure.{
  add_containers, parse_bytes, parse_cpu, quantity, limits_of, add_container, Totals, Yaml,
}
use podmesh.Prelude.{
  length, Result-cases, u64_max, saturating_add, ◌+◌, ℕ, List, ◌≡◌, ◌≤◌, arith, inl, inr, ok, [],
  ◌∷◌, refl,
}

abbrev pub sum_of : (ManifestResources → ℕ) → List ManifestResources → ℕ
sum_of f [] = 0
sum_of f (r ∷ rs) = f r + sum_of f rs

abbrev pub cpu_of : List ManifestResources → ℕ
cpu_of = sum_of (λ r. r.cpu_milli)

abbrev pub memory_of : List ManifestResources → ℕ
memory_of = sum_of (λ r. r.memory_bytes)

abbrev pub storage_of : List ManifestResources → ℕ
storage_of = sum_of (λ r. r.storage_bytes)

abbrev pub Fits : Totals → Type 0
Fits t = (t.memory_bytes ≤ u64_max) × (t.storage_bytes ≤ u64_max)

-- The totals after containers that ask for `rs`.
pub record Added (t : Totals) (rs : List ManifestResources) (u : Totals) : Type 0 where
  pub cpu : u.cpu_milli ≡ t.cpu_milli + cpu_of rs
  pub memory : u.memory_bytes ≡ t.memory_bytes + memory_of rs
  pub storage : u.storage_bytes ≡ t.storage_bytes + storage_of rs
  pub count : u.container_count ≡ saturating_add t.container_count (length rs)

Added-cons :
    (t u v : Totals) (r : ManifestResources) (rs : List ManifestResources)
    → Added t (r ∷ []) u
    → Added u rs v
    → Added t (r ∷ rs) v
Added-cons t u v r rs a b = record {
  cpu = omega (arith, a.cpu, b.cpu);
  memory = omega (arith, a.memory, b.memory);
  storage = omega (arith, a.storage, b.storage);
  count = omega (arith, a.count, b.count);
}

module _ {V : Type 0} (y : Yaml V) where
  -- A container asks for `r`: its limits are there, and each is a text that is read.
  pub record Charge (container : V) (r : ManifestResources) : Type 0 where
    pub limits : V
    pub found : limits_of y container ≡ ok limits
    pub cpu : quantity y limits "cpu" parse_cpu ≡ ok r.cpu_milli
    pub memory : quantity y limits "memory" parse_bytes ≡ ok r.memory_bytes
    pub storage : quantity y limits "ephemeral-storage" parse_bytes ≡ ok r.storage_bytes

  abbrev pub Charges : List V → List ManifestResources → Type 0
  Charges [] [] = Unit {0}
  Charges [] (r ∷ rs) = ⊥
  Charges (c ∷ cs) [] = ⊥
  Charges (c ∷ cs) (r ∷ rs) = Charge c r × Charges cs rs

  add_container-Charge :
      (t u : Totals) (c : V)
      → add_container y t c ≡ ok u
      → (r : ManifestResources) × Charge c r × Added t (r ∷ []) u
  unfolding add_container checked_add
  add_container-Charge t u c e = elim (Result-cases (limits_of y c)) [
    | inr (m, bad) ↦ absurd (ground arith)
    | inl (limits, found) ↦ elim (Result-cases (quantity y limits "cpu" parse_cpu)) [
      | inr (m, bad) ↦ absurd (ground arith)
      | inl (cpu, e1) ↦ elim (Result-cases (quantity y limits "memory" parse_bytes)) [
        | inr (m, bad) ↦ absurd (ground arith)
        | inl (memory, e2) ↦
            elim (Result-cases (quantity y limits "ephemeral-storage" parse_bytes)) [
              | inr (m, bad) ↦ absurd (ground arith)
              | inl (storage, e3) ↦ (
                record { cpu_milli = cpu; memory_bytes = memory; storage_bytes = storage },
                record { limits = limits; found = found; cpu = e1; memory = e2; storage = e3 },
                record {
                  cpu = ground arith;
                  memory = ground arith;
                  storage = ground arith;
                  count = ground arith;
                },
              )
            ]
      ]
    ]
  ]

  pub container-Fits : (t u : Totals) (c : V) → add_container y t c ≡ ok u → Fits u
  unfolding add_container checked_add
  container-Fits t u c e = elim (Result-cases (limits_of y c)) [
    | inr (m, bad) ↦ absurd (ground arith)
    | inl (limits, found) ↦ ground arith
  ]

  add_container_total :
      (t : Totals) (c : V) (r : ManifestResources)
      → Charge c r
      → t.cpu_milli + r.cpu_milli ≤ u64_max
      → t.memory_bytes + r.memory_bytes ≤ u64_max
      → t.storage_bytes + r.storage_bytes ≤ u64_max
      → (u : Totals) × (add_container y t c ≡ ok u) × Added t (r ∷ []) u
  unfolding add_container checked_add
  add_container_total t c r k cpu memory storage = (
    record {
      cpu_milli = t.cpu_milli + r.cpu_milli;
      memory_bytes = t.memory_bytes + r.memory_bytes;
      storage_bytes = t.storage_bytes + r.storage_bytes;
      container_count = saturating_add t.container_count 1;
    },
    ground (arith, k.found, k.cpu, k.memory, k.storage),
    record { cpu = omega arith; memory = omega arith; storage = omega arith; count = omega arith },
  )

  pub add_containers-Charges :
      (t u : Totals) (cs : List V)
      → add_containers y t cs ≡ ok u
      → t.container_count ≤ u64_max
      → (rs : List ManifestResources) × Charges cs rs × Added t rs u
  unfolding add_containers
  add_containers-Charges t u [] e small =
      let same : t ≡ u = ground arith in
      (
        [],
        tt,
        record {
          cpu = rw same (omega arith);
          memory = rw same (omega arith);
          storage = rw same (omega arith);
          count = rw (← same) (omega arith);
        },
      )
  add_containers-Charges t u (c ∷ cs) e small = elim (Result-cases (add_container y t c)) [
    | inr (m, bad) ↦ absurd (ground arith)
    | inl (v, good) ↦
        let (r, k, a) = add_container-Charge t v c good in
        let (rs, ks, b) = add_containers-Charges v u cs (ground arith) (omega (arith, a.count)) in
        (r ∷ rs, (k, ks), Added-cons t v u r rs a b)
  ]

  pub add_containers_total :
      (t : Totals) (cs : List V) (rs : List ManifestResources)
      → Charges cs rs
      → t.container_count ≤ u64_max
      → t.cpu_milli + cpu_of rs ≤ u64_max
      → t.memory_bytes + memory_of rs ≤ u64_max
      → t.storage_bytes + storage_of rs ≤ u64_max
      → (u : Totals) × (add_containers y t cs ≡ ok u) × Added t rs u
  unfolding add_containers
  add_containers_total t [] [] ks small cpu memory storage = (
    t,
    refl,
    record { cpu = omega arith; memory = omega arith; storage = omega arith; count = omega arith },
  )
  add_containers_total t [] (r ∷ rs) ks small cpu memory storage = absurd ks
  add_containers_total t (c ∷ cs) [] ks small cpu memory storage = absurd ks
  add_containers_total t (c ∷ cs) (r ∷ rs) (k, ks) small cpu memory storage =
      let (v, good, a) = add_container_total t c r k (omega arith) (omega arith) (omega arith) in
      let (u, rest, b) =
        add_containers_total v cs rs ks (omega (arith, a.count)) (omega (arith, a.cpu))
          (omega (arith, a.memory)) (omega (arith, a.storage)) in
      (u, rw good rest, Added-cons t v u r rs a b)
