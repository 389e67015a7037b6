-- ===== src/Manifest/Measure/Whole.antt =====
-- The measure of a whole manifest, against the list of all its containers.
use podmesh.Manifest.{ManifestResources}
use podmesh.Manifest.Measure.Sums.{
  storage_of, memory_of, cpu_of, container-Fits, add_containers-Charges, add_containers_total,
  Charges, Fits,
}
use mathlib.Core.Path.{fun_ext}
use podmesh.Manifest.Measure.{
  measure, ManifestResources, add_documents, add_container, container_fields, Totals, containers,
  add_fields, add_containers, Yaml,
}
use podmesh.Prelude.{
  u64_max, u32_max, length, ◌↔◌, subst, ap, Result-cases, Option-cases, String, List, Result, ◌≡◌,
  ◌≤◌, ◌<◌, arith, inl, inr, ok, err, none, some, [], ◌∷◌, refl, ◌>>=◌, ◌++◌,
}

module _ {V : Type 0} (y : Yaml V) where
  abbrev pub field_containers : V → String → List V
  field_containers document field = elim (containers y document field) [ none ↦ [] | some cs ↦ cs ]

  abbrev pub all_containers : List V → List V
  all_containers [] = []
  all_containers (d ∷ ds) =
      (field_containers d "containers" ++ field_containers d "initContainers") ++ all_containers ds

  add_containers-append :
      (t : Totals) (xs ys : List V)
      → add_containers y t (xs ++ ys) ≡ (add_containers y t xs >>= λ u. add_containers y u ys)
  unfolding add_containers
  add_containers-append t [] ys = refl
  add_containers-append t (x ∷ xs) ys = elim (Result-cases (add_container y t x)) [
    | inl (u, good) ↦ rw (good, add_containers) (add_containers-append u xs ys)
    | inr (m, bad) ↦ rw (bad, add_containers) refl
  ]

  bind_assoc :
      (m : Result Totals) (f g : Totals → Result Totals)
      → ((m >>= f) >>= g) ≡ (m >>= λ u. f u >>= g)
  bind_assoc (ok u) f g = refl
  bind_assoc (err e) f g = refl

  bind_ok : (m : Result Totals) → (m >>= λ u. ok u) ≡ m
  bind_ok (ok u) = refl
  bind_ok (err e) = refl

  add_field_lem :
      (t : Totals) (d : V) (field : String) (fields : List String)
      → add_fields y t d (field ∷ fields)
        ≡ (add_containers y t (field_containers d field) >>= λ u. add_fields y u d fields)
  unfolding add_fields add_containers
  add_field_lem t d field fields = elim (Option-cases (containers y d field)) [
    | inl missing ↦ rw (missing, add_fields, field_containers) refl
    | inr (cs, there) ↦ rw (there, add_fields, field_containers) refl
  ]

  add_document_lem :
      (t : Totals) (d : V)
      → add_fields y t d container_fields
        ≡ add_containers y t
            (field_containers d "containers" ++ field_containers d "initContainers")
  unfolding add_fields
  add_document_lem t d = simp (add_field_lem, add_containers-append, bind_ok)

  add_documents_lem :
      (t : Totals) (ds : List V) → add_documents y t ds ≡ add_containers y t (all_containers ds)
  unfolding add_documents add_containers
  add_documents_lem t [] = refl
  add_documents_lem t (d ∷ ds) =
      let own : List V = field_containers d "containers" ++ field_containers d "initContainers" in
      rw (add_document_lem t d, add_containers-append t own (all_containers ds))
        (ap (λ (f : Totals → Result Totals). add_containers y t own >>= f)
          (fun_ext (λ u. add_documents_lem u ds)))

  -- What the containers ask for, each and together.
  pub record Measures (ds : List V) (total : ManifestResources) : Type 0 where
    pub each : List ManifestResources
    pub charges : Charges y (all_containers ds) each
    pub some_container : 0 < length each
    pub cpu : total.cpu_milli ≡ cpu_of each
    pub memory : total.memory_bytes ≡ memory_of each
    pub storage : total.storage_bytes ≡ storage_of each
    pub cpu_fits : cpu_of each ≤ u32_max
    pub memory_fits : memory_of each ≤ u64_max
    pub storage_fits : storage_of each ≤ u64_max

  abbrev start : Totals
  start = record { cpu_milli = 0; memory_bytes = 0; storage_bytes = 0; container_count = 0 }

  total-Fits : (t u : Totals) (cs : List V) → Fits t → add_containers y t cs ≡ ok u → Fits u
  unfolding add_containers
  total-Fits t u [] h e = let same : t ≡ u = ground arith in subst Fits same h
  total-Fits t u (c ∷ cs) h e = elim (Result-cases (add_container y t c)) [
    | inr (m, bad) ↦ absurd (ground arith)
    | inl (v, good) ↦ total-Fits v u cs (container-Fits y t v c good) (ground arith)
  ]

  only-Measures :
      (ds : List V) (total : ManifestResources) → measure y ds ≡ ok total → Measures ds total
  unfolding measure
  only-Measures ds total e = elim (Result-cases (add_containers y start (all_containers ds))) [
    | inr (m, bad) ↦ absurd (ground (arith, add_documents_lem start ds))
    | inl (u, good) ↦
        let (each, charges, a) =
          add_containers-Charges y start u (all_containers ds) good (omega arith) in
        let fits : Fits u = total-Fits start u (all_containers ds) (omega arith) good in
        record {
          each = each;
          charges = charges;
          some_container = ground (arith, add_documents_lem start ds, a.count);
          cpu = ground (arith, add_documents_lem start ds, a.cpu);
          memory = ground (arith, add_documents_lem start ds, a.memory);
          storage = ground (arith, add_documents_lem start ds, a.storage);
          cpu_fits = ground (arith, add_documents_lem start ds, a.cpu);
          memory_fits = omega (arith, a.memory);
          storage_fits = omega (arith, a.storage);
        }
  ]

  all-Measures :
      (ds : List V) (total : ManifestResources) → Measures ds total → measure y ds ≡ ok total
  unfolding measure
  all-Measures ds total h =
      let (u, good, a) =
        add_containers_total y start (all_containers ds) h.each h.charges (omega arith)
          (omega (arith, h.cpu_fits)) (omega (arith, h.memory_fits))
          (omega (arith, h.storage_fits)) in
      ground (
        arith,
        add_documents_lem start ds,
        good,
        a.count,
        a.cpu,
        a.memory,
        a.storage,
        h.cpu,
        h.memory,
        h.storage,
        h.cpu_fits,
        h.some_container,
      )

-- A manifest is measured as `total` exactly when it has a container, regular or initial, in one of
-- its documents, every container has its three limits as texts that are read, `total` is the sum of
-- all of them, and the sums fit their integers; then no addition on the way overflows.
pub measure-Measures :
    {V : Type 0} (y : Yaml V) (ds : List V) (total : ManifestResources)
    → (measure y ds ≡ ok total) ↔ Measures y ds total
measure-Measures y ds total = (only-Measures y ds total, all-Measures y ds total)
