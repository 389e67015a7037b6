-- ===== src/Scheduler/Offers.antt =====
-- What a placement asks for, and which of two offers fits it more closely
-- (podmesh-scheduler/src/machine/query.rs).
use Prim.Native.Nat.{compare as nat_compare, Ordering}
use Prim.Native.String.{compare as text_compare}
use podmesh.Prelude.{
  ℕ, ◌-◌, ◌≡◌, String, Bool, true, false, ◌&&◌, List, [], ◌∷◌, ◌==◌, Eq, nat_eq, string_eq, list_eq,
  if◌then◌else◌, ◌↔◌, arith, eq_lem,
}
use podmesh.Protocol.Capacity.{CapacityOffer}

abbrev pub EndpointId : Type 0
EndpointId = List ℕ

pub record CapacityCriteria : Type 0 where
  pub cpu_milli : ℕ
  pub memory_bytes : ℕ
  pub storage_bytes : ℕ
  pub required_capabilities : List String
  pub excluded_endpoint_ids : List EndpointId

abbrev pub criteria_test : CapacityCriteria → CapacityCriteria → Bool
criteria_test c d =
    (c.cpu_milli == d.cpu_milli)
    && (c.memory_bytes == d.memory_bytes)
    && (c.storage_bytes == d.storage_bytes)
    && (c.required_capabilities == d.required_capabilities)
    && (c.excluded_endpoint_ids == d.excluded_endpoint_ids)

pub criteria_test_lem : (c d : CapacityCriteria) → (criteria_test c d ≡ true) ↔ (c ≡ d)
criteria_test_lem c d = (
  same,
  λ h. rw h (
      ground (
        arith,
        eq_lem d.cpu_milli d.cpu_milli,
        eq_lem d.memory_bytes d.memory_bytes,
        eq_lem d.storage_bytes d.storage_bytes,
        eq_lem d.required_capabilities d.required_capabilities,
        eq_lem d.excluded_endpoint_ids d.excluded_endpoint_ids,
      )),
)
  where
    same : criteria_test c d ≡ true → c ≡ d
    same h =
        let cpu : c.cpu_milli ≡ d.cpu_milli = ground (arith, eq_lem c.cpu_milli d.cpu_milli) in
        let memory : c.memory_bytes ≡ d.memory_bytes =
          ground (arith, eq_lem c.memory_bytes d.memory_bytes) in
        let storage : c.storage_bytes ≡ d.storage_bytes =
          ground (arith, eq_lem c.storage_bytes d.storage_bytes) in
        let capabilities : c.required_capabilities ≡ d.required_capabilities =
          ground (arith, eq_lem c.required_capabilities d.required_capabilities) in
        let excluded : c.excluded_endpoint_ids ≡ d.excluded_endpoint_ids =
          ground (arith, eq_lem c.excluded_endpoint_ids d.excluded_endpoint_ids) in
        cc

instance abbrev pub criteria_eq : Eq CapacityCriteria
criteria_eq = record { test = criteria_test; test_decides = criteria_test_lem }

-- `Ord` of byte vectors
pub compare_bytes : List ℕ → List ℕ → Ordering
compare_bytes [] [] = Ordering.eq
compare_bytes [] (y ∷ ys) = Ordering.lt
compare_bytes (x ∷ xs) [] = Ordering.gt
compare_bytes (x ∷ xs) (y ∷ ys) =
    let rest = compare_bytes xs ys in
    elim (nat_compare x y) [
      | Ordering.eq ↦ rest
      | Ordering.lt ↦ Ordering.lt
      | Ordering.gt ↦ Ordering.gt
    ]

is_gt : Ordering → Bool
is_gt Ordering.gt = true
is_gt Ordering.lt = false
is_gt Ordering.eq = false

-- `sort_unstable`
module _ {A : Type 0} (compare : A → A → Ordering) where
  insert_sorted : A → List A → List A
  unfolding is_gt
  insert_sorted x [] = x ∷ []
  insert_sorted x (y ∷ ys) =
      let rest = insert_sorted x ys in if is_gt (compare x y) then y ∷ rest else x ∷ y ∷ ys

  pub sort : List A → List A
  unfolding insert_sorted
  sort [] = []
  sort (x ∷ xs) = insert_sorted x (sort xs)

unfoldable pub normalized : CapacityCriteria → CapacityCriteria
unfolding sort compare_bytes
normalized c = record c {
  required_capabilities = sort text_compare c.required_capabilities;
  excluded_endpoint_ids = sort compare_bytes c.excluded_endpoint_ids;
}

-- `Ordering::then_with`
abbrev then_with : Ordering → Ordering → Ordering
then_with Ordering.eq b = b
then_with Ordering.lt b = Ordering.lt
then_with Ordering.gt b = Ordering.gt

-- The smaller is what is left of the resources, the better the offer fits.
pub compare_offers : CapacityOffer → CapacityOffer → CapacityCriteria → Ordering
unfolding compare_bytes
compare_offers left right c =
    then_with
      (then_with
        (then_with
          (nat_compare (left.available_cpu_milli - c.cpu_milli)
            (right.available_cpu_milli - c.cpu_milli))
          (nat_compare (left.available_memory_bytes - c.memory_bytes)
            (right.available_memory_bytes - c.memory_bytes)))
        (nat_compare (left.available_storage_bytes - c.storage_bytes)
          (right.available_storage_bytes - c.storage_bytes)))
      (compare_bytes left.agent_endpoint.endpoint_id right.agent_endpoint.endpoint_id)

unfoldable pub fits_no_worse : CapacityCriteria → CapacityOffer → CapacityOffer → Bool
unfolding compare_offers is_gt
fits_no_worse c left right = if is_gt (compare_offers left right c) then false else true
