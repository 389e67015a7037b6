-- ===== src/Scheduler/Location/Tests.antt =====
-- The theorems on the location registry at small registries.
use podmesh.Prelude.{◌≡◌, refl, none, [], ◌∷◌, arith, nat_eq, list_eq, ap, length}
use podmesh.Map.{get, insert, remove}
use podmesh.Scheduler.Location.{LocationState, remember, forget, cached}
use podmesh.Scheduler.Location.Eviction.{IsBounded, remember-IsBounded, remembered_nothing}

abbrev empty_registry : LocationState
empty_registry = record { cache = []; order = []; pending = [] }

-- Room for two agents, both cached.
abbrev full_registry : LocationState
full_registry = remember 2 20 (2 ∷ []) (9 ∷ []) (remember 2 10 (1 ∷ []) (8 ∷ []) empty_registry)

empty_registry-IsBounded : IsBounded 2 empty_registry
unfolding get
empty_registry-IsBounded = record {
  bounded = omega arith;
  queued = λ agent there. absurd (ground arith);
}

remember-IsBounded_example : IsBounded 2 (remember 2 10 (1 ∷ []) (8 ∷ []) empty_registry)
remember-IsBounded_example =
    remember-IsBounded 2 10 (1 ∷ []) (8 ∷ []) empty_registry empty_registry-IsBounded

first_oldest : full_registry.order ≡ (1 ∷ []) ∷ (2 ∷ []) ∷ []
unfolding remember get insert remove
first_oldest = refl

remembered_nothing_example :
    cached 31 (1 ∷ []) (remember 2 31 (1 ∷ []) (7 ∷ []) (forget (1 ∷ []) full_registry)) ≡ none
remembered_nothing_example =
    remembered_nothing 2 31 (1 ∷ []) (7 ∷ []) ((2 ∷ []) ∷ []) full_registry first_oldest
      (ap length first_oldest)
