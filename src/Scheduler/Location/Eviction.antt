-- ===== src/Scheduler/Location/Eviction.antt =====
-- What the cache keeps, and what a forgotten agent's old place in the queue does to it.
use podmesh.Prelude.{
  ℕ, ◌≤◌, ◌≡◌, refl, sym, ap, ◌∙◌, true, false, String, Option, none, List, [], ◌∷◌, ◌++◌, eq_lem,
  nat_eq, string_eq, list_eq, ltb, length, elem, arith, Bool-cases, inl, inr, length-append,
  elem-append,
}
use podmesh.Map.{Map, get, contains_key, insert, remove}
use podmesh.Map.Laws.{get-insert, get-remove}
use podmesh.Scheduler.Offers.{EndpointId}
use podmesh.Scheduler.Location.{
  CachedLocation, LocationState, trim, queue, remember, forget, cached,
}

-- The queue is within its bound, and every cached agent is queued, so that it can be evicted.
pub record IsBounded (limit : ℕ) (s : LocationState) : Type 0 where
  pub bounded : length s.order ≤ limit
  pub queued : (agent : EndpointId) → contains_key s.cache agent ≡ true → elem agent s.order ≡ true

trim-IsBounded :
    (limit : ℕ) (pending : Map String (Option EndpointId)) (cache : Map EndpointId CachedLocation)
    (order : List EndpointId)
    → ((agent : EndpointId) → contains_key cache agent ≡ true → elem agent order ≡ true)
    → IsBounded limit (trim limit pending cache order)
unfolding trim
trim-IsBounded limit pending cache [] q = record { bounded = omega arith; queued = q }
trim-IsBounded limit pending cache (x ∷ xs) q = elim (Bool-cases (ltb limit (length (x ∷ xs)))) [
  | inl over ↦ rw over (
      trim-IsBounded limit pending (remove cache x) xs
        (λ agent there. ground (arith, q agent, get-remove cache x agent, eq_lem x agent)))
  | inr fits ↦ rw fits (record { bounded = ground arith; queued = q })
]

-- Where the queue is within its bound and holds every cached agent, it is so after a location is
-- remembered.
pub remember-IsBounded :
    (limit now : ℕ) (agent holder : EndpointId) (s : LocationState)
    → IsBounded limit s
    → IsBounded limit (remember limit now agent holder s)
unfolding remember queue
remember-IsBounded limit now agent holder s h =
    trim-IsBounded limit s.pending
      (insert s.cache agent (record { holder = holder; learned_at = now })) (queue agent s)
      (λ other there. ground (
        arith,
        h.queued other,
        h.queued agent,
        get-insert s.cache agent other (record { holder = holder; learned_at = now }),
        eq_lem agent other,
        elem-append other s.order (agent ∷ []),
      ))

trim_fits :
    (limit : ℕ) (pending : Map String (Option EndpointId)) (cache : Map EndpointId CachedLocation)
    (xs : List EndpointId)
    → length xs ≤ limit
    → (trim limit pending cache xs).cache ≡ cache
unfolding trim
trim_fits limit pending cache [] h = refl
trim_fits limit pending cache (x ∷ xs) h = ground arith

-- The oldest agent of a queue that is one too long is dropped.
oldest_dropped :
    (limit : ℕ) (pending : Map String (Option EndpointId)) (cache : Map EndpointId CachedLocation)
    (agent : EndpointId) (rest : List EndpointId)
    → length (agent ∷ rest) ≡ limit
    → get (trim limit pending cache (agent ∷ (rest ++ agent ∷ []))).cache agent ≡ none
unfolding trim
oldest_dropped limit pending cache agent rest full =
    let longer : length (rest ++ agent ∷ []) ≡ limit =
      omega (arith, full, length-append rest (agent ∷ [])) in
    ground (
      arith,
      longer,
      trim_fits limit pending (remove cache agent) (rest ++ agent ∷ []) (omega (arith, longer)),
      get-remove cache agent agent,
      eq_lem agent agent,
    )

-- When the queue is full and an agent is its oldest, forgetting the agent and remembering a new
-- location for it leaves it with no cached location: the old place in the queue, which forgetting
-- leaves there, evicts the new entry.
pub remembered_nothing :
    (limit now : ℕ) (agent holder : EndpointId) (rest : List EndpointId) (s : LocationState)
    → s.order ≡ agent ∷ rest
    → length s.order ≡ limit
    → cached now agent (remember limit now agent holder (forget agent s)) ≡ none
unfolding remember forget queue cached
remembered_nothing limit now agent holder rest s first full =
    let absent : contains_key (remove s.cache agent) agent ≡ false =
      ground (arith, get-remove s.cache agent agent, eq_lem agent agent) in
    let long : length (agent ∷ rest) ≡ limit = ap length (sym first) ∙ full in
    let dropped : get
          (trim limit s.pending
            (insert (remove s.cache agent) agent (record { holder = holder; learned_at = now }))
            (agent ∷ (rest ++ agent ∷ []))).cache
          agent
        ≡ none =
      oldest_dropped limit s.pending
        (insert (remove s.cache agent) agent (record { holder = holder; learned_at = now })) agent
        rest long in
    rw (absent, first, dropped) refl
