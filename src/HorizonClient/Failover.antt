-- ===== src/HorizonClient/Failover.antt =====
-- That `withFailover` of src/stellar/horizon-client.service.ts reaches an endpoint that answers, and
-- which endpoints it leaves alone.
use native.Mathlib.Decide.{ℕ_discrete}
use native.Mathlib.Nat.{mod-lt, mod-eq_of_lt, mod-eq-sub-mod}
use step_fi_api.Common.{
  ℕ, zero, suc, ◌+◌, ◌-◌, ◌%◌, ◌<◌, ◌≤◌, ◌≡◌, ◌≢◌, ◌⊎◌, refl, sym, ap, ◌∙◌, subst, inl, inr, String,
  true, false, List, [], ◌∷◌, some, length-set, get_elem?-lt_length, get_elem?-set_ne,
  get_elem?-some, set, length, get_elem?, arith, Run, returns, Act, Bool-cases, leb,
}
use step_fi_api.HorizonClient.{
  Endpoint, CallError, Reply, answered, refused, FailoverError, World, HorizonEnv, is_cooling,
  try_again, failed_at, is_endpoint_error, has_index, after_call, visit, rounds, with_failover,
}

rotate_cases :
    (start i n : ℕ)
    → start < n
    → i < n
    → (((start + i) % n ≡ start + i) × (start + i < n)) ⊎ ((start + i) % n + n ≡ start + i)
rotate_cases start i n h k = elim (Bool-cases (leb n (start + i))) [
  | inl over ↦
      let step : n ≤ start + i = ground arith in
      let once : start + i - n < n = omega (arith, h, k) in
      let e = mod-eq-sub-mod step ∙ mod-eq_of_lt once in inr (omega (arith, e, step))
  | inr below ↦ inl (mod-eq_of_lt (ground arith), ground arith)
]

rotate-ne : (start i j n : ℕ) → start < n → i < j → j < n → (start + i) % n ≢ (start + j) % n
rotate-ne start i j n h k l =
    ground (arith, rotate_cases start i n h (omega (arith, k, l)), rotate_cases start j n h l)

reach : (start k n : ℕ) → start < n → k < n → (d : ℕ) × (d < n) × ((start + d) % n ≡ k)
reach start k n h l = elim (Bool-cases (leb start k)) [
  | inl up ↦
      let d = k - start in
      let small : d < n = ground arith in (d, small, ground (arith, rotate_cases start d n h small))
  | inr down ↦
      let d = k + n - start in
      let small : d < n = ground arith in (d, small, ground (arith, rotate_cases start d n h small))
]

module _ {S A : Type 0} (env : HorizonEnv S) (operation : String → S → Reply A × S) (k : ℕ)
    (e : Endpoint) (warm : (s : S) → is_cooling e (env.now s) ≡ false)
    (healthy : (s : S) → (a : A) × (t : S) × (operation e.url s ≡ (answered a, t)))
    (failures : (url : String) (s : S) (x : CallError) (t : S)
      → operation url s ≡ (refused x, t)
      → is_endpoint_error env x ≡ true) where
  abbrev Returns : Run (World S) FailoverError A → Type 0
  Returns r = (a : A) × (w : World S) × (r ≡ returns a w)

  -- The endpoint is still to come, in a list of `count`.
  abbrev Waits : ℕ → World S → Type 0
  Waits count w = (length w.states ≡ count) × (get_elem? w.states k ≡ some e)

  Waits-set :
      (count idx : ℕ) (v : Endpoint) (s : S) (w : World S)
      → idx ≢ k
      → Waits count w
      → Waits count (record w { states = set w.states idx v; outside = s })
  Waits-set count idx v s w ne (size, there) =
      (length-set w.states idx v ∙ size, get_elem?-set_ne w.states idx k v ne ∙ there)

  visit_healthy :
      (idx : ℕ) (next : Act (World S) FailoverError A) (w : World S)
      → Returns (visit env operation idx next (some e) w)
  visit_healthy idx next w =
      let (a, t, ans) = healthy w.outside in
      rw (warm w.outside) (
        subst
          (λ r. Returns (
            after_call env operation idx (try_again e) next r.0
              (record w { states = set w.states idx (try_again e); outside = r.1 })))
          (sym ans) (a, _, refl))

  visit_other :
      (count idx : ℕ) (next : Act (World S) FailoverError A) (e' : Endpoint) (w : World S)
      → idx ≢ k
      → ((w' : World S) → Waits count w' → Returns (next w'))
      → Waits count w
      → Returns (visit env operation idx next (some e') w)
  visit_other count idx next e' w ne later waits =
      elim (Bool-cases (is_cooling e' (env.now w.outside))) [
        | inl cooling ↦ rw cooling (later w waits)
        | inr ready ↦ rw ready (go (operation e'.url w.outside) refl)
      ]
    where
      go :
          (r : Reply A × S)
          → operation e'.url w.outside ≡ r
          → Returns (
              after_call env operation idx
                (try_again e')
                next
                r.0
                (record w { states = set w.states idx (try_again e'); outside = r.1 }))
      go (answered a, t) h = (a, _, refl)
      go (refused x, t) h = rw (failures e'.url w.outside x t h) (
          later _ (
            Waits-set count idx (failed_at (env.now t) x.message (try_again e')) t
              (record w { states = set w.states idx (try_again e'); outside = t }) ne
              (Waits-set count idx (try_again e') t w ne waits)))

  visit-Returns :
      (count idx : ℕ) (next : Act (World S) FailoverError A) (w : World S)
      → idx < count
      → (idx ≢ k → (w' : World S) → Waits count w' → Returns (next w'))
      → Waits count w
      → Returns (visit env operation idx next (get_elem? w.states idx) w)
  visit-Returns count idx next w h later (size, there) = elim (ℕ_discrete idx k) [
    | yes same ↦ rw (ap (get_elem? w.states) same ∙ there) (visit_healthy idx next w)
    | no ne ↦
        let (e', at) = get_elem?-some w.states idx (omega (arith, h, size)) in
        rw at (visit_other count idx next e' w ne (later ne) (size, there))
  ]

  -- No index of a later round has been tried.
  abbrev Untried : ℕ → ℕ → ℕ → List ℕ → Type 0
  Untried count start i tried =
      (j : ℕ) → i ≤ j → j < count → has_index ((start + j) % count) tried ≡ false

  rounds-Returns :
      (left count start i d : ℕ) (tried : List ℕ) (w : World S)
      → i + left ≡ count
      → start < count
      → i ≤ d
      → d < count
      → (start + d) % count ≡ k
      → Untried count start i tried
      → Waits count w
      → Returns (rounds env operation left count start i tried w)
  unfolding rounds
  rounds-Returns zero count start i d tried w full starts due last at untried waits =
      absurd (omega arith)
  rounds-Returns (suc left) count start i d tried w full starts due last at untried waits =
      let idx = (start + i) % count in
      let small : i < count = omega arith in
      rw (untried i (omega arith) small) (
        visit-Returns count idx (rounds env operation left count start (i + 1) (idx ∷ tried)) w
          (mod-lt (start + i) (omega arith))
          (λ ne w' waits'.
            let different : i ≢ d = λ q. ne (ap (λ j. (start + j) % count) q ∙ at) in
            rounds-Returns left count start (i + 1) d (idx ∷ tried) w' (omega arith) starts
              (omega arith) last at
              (λ j from_i below. ground (
                arith,
                rotate-ne start i j count starts (omega arith) below,
                untried j (omega arith) below,
              ))
              waits')
          waits)

  -- One endpoint is enough: let `e` be an endpoint whose breaker does not pass it over at any time,
  -- and which answers every call, and let the other endpoints fail, if they do, with errors that
  -- count as the endpoint's. Then the call is answered, whatever the other breakers and the primary
  -- endpoint are.
  pub with_failover-answered :
      (w : World S)
      → w.current_index < length w.states
      → get_elem? w.states k ≡ some e
      → (a : A) × (w' : World S) × (with_failover env operation w ≡ returns a w')
  unfolding with_failover
  with_failover-answered w primary there =
      let n = length w.states in
      let (d, small, at) =
        reach w.current_index k n primary (get_elem?-lt_length w.states k there) in
      rounds-Returns n n w.current_index 0 d [] w (omega arith) primary (omega arith) small at
        (λ j from_0 below. refl) (refl, there)
