-- ===== src/HorizonClient/Calls.antt =====
-- Which endpoints a call of src/stellar/horizon-client.service.ts asks, and which it leaves alone.
use step_fi_api.Common.{
  ℕ, zero, suc, ◌+◌, ◌%◌, ◌≡◌, ◌≢◌, refl, sym, ap, ◌∙◌, inl, inr, String, true, List, [], ◌∷◌,
  Option, none, some, All, All-set, All-get_elem?, get_elem?-lt_length, get_elem?-set_self,
  length-set, set, length, get_elem?, arith, Run, returns, Act, final, Ends, Ends-returns,
  Bool-cases,
}
use step_fi_api.HorizonClient.{
  closed, Endpoint, Reply, answered, refused, FailoverError, World, HorizonEnv, is_cooling,
  try_again, succeeded, failed_at, is_endpoint_error, has_index, after_call, call_endpoint, visit,
  rounds, with_failover,
}
use step_fi_api.HorizonClient.Breakers.{failed_at_url, try_again_url}

module _ {S A : Type 0} (env : HorizonEnv S) (operation : String → S → Reply A × S) where
  -- The primary endpoint has answered last, and its breaker is closed with no failure.
  abbrev pub Answered : A → World S → Type 0
  Answered a w =
      (e : Endpoint) × (get_elem? w.states w.current_index ≡ some e)
      × (e.status ≡ closed)
      × (e.failure_count ≡ 0)
      × ((s : S) × (operation e.url s ≡ (answered a, w.outside)))

  abbrev Right : Run (World S) FailoverError A → Type 0
  Right r = Ends Answered (λ _ _. Unit {0}) r

  call_endpoint-Right :
      (idx : ℕ) (e : Endpoint) (next : Act (World S) FailoverError A) (w : World S)
      → ((w' : World S) → Right (next w'))
      → get_elem? w.states idx ≡ some e
      → Right (call_endpoint env operation idx e next w)
  call_endpoint-Right idx e next w later at = go (operation e.url w.outside) refl
    where
      go :
          (r : Reply A × S)
          → operation e.url w.outside ≡ r
          → Right (
              after_call env operation idx
                (try_again e)
                next
                r.0
                (record w { states = set w.states idx (try_again e); outside = r.1 }))
      go (answered a, t) h = (
        succeeded (try_again e),
        get_elem?-set_self (set w.states idx (try_again e)) idx (succeeded (try_again e)) (
            omega
              (arith, length-set w.states idx (try_again e), get_elem?-lt_length w.states idx at)),
        refl,
        refl,
        (w.outside, ap (λ u. operation u w.outside) (try_again_url e) ∙ h),
      )
      go (refused x, t) h = elim (Bool-cases (is_endpoint_error env x)) [
        | inl endpoint ↦ rw endpoint (later _)
        | inr other ↦ rw other tt
      ]

  visit-Right :
      (idx : ℕ) (next : Act (World S) FailoverError A) (o : Option Endpoint) (w : World S)
      → ((w' : World S) → Right (next w'))
      → get_elem? w.states idx ≡ o
      → Right (visit env operation idx next o w)
  visit-Right idx next none w later at = tt
  visit-Right idx next (some e) w later at = elim (Bool-cases (is_cooling e (env.now w.outside))) [
    | inl cooling ↦ rw cooling (later w)
    | inr warm ↦ rw warm (call_endpoint-Right idx e next w later at)
  ]

  rounds-Right :
      (left count start i : ℕ) (tried : List ℕ) (w : World S)
      → Right (rounds env operation left count start i tried w)
  unfolding rounds
  rounds-Right zero count start i tried w = tt
  rounds-Right (suc left) count start i tried w =
      let idx = (start + i) % count in
      elim (Bool-cases (has_index idx tried)) [
        | inl again ↦ rw again (rounds-Right left count start (i + 1) tried w)
        | inr new ↦ rw new (
            visit-Right idx (rounds env operation left count start (i + 1) (idx ∷ tried))
              (get_elem? w.states idx) w (rounds-Right left count start (i + 1) (idx ∷ tried)) refl)
      ]

  -- An answer is the answer of one endpoint to the last call that was made. This endpoint is the
  -- primary one from then on, and its breaker is closed and has counted no failure.
  pub with_failover-Answered :
      (w w' : World S) (a : A) → with_failover env operation w ≡ returns a w' → Answered a w'
  unfolding with_failover
  with_failover-Answered w w' a h =
      Ends-returns Answered (λ _ _. Unit {0}) h
        (rounds-Right (length w.states) (length w.states) w.current_index 0 [] w)

  module _ (url : String) (P : S → Type 0)
      (keeps : (other : String) (s : S) → other ≢ url → P s → P (operation other s).1) where
    -- The endpoints with the url are passed over as long as `P` holds.
    abbrev pub Cooling : Endpoint → Type 0
    Cooling e = e.url ≡ url → (s : S) → P s → is_cooling e (env.now s) ≡ true

    abbrev Kept : Run (World S) FailoverError A → Type 0
    Kept r = P (final r).outside

    call_endpoint-Kept :
        (idx : ℕ) (e : Endpoint) (next : Act (World S) FailoverError A) (w : World S)
        → ((w' : World S) → All Cooling w'.states → P w'.outside → Kept (next w'))
        → All Cooling w.states
        → P w.outside
        → e.url ≢ url
        → Kept (call_endpoint env operation idx e next w)
    call_endpoint-Kept idx e next w later all p ne =
        go (operation e.url w.outside) (keeps e.url w.outside ne p)
      where
        go :
            (r : Reply A × S)
            → P r.1
            → Kept (
                after_call env operation idx
                  (try_again e)
                  next
                  r.0
                  (record w { states = set w.states idx (try_again e); outside = r.1 }))
        go (answered a, t) q = q
        go (refused x, t) q = elim (Bool-cases (is_endpoint_error env x)) [
          | inl endpoint ↦
              let failed = failed_at (env.now t) x.message (try_again e) in
              rw endpoint (
                later _
                  (All-set Cooling _ idx failed
                    (All-set Cooling w.states idx (try_again e) all
                      (λ same. absurd (ne (sym (try_again_url e) ∙ same))))
                    (λ same. absurd (
                      ne (
                        sym (failed_at_url (env.now t) x.message (try_again e) ∙ try_again_url e)
                        ∙ same))))
                  q)
          | inr other ↦ rw other q
        ]

    visit-Kept :
        (idx : ℕ) (next : Act (World S) FailoverError A) (o : Option Endpoint) (w : World S)
        → ((w' : World S) → All Cooling w'.states → P w'.outside → Kept (next w'))
        → All Cooling w.states
        → P w.outside
        → get_elem? w.states idx ≡ o
        → Kept (visit env operation idx next o w)
    visit-Kept idx next none w later all p at = p
    visit-Kept idx next (some e) w later all p at =
        elim (Bool-cases (is_cooling e (env.now w.outside))) [
          | inl cooling ↦ rw cooling (later w all p)
          | inr warm ↦ rw warm (
              call_endpoint-Kept idx e next w later all p (λ same.
                let cold = All-get_elem? Cooling w.states idx all at same w.outside p in
                cc (sym warm ∙ cold)))
        ]

    rounds-Kept :
        (left count start i : ℕ) (tried : List ℕ) (w : World S)
        → All Cooling w.states
        → P w.outside
        → Kept (rounds env operation left count start i tried w)
    unfolding rounds
    rounds-Kept zero count start i tried w all p = p
    rounds-Kept (suc left) count start i tried w all p =
        let idx = (start + i) % count in
        elim (Bool-cases (has_index idx tried)) [
          | inl again ↦ rw again (rounds-Kept left count start (i + 1) tried w all p)
          | inr new ↦ rw new (
              visit-Kept idx (rounds env operation left count start (i + 1) (idx ∷ tried))
                (get_elem? w.states idx) w (rounds-Kept left count start (i + 1) (idx ∷ tried)) all
                p refl)
        ]

    -- An endpoint whose breaker is open and cooling down is not asked: whatever the calls of the other
    -- urls keep, and while it holds the endpoints with this url are cooling, still holds at the end.
    pub with_failover_frame :
        (w : World S)
        → All Cooling w.states
        → P w.outside
        → P (final (with_failover env operation w)).outside
    unfolding with_failover
    with_failover_frame w all p =
        rounds-Kept (length w.states) (length w.states) w.current_index 0 [] w all p
