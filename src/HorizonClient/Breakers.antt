-- ===== src/HorizonClient/Breakers.antt =====
-- What the circuit breakers of src/stellar/horizon-client.service.ts keep.
use step_fi_api.Common.{
  ℕ, zero, suc, ◌+◌, ◌%◌, ◌<◌, ◌≤◌, ◌≡◌, refl, ap, ◌∙◌, inl, inr, String, false, List, [], ◌∷◌,
  Option, none, some, All, All-set, All-get_elem?, length-set, get_elem?-lt_length,
  get_elem?-set_self, map, set, length, get_elem?, arith, Act, final, Bool-cases, leb,
}
use step_fi_api.HorizonClient.{
  CircuitStatus, closed, opened, half_open, Endpoint, Reply, answered, refused, FailoverError,
  World, HorizonEnv, fresh_endpoint, on_module_init, is_opened, is_cooling, try_again, succeeded,
  failed_at, is_endpoint_error, has_index, after_call, call_endpoint, visit, rounds, with_failover,
}

-- A closed breaker has counted fewer than three failures in a row and has no cooldown; any other has
-- counted three at least and has one.
abbrev pub Sound : CircuitStatus → Endpoint → Type 0
Sound closed e = (e.failure_count < 3) × (e.cooldown_until ≡ none)
Sound opened e = (3 ≤ e.failure_count) × ((c : ℕ) × (e.cooldown_until ≡ some c))
Sound half_open e = (3 ≤ e.failure_count) × ((c : ℕ) × (e.cooldown_until ≡ some c))

abbrev pub IsSound : Endpoint → Type 0
IsSound e = Sound e.status e

pub record IsWellFormed {S : Type 0} (urls : List String) (w : World S) : Type 0 where
  pub same_urls : map (λ e. e.url) w.states ≡ urls
  pub sound : All IsSound w.states
  pub primary : w.current_index < length w.states

fresh-All : (urls : List String) → All IsSound (map fresh_endpoint urls)
fresh-All [] = tt
fresh-All (u ∷ us) = ((omega arith, refl), fresh-All us)

fresh-urls : (urls : List String) → map (λ e. e.url) (map fresh_endpoint urls) ≡ urls
fresh-urls [] = refl
fresh-urls (u ∷ us) = ap (λ l. u ∷ l) (fresh-urls us)

length-fresh : (urls : List String) → length (map fresh_endpoint urls) ≡ length urls
length-fresh [] = refl
length-fresh (u ∷ us) = ap suc (length-fresh us)

pub on_module_init-IsWellFormed :
    {S : Type 0} (urls : List String) (s : S)
    → 0 < length urls
    → IsWellFormed urls (on_module_init urls s)
unfolding on_module_init
on_module_init-IsWellFormed urls s h = record {
  same_urls = fresh-urls urls;
  sound = fresh-All urls;
  primary = omega (arith, h, length-fresh urls);
}

try_again-IsSound : (e : Endpoint) → IsSound e → IsSound (try_again e)
try_again-IsSound e h = go e.status refl h
  where
    go : (st : CircuitStatus) → e.status ≡ st → Sound st e → IsSound (try_again e)
    go closed q h' = ground arith
    go half_open q h' = ground arith
    go opened q h' = ground arith

failed_at-IsSound :
    (now : ℕ) (message : String) (e : Endpoint)
    → is_opened e.status ≡ false
    → IsSound e
    → IsSound (failed_at now message e)
unfolding failed_at
failed_at-IsSound now message e o h = elim (Bool-cases (leb 3 (e.failure_count + 1))) [
  | inl tripped ↦ rw tripped (ground arith, (now + 30_000, refl))
  | inr few ↦ rw few (go e.status refl few h)
]
  where
    go :
        (st : CircuitStatus)
        → e.status ≡ st
        → leb 3 (e.failure_count + 1) ≡ false
        → Sound st e
        → Sound e.status
            (record e { failure_count = e.failure_count + 1; last_failure = some message })
    go closed q few h' = rw q (ground arith, h'.1)
    go half_open q few h' = absurd (ground arith)
    go opened q few h' = cc

map-set :
    (xs : List Endpoint) (i : ℕ) {e : Endpoint} (v : Endpoint)
    → get_elem? xs i ≡ some e
    → v.url ≡ e.url
    → map (λ x. x.url) (set xs i v) ≡ map (λ x. x.url) xs
map-set [] i v h q = refl
map-set (x ∷ xs) zero v h q = ground arith
map-set (x ∷ xs) (suc i) v h q = ap (λ l. x.url ∷ l) (map-set xs i v h q)

pub failed_at_url :
    (now : ℕ) (message : String) (e : Endpoint) → (failed_at now message e).url ≡ e.url
unfolding failed_at
failed_at_url now message e = ground arith

pub try_again_url : (e : Endpoint) → (try_again e).url ≡ e.url
try_again_url e = ground arith

try_again_not_opened : (e : Endpoint) → is_opened (try_again e).status ≡ false
try_again_not_opened e = ground arith

-- A write of one endpoint with its own url and a sound breaker.
set-IsWellFormed :
    {S : Type 0} (urls : List String) (w : World S) (idx : ℕ) {e : Endpoint} (v : Endpoint) (s : S)
    → IsWellFormed urls w
    → get_elem? w.states idx ≡ some e
    → v.url ≡ e.url
    → IsSound v
    → IsWellFormed urls (record w { states = set w.states idx v; outside = s })
set-IsWellFormed urls w idx v s wf at q sound = record {
  same_urls = map-set w.states idx v at q ∙ wf.same_urls;
  sound = All-set IsSound w.states idx v wf.sound sound;
  primary = omega (arith, wf.primary, length-set w.states idx v);
}

module _ {S A : Type 0} (env : HorizonEnv S) (operation : String → S → Reply A × S)
    (urls : List String) where
  abbrev Keeps : Act (World S) FailoverError A → Type 0
  Keeps m = (w : World S) → IsWellFormed urls w → IsWellFormed urls (final (m w))

  after_call-Keeps :
      (idx : ℕ) (e : Endpoint) (next : Act (World S) FailoverError A) (reply : Reply A)
      (w : World S)
      → Keeps next
      → IsWellFormed urls w
      → get_elem? w.states idx ≡ some e
      → is_opened e.status ≡ false
      → IsWellFormed urls (final (after_call env operation idx e next reply w))
  after_call-Keeps idx e next (answered a) w later wf at o =
      let wf' =
        set-IsWellFormed urls w idx (succeeded e) w.outside wf at refl (omega arith, refl) in
      record {
        same_urls = wf'.same_urls;
        sound = wf'.sound;
        primary =
            omega
              (arith, get_elem?-lt_length w.states idx at, length-set w.states idx (succeeded e));
      }
  after_call-Keeps idx e next (refused x) w later wf at o =
      elim (Bool-cases (is_endpoint_error env x)) [
        | inl endpoint ↦ rw endpoint (
            later _ (
              set-IsWellFormed urls w idx (failed_at (env.now w.outside) x.message e) w.outside wf
                at (failed_at_url (env.now w.outside) x.message e)
                (failed_at-IsSound (env.now w.outside) x.message e o
                  (All-get_elem? IsSound w.states idx wf.sound at))))
        | inr other ↦ rw other wf
      ]

  call_endpoint-Keeps :
      (idx : ℕ) (e : Endpoint) (next : Act (World S) FailoverError A) (w : World S)
      → Keeps next
      → IsWellFormed urls w
      → get_elem? w.states idx ≡ some e
      → IsWellFormed urls (final (call_endpoint env operation idx e next w))
  call_endpoint-Keeps idx e next w later wf at =
      let (reply, s) = operation e.url w.outside in
      after_call-Keeps idx (try_again e) next reply
        (record w { states = set w.states idx (try_again e); outside = s }) later
        (set-IsWellFormed urls w idx (try_again e) s wf at (try_again_url e)
          (try_again-IsSound e (All-get_elem? IsSound w.states idx wf.sound at)))
        (get_elem?-set_self w.states idx (try_again e) (get_elem?-lt_length w.states idx at))
        (try_again_not_opened e)

  visit-Keeps :
      (idx : ℕ) (next : Act (World S) FailoverError A) (o : Option Endpoint) (w : World S)
      → Keeps next
      → IsWellFormed urls w
      → get_elem? w.states idx ≡ o
      → IsWellFormed urls (final (visit env operation idx next o w))
  visit-Keeps idx next none w later wf at = wf
  visit-Keeps idx next (some e) w later wf at =
      elim (Bool-cases (is_cooling e (env.now w.outside))) [
        | inl cooling ↦ rw cooling (later w wf)
        | inr warm ↦ rw warm (call_endpoint-Keeps idx e next w later wf at)
      ]

  rounds-Keeps :
      (left count start i : ℕ) (tried : List ℕ)
      → Keeps (rounds env operation left count start i tried)
  unfolding rounds
  rounds-Keeps zero count start i tried w wf = wf
  rounds-Keeps (suc left) count start i tried w wf =
      let idx = (start + i) % count in
      elim (Bool-cases (has_index idx tried)) [
        | inl again ↦ rw again (rounds-Keeps left count start (i + 1) tried w wf)
        | inr new ↦ rw new (
            visit-Keeps idx (rounds env operation left count start (i + 1) (idx ∷ tried))
              (get_elem? w.states idx) w (rounds-Keeps left count start (i + 1) (idx ∷ tried)) wf
              refl)
      ]

  -- However a call ends, the endpoints keep their urls and their order, the primary endpoint is one
  -- of them, a closed breaker has counted fewer than three failures in a row and has no cooldown,
  -- and any other has counted at least three and has one.
  pub with_failover-IsWellFormed :
      (w : World S)
      → IsWellFormed urls w
      → IsWellFormed urls (final (with_failover env operation w))
  unfolding with_failover
  with_failover-IsWellFormed w wf =
      rounds-Keeps (length w.states) (length w.states) w.current_index 0 [] w wf
