-- ===== src/HorizonClient.antt =====
-- src/stellar/horizon-client.service.ts: the calls of Horizon over several endpoints, with a circuit
-- breaker for each. The constructor's reading of the configuration is left out: the list of urls is
-- an argument of `on_module_init`. The calls are modelled one after the other.
pub mod Breakers
pub mod Calls
pub mod Failover
mod Tests
use step_fi_api.Common.{
  ℕ, zero, suc, ◌+◌, ◌%◌, ◌==◌, String, Bool, true, false, not, ◌&&◌, ◌||◌, List, [], ◌∷◌, Option,
  none, some, ltb, leb, if◌then◌else◌, length, map, set, get_elem?, Run, Act, returns, throws,
}
use step_fi_api.Checker.Horizon.{includes}

-- `opened` is the status 'open'.
pub data CircuitStatus : Type 0 where
  closed opened half_open : CircuitStatus

pub record Endpoint : Type 0 where
  pub url : String
  pub status : CircuitStatus
  pub failure_count : ℕ
  pub last_failure : Option String
  pub cooldown_until : Option ℕ

-- What `isEndpointError` reads of an error; a missing message is read as empty.
pub record CallError : Type 0 where
  pub is_network : Bool
  pub has_result_codes : Bool
  pub http_status : Option ℕ
  pub message : String

pub data Reply (A : Type 0) : Type 0 where
  answered : A → Reply A
  refused : CallError → Reply A

-- What `withFailover` throws; `no_state` where the module has not been initialised.
pub data FailoverError : Type 0 where
  call_error : CallError → FailoverError
  unavailable no_state : FailoverError

-- The service's fields, and the world outside.
pub record World (S : Type 0) : Type 0 where
  pub states : List Endpoint
  pub current_index : ℕ
  pub outside : S

pub record HorizonEnv (S : Type 0) : Type 0 where
  -- milliseconds
  pub now : S → ℕ
  pub lower : String → String

abbrev pub max_failures : ℕ
max_failures = 3

abbrev pub cooldown_ms : ℕ
cooldown_ms = 30_000

abbrev pub fresh_endpoint : String → Endpoint
fresh_endpoint url = record {
  url = url;
  status = closed;
  failure_count = 0;
  last_failure = none;
  cooldown_until = none;
}

unfoldable pub on_module_init : {S : Type 0} → List String → S → World S
on_module_init urls s = record { states = map fresh_endpoint urls; current_index = 0; outside = s }

abbrev pub is_opened : CircuitStatus → Bool
is_opened opened = true
is_opened closed = false
is_opened half_open = false

abbrev pub is_before : ℕ → Option ℕ → Bool
is_before now none = false
is_before now (some until) = ltb now until

-- An endpoint that `withFailover` passes over.
abbrev pub is_cooling : Endpoint → ℕ → Bool
is_cooling e now = is_opened e.status && is_before now e.cooldown_until

-- The status before the call.
abbrev pub try_again : Endpoint → Endpoint
try_again e = if is_opened e.status then record e { status = half_open } else e

abbrev pub succeeded : Endpoint → Endpoint
succeeded e = record e {
  status = closed;
  failure_count = 0;
  last_failure = none;
  cooldown_until = none;
}

unfoldable pub failed_at : ℕ → String → Endpoint → Endpoint
failed_at now message e =
    let counted = record e { failure_count = e.failure_count + 1; last_failure = some message } in
    if leb max_failures counted.failure_count
    then record counted { status = opened; cooldown_until = some (now + cooldown_ms) }
    else counted

abbrev pub is_client_error : Option ℕ → Bool
is_client_error none = false
is_client_error (some n) = leb 400 n && ltb n 500 && not (n == 429)

abbrev pub is_retry_status : Option ℕ → Bool
is_retry_status none = false
is_retry_status (some n) = n == 429 || leb 500 n

abbrev pub network_words : String → Bool
network_words message =
    includes message "timeout"
    || includes message "econnrefused"
    || includes message "econnreset"
    || includes message "network"
    || includes message "socket"
    || includes message "fetch"
    || includes message "dns"
    || includes message "enotfound"
    || includes message "eai_again"

abbrev pub is_not_found : Option ℕ → Bool
is_not_found none = false
is_not_found (some n) = n == 404

-- `tried.has(idx)`
abbrev pub has_index : ℕ → List ℕ → Bool
has_index i [] = false
has_index i (j ∷ js) = i == j || has_index i js

module _ {S : Type 0} (env : HorizonEnv S) where
  unfoldable pub is_endpoint_error : CallError → Bool
  is_endpoint_error e =
      if e.is_network
      then true
      else if e.has_result_codes
      then false
      else if is_not_found e.http_status
      then false
      else if is_client_error e.http_status
      then false
      else if is_retry_status e.http_status
      then true
      else network_words (env.lower e.message)

  module _ {A : Type 0} (operation : String → S → Reply A × S) where
    -- What the reply of endpoint `idx` does; `next` goes on with the loop.
    abbrev pub after_call :
        ℕ → Endpoint → Act (World S) FailoverError A → Reply A → Act (World S) FailoverError A
    after_call idx e next (answered a) w =
        returns a (record w { states = set w.states idx (succeeded e); current_index = idx })
    after_call idx e next (refused x) w =
        if is_endpoint_error x
        then next
            (record w { states = set w.states idx (failed_at (env.now w.outside) x.message e) })
        else throws (call_error x) w

    abbrev pub call_endpoint :
        ℕ → Endpoint → Act (World S) FailoverError A → Act (World S) FailoverError A
    call_endpoint idx e next w =
        let (reply, s) = operation e.url w.outside in
        after_call idx (try_again e) next reply
          (record w { states = set w.states idx (try_again e); outside = s })

    -- One round of the loop, at the state that `states[idx]` gives.
    abbrev pub visit :
        ℕ → Act (World S) FailoverError A → Option Endpoint → Act (World S) FailoverError A
    visit idx next none w = throws no_state w
    visit idx next (some e) w =
        if is_cooling e (env.now w.outside) then next w else call_endpoint idx e next w

    -- The rounds that are left, from `i` on, over `count` endpoints.
    unfoldable pub rounds :
        (left : ℕ) → (count start i : ℕ) → List ℕ → Act (World S) FailoverError A
    rounds zero count start i tried w = throws unavailable w
    rounds (suc left) count start i tried w =
        let idx = (start + i) % count in
        let next = rounds left count start (i + 1) in
        if has_index idx tried
        then next tried w
        else visit idx (next (idx ∷ tried)) (get_elem? w.states idx) w

    -- `endpoints` has the length of `states` from `onModuleInit` on.
    unfoldable pub with_failover : Act (World S) FailoverError A
    unfolding rounds
    with_failover w = rounds (length w.states) (length w.states) w.current_index 0 [] w
