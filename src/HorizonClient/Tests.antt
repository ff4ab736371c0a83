-- ===== src/HorizonClient/Tests.antt =====
-- Runs of the Horizon client on two endpoints, of which one always fails.
use step_fi_api.Common.{
  ℕ, ◌+◌, ◌≡◌, refl, String, true, false, List, [], ◌∷◌, none, some, str_eq, eq_iff, if◌then◌else◌,
  arith, returns, final,
}
use step_fi_api.HorizonClient.{
  Endpoint, closed, opened, Reply, answered, refused, CallError, World, HorizonEnv, fresh_endpoint,
  on_module_init, is_endpoint_error, with_failover, failed_at,
}
use step_fi_api.HorizonClient.Breakers.{
  IsWellFormed, on_module_init-IsWellFormed, with_failover-IsWellFormed,
}
use step_fi_api.HorizonClient.Failover.{with_failover-answered}
use step_fi_api.HorizonClient.Calls.{with_failover_frame}

abbrev urls : List String
urls = "down" ∷ "up" ∷ []

abbrev env : HorizonEnv ℕ
env = record { now = λ s. s; lower = λ m. m }

abbrev timeout : CallError
timeout = record { is_network = true; has_result_codes = false; http_status = none; message = "" }

-- The state counts the calls of "down".
abbrev operation : String → ℕ → Reply ℕ × ℕ
operation url s = if str_eq url "down" then (refused timeout, s + 1) else (answered 7, s)

abbrev start : World ℕ
start = on_module_init urls 0

abbrev failed_once : Endpoint
failed_once = record {
  url = "down";
  status = closed;
  failure_count = 1;
  last_failure = some "";
  cooldown_until = none;
}

abbrev after : World ℕ
after = record { states = failed_once ∷ fresh_endpoint "up" ∷ []; current_index = 1; outside = 1 }

first_call : with_failover env operation start ≡ returns 7 after
unfolding with_failover is_endpoint_error failed_at on_module_init
first_call = refl

with_failover-answered_example :
    (a : ℕ) × (w : World ℕ) × (with_failover env operation start ≡ returns a w)
unfolding is_endpoint_error on_module_init
with_failover-answered_example =
    with_failover-answered env operation 1 (fresh_endpoint "up") (λ s. refl) (λ s. (7, s, refl))
      (λ url s x t h. ground arith) start (omega arith) refl

with_failover-IsWellFormed_example : IsWellFormed urls (final (with_failover env operation start))
with_failover-IsWellFormed_example =
    with_failover-IsWellFormed env operation urls start
      (on_module_init-IsWellFormed urls 0 (omega arith))

abbrev tripped : World ℕ
tripped = record start {
  states =
      record failed_once { status = opened; failure_count = 3; cooldown_until = some 30_000 }
      ∷ fresh_endpoint "up"
      ∷ [];
}

with_failover_frame_example : (final (with_failover env operation tripped)).outside ≡ 0
unfolding on_module_init
with_failover_frame_example =
    with_failover_frame env operation "down" (λ s. s ≡ 0)
      (λ other s ne zero. ground (arith, eq_iff other "down")) tripped
      (λ same s zero. ground arith, (λ same. absurd (cc ((eq_iff "up" "down").1 same)), tt)) refl
