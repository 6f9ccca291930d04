-- ===== src/Breaker/Examples.antt =====
-- code/circuit_breaker/breaker.go: runs of the breaker, and the theorems at concrete inputs.
use system_design_handbook.Base.{ℕ, ◌*◌, ◌≡◌, refl, arith, true, false, [], ◌∷◌}
use system_design_handbook.Int.{pos, ◌-ℤ◌}
use system_design_handbook.Breaker.Steps.{
  state_closed, state_open, state_half_open, Config, CircuitBreaker, err_open, ran, new,
  before_call, after_call, call, reported_state,
}
use system_design_handbook.Breaker.Safety.{begin, finish, step, run, IsValid, run-IsValid}
use system_design_handbook.Breaker.Trips.{Span, call_all}
use system_design_handbook.Breaker.Recovery.{wedged_half_open}

-- The configuration of `main`.
abbrev demo : Config
demo = record {
  failure_threshold = pos 3;
  success_threshold = pos 2;
  open_timeout = pos 200_000_000;
  half_open_max_calls = pos 2;
}

abbrev at_ms : ℕ → Span
at_ms t = record { started = pos (t * 1_000_000); finished = pos (t * 1_000_000) }

program : Unit {0}
unfolding new before_call after_call call reported_state step run call_all ◌-ℤ◌
program = tt

-- The first five calls of `main` fail: the last two do not reach the dependency.
five_failures :
    (call_all true (at_ms 0 ∷ at_ms 1 ∷ at_ms 2 ∷ at_ms 3 ∷ at_ms 4 ∷ []) (new demo)).1
    ≡ ran true ∷ ran true ∷ ran true ∷ err_open ∷ err_open ∷ []
unfolding program
five_failures = refl

run-IsValid_example : IsValid (run (begin (pos 0) ∷ finish (pos 1) true ∷ []) (new demo))
run-IsValid_example = run-IsValid demo (begin (pos 0) ∷ finish (pos 1) true ∷ [])

abbrev closed : CircuitBreaker
closed = record {
  cfg = demo;
  state = state_closed;
  on_trip = false;
  failures = 0;
  successes = 0;
  opened_at = pos 0;
  half_open_call = 0;
  trips = [];
}

abbrev opened : CircuitBreaker
opened = record closed { state = state_open; failures = 3; opened_at = pos 2_000_000 }

-- `SuccessThreshold: 2` with `HalfOpenMaxCalls` left to its default of 1.
abbrev narrow : CircuitBreaker
narrow = record opened { cfg = record demo { half_open_max_calls = pos 1 } }

wedged_half_open_example :
    let wedged = (call_all false (at_ms 300 ∷ []) narrow).0 in
    (wedged.state ≡ state_half_open)
    × (call_all false (at_ms 9_000_000 ∷ []) wedged ≡ (wedged, err_open ∷ []))
unfolding program
wedged_half_open_example =
    wedged_half_open (at_ms 300) [] narrow 2 refl refl refl refl (omega arith) false
      (at_ms 9_000_000 ∷ [])
