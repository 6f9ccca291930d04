-- ===== src/Breaker/Safety.antt =====
-- code/circuit_breaker/breaker.go: what holds of a breaker under every interleaving of calls.
use system_design_handbook.Base.{◌≡◌, Bool, false, List, [], ◌∷◌, arith}
use system_design_handbook.Int.{ℤ, pos, ◌≤ℤ◌, leb_ℤ}
use system_design_handbook.Breaker.Steps.{
  State, state_closed, state_open, state_half_open, Config, CircuitBreaker, new, before_call,
  after_call,
}

-- A call is two atomic steps with other calls' steps between them.
pub data Event : Type 0 where
  begin : ℤ → Event
  finish : ℤ → Bool → Event

unfoldable pub step : Event → CircuitBreaker → CircuitBreaker
step (begin now) cb = (before_call now cb).0
step (finish now failed) cb = after_call now failed cb

unfoldable pub run : List Event → CircuitBreaker → CircuitBreaker
run [] cb = cb
run (e ∷ es) cb = run es (step e cb)

-- What the counters may be in each state.
abbrev pub FitsState : State → CircuitBreaker → Type 0
FitsState state_closed cb =
    (leb_ℤ cb.cfg.failure_threshold (pos cb.failures) ≡ false)
    × (cb.successes ≡ 0)
    × (cb.half_open_call ≡ 0)
FitsState state_open cb = (cb.successes ≡ 0) × (cb.half_open_call ≡ 0)
FitsState state_half_open cb =
    (pos cb.half_open_call ≤ℤ cb.cfg.half_open_max_calls)
    × (leb_ℤ cb.cfg.success_threshold (pos cb.successes) ≡ false)

pub record IsValid (cb : CircuitBreaker) : Type 0 where
  pub failure_pos : pos 1 ≤ℤ cb.cfg.failure_threshold
  pub success_pos : pos 1 ≤ℤ cb.cfg.success_threshold
  pub probes_pos : pos 1 ≤ℤ cb.cfg.half_open_max_calls
  pub in_state : FitsState cb.state cb

pub new-IsValid : (cfg : Config) → IsValid (new cfg)
unfolding new
new-IsValid cfg = ground arith

before_call-IsValid : (now : ℤ) (cb : CircuitBreaker) → IsValid cb → IsValid (before_call now cb).0
unfolding before_call
before_call-IsValid now cb v = ground arith

after_call-IsValid :
    (now : ℤ) (failed : Bool) (cb : CircuitBreaker)
    → IsValid cb
    → IsValid (after_call now failed cb)
unfolding after_call
after_call-IsValid now failed cb v = ground arith

run_from-IsValid : (es : List Event) (cb : CircuitBreaker) → IsValid cb → IsValid (run es cb)
unfolding run step
run_from-IsValid [] cb v = v
run_from-IsValid (begin now ∷ es) cb v = run_from-IsValid es _ (before_call-IsValid now cb v)
run_from-IsValid (finish now failed ∷ es) cb v =
    run_from-IsValid es _ (after_call-IsValid now failed cb v)

-- For every configuration and every interleaving of the starts and ends of calls, at any clock
-- readings: the breaker that `New` made stays valid. Its thresholds are positive, a closed breaker
-- has fewer failures than trip it, no probe is counted outside half-open, and in half-open the
-- probes admitted are within their cap and the successes below the number that closes it.
pub run-IsValid : (cfg : Config) (es : List Event) → IsValid (run es (new cfg))
run-IsValid cfg es = run_from-IsValid es (new cfg) (new-IsValid cfg)
