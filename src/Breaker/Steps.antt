-- ===== src/Breaker/Steps.antt =====
-- code/circuit_breaker/breaker.go: state, `New`, `beforeCall`, `afterCall`, `transition`, `Call`,
-- `State` and `Failures`.
use system_design_handbook.Base.{
  ℕ, ◌+◌, Bool, true, false, ◌||◌, List, [], ◌∷◌, ◌++◌, if◌then◌else◌,
}
use system_design_handbook.Int.{ℤ, pos, ◌-ℤ◌, ltb_ℤ, leb_ℤ}

pub data State : Type 0 where
  state_closed state_open state_half_open : State

pub record Config : Type 0 where
  pub failure_threshold : ℤ
  pub success_threshold : ℤ
  pub open_timeout : ℤ  -- nanoseconds
  pub half_open_max_calls : ℤ

unfoldable pub default_config : Config
default_config = record {
  failure_threshold = pos 5;
  success_threshold = pos 2;
  open_timeout = pos 30_000_000_000;
  half_open_max_calls = pos 3;
}

-- `trips` holds the calls of the `onTrip` hook, oldest first; `on_trip` says whether it is set.
pub record CircuitBreaker : Type 0 where
  pub cfg : Config
  pub state : State
  pub on_trip : Bool
  pub failures : ℕ
  pub successes : ℕ
  pub opened_at : ℤ
  pub half_open_call : ℕ
  pub trips : List (State × State)

-- `if v <= 0 { v = d }`
at_least_one : ℤ → ℤ → ℤ
at_least_one v d = if leb_ℤ v (pos 0) then d else v

-- The zero `time.Time` is before every reading; it is not read while the breaker is closed.
unfoldable pub new : Config → CircuitBreaker
unfolding at_least_one
new cfg = record {
  cfg = record cfg {
    failure_threshold = at_least_one cfg.failure_threshold (pos 5);
    success_threshold = at_least_one cfg.success_threshold (pos 1);
    half_open_max_calls = at_least_one cfg.half_open_max_calls (pos 1);
  };
  state = state_closed;
  on_trip = false;
  failures = 0;
  successes = 0;
  opened_at = pos 0;
  half_open_call = 0;
  trips = [];
}

pub same_state : State → State → Bool
same_state state_closed state_closed = true
same_state state_open state_open = true
same_state state_half_open state_half_open = true
same_state _ _ = false

-- the `switch` of `transition`
enter : State → ℤ → CircuitBreaker → CircuitBreaker
enter state_open now cb = record cb { opened_at = now; successes = 0; half_open_call = 0 }
enter state_half_open now cb = record cb { successes = 0; half_open_call = 0 }
enter state_closed now cb = record cb { failures = 0; successes = 0; half_open_call = 0 }

notify : State → State → CircuitBreaker → CircuitBreaker
notify from to cb = if cb.on_trip then record cb { trips = cb.trips ++ ((from, to) ∷ []) } else cb

unfoldable pub transition : State → ℤ → CircuitBreaker → CircuitBreaker
unfolding same_state enter notify
transition to now cb =
    if same_state cb.state to
    then cb
    else notify cb.state to (enter to now (record cb { state = to }))

-- The second half of `beforeCall`; the result says whether `ErrOpen` is returned.
take_probe : CircuitBreaker → CircuitBreaker × Bool
unfolding same_state
take_probe cb =
    if same_state cb.state state_half_open
    then (if leb_ℤ cb.cfg.half_open_max_calls (pos cb.half_open_call)
        then (cb, true)
        else (record cb { half_open_call = cb.half_open_call + 1 }, false))
    else (cb, false)

-- The state after, and whether the call is refused with `ErrOpen`.
unfoldable pub before_call : ℤ → CircuitBreaker → CircuitBreaker × Bool
unfolding transition take_probe
before_call now cb =
    if same_state cb.state state_open
    then (if ltb_ℤ (now -ℤ cb.opened_at) cb.cfg.open_timeout
        then (cb, true)
        else take_probe (transition state_half_open now cb))
    else take_probe cb

after_failure : ℤ → CircuitBreaker → CircuitBreaker
unfolding transition
after_failure now cb =
    let cb' = record cb { failures = cb.failures + 1; successes = 0 } in
    if same_state cb'.state state_half_open || leb_ℤ cb'.cfg.failure_threshold (pos cb'.failures)
    then transition state_open now cb'
    else cb'

after_success : ℤ → CircuitBreaker → CircuitBreaker
unfolding transition
after_success now cb =
    let cb' = record cb { failures = 0 } in
    if same_state cb'.state state_half_open
    then (let cb'' = record cb' { successes = cb'.successes + 1 } in
        if leb_ℤ cb''.cfg.success_threshold (pos cb''.successes)
        then transition state_closed now cb''
        else cb'')
    else cb'

-- `failed` is `err != nil`.
unfoldable pub after_call : ℤ → Bool → CircuitBreaker → CircuitBreaker
unfolding after_failure after_success
after_call now failed cb = if failed then after_failure now cb else after_success now cb

-- What `Call` returns: `ErrOpen` without running the function, or the function's own result.
pub data Outcome : Type 0 where
  err_open : Outcome
  ran : Bool → Outcome

-- A whole `Call` that nothing interrupts: `started` and `finished` are the two clock readings.
unfoldable pub call : ℤ → ℤ → Bool → CircuitBreaker → CircuitBreaker × Outcome
unfolding before_call after_call
call started finished failed cb =
    let (cb', refused) = before_call started cb in
    if refused then (cb', err_open) else (after_call finished failed cb', ran failed)

-- `State()`
unfoldable pub reported_state : ℤ → CircuitBreaker → State
unfolding same_state
reported_state now cb =
    if same_state cb.state state_open
    then (if ltb_ℤ (now -ℤ cb.opened_at) cb.cfg.open_timeout then state_open else state_half_open)
    else cb.state

-- `Failures()`
unfoldable pub reported_failures : CircuitBreaker → ℕ
reported_failures cb = cb.failures
