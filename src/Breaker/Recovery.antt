-- ===== src/Breaker/Recovery.antt =====
-- code/circuit_breaker/breaker.go: sequences of calls that nothing interrupts, from tripping to
-- closing again, and what the cap on probes does to them.
use system_design_handbook.Base.{
  ℕ, suc, ◌+◌, ◌<◌, ◌≡◌, refl, Bool, true, false, List, [], ◌∷◌, ◌≤◌, ◌-◌, ap, arith, length,
}
use system_design_handbook.Int.{ℤ, pos, ◌-ℤ◌, ltb_ℤ, leb_ℤ}
use system_design_handbook.Breaker.Steps.{
  state_closed, state_open, state_half_open, CircuitBreaker, err_open, ran, call,
}
use system_design_handbook.Breaker.Trips.{call_all, each, Span}

-- Every call of the list starts less than `OpenTimeout` after the breaker opened.
abbrev pub Early : List Span → CircuitBreaker → Type 0
Early [] cb = Unit
Early (t ∷ ts) cb = (ltb_ℤ (t.started -ℤ cb.opened_at) cb.cfg.open_timeout ≡ true) × Early ts cb

refused_once :
    (s f : ℤ) (failed : Bool) (cb : CircuitBreaker)
    → cb.state ≡ state_open
    → ltb_ℤ (s -ℤ cb.opened_at) cb.cfg.open_timeout ≡ true
    → call s f failed cb ≡ (cb, err_open)
unfolding call
refused_once s f failed cb opened early = ground arith

-- Until the timeout has passed an open breaker runs no call, however many arrive and whatever they
-- would have returned, and they do not change it: they cannot postpone the recovery.
pub open_refuses :
    (failed : Bool) (ts : List Span) (cb : CircuitBreaker)
    → cb.state ≡ state_open
    → Early ts cb
    → call_all failed ts cb ≡ (cb, each err_open ts)
unfolding call_all
open_refuses failed [] cb opened early = refl
open_refuses failed (t ∷ ts) cb opened early = rw (
  refused_once t.started t.finished failed cb opened early.0,
  open_refuses failed ts cb opened early.1,
)

probe_once :
    (s f : ℤ) (cb : CircuitBreaker)
    → cb.state ≡ state_half_open
    → leb_ℤ cb.cfg.half_open_max_calls (pos cb.half_open_call) ≡ false
    → leb_ℤ cb.cfg.success_threshold (pos (cb.successes + 1)) ≡ false
    → call s f false cb ≡ (
      record cb {
        failures = 0;
        successes = cb.successes + 1;
        half_open_call = cb.half_open_call + 1;
      },
      ran false,
    )
unfolding call
probe_once s f cb probing room more = ground arith

closing_probe :
    (s f : ℤ) (cb : CircuitBreaker)
    → cb.state ≡ state_half_open
    → leb_ℤ cb.cfg.half_open_max_calls (pos cb.half_open_call) ≡ false
    → leb_ℤ cb.cfg.success_threshold (pos (cb.successes + 1)) ≡ true
    → ((call s f false cb).0.state ≡ state_closed)
      × ((call s f false cb).0.failures ≡ 0)
      × ((call s f false cb).1 ≡ ran false)
unfolding call
closing_probe s f cb probing room last = ground arith

-- Successful probes below both bounds all run, and are counted.
probes_below :
    (ts : List Span) (cb : CircuitBreaker) (n m : ℕ)
    → cb.state ≡ state_half_open
    → cb.cfg.success_threshold ≡ pos n
    → cb.cfg.half_open_max_calls ≡ pos m
    → cb.successes + length ts < n
    → cb.half_open_call + length ts ≤ m
    → let (cb', os) = call_all false ts cb in
      (cb'.state ≡ state_half_open)
      × (cb'.cfg ≡ cb.cfg)
      × (cb'.successes ≡ cb.successes + length ts)
      × (cb'.half_open_call ≡ cb.half_open_call + length ts)
      × (os ≡ each (ran false) ts)
unfolding call_all
probes_below [] cb n m probing en em below room = (probing, refl, omega arith, omega arith, refl)
probes_below (t ∷ ts) cb n m probing en em below room = ground (
  arith,
  probe_once t.started t.finished cb,
  probes_below ts (call t.started t.finished false cb).0 n m,
)

-- The first call after the timeout: it is a probe, and the only one counted so far.
first_probe :
    (s f : ℤ) (cb : CircuitBreaker) (n m : ℕ)
    → cb.state ≡ state_open
    → ltb_ℤ (s -ℤ cb.opened_at) cb.cfg.open_timeout ≡ false
    → cb.cfg.success_threshold ≡ pos (suc (suc n))
    → cb.cfg.half_open_max_calls ≡ pos (suc m)
    → ((call s f false cb).0.state ≡ state_half_open)
      × ((call s f false cb).0.cfg ≡ cb.cfg)
      × ((call s f false cb).0.successes ≡ 1)
      × ((call s f false cb).0.half_open_call ≡ 1)
      × ((call s f false cb).1 ≡ ran false)
unfolding call
first_probe s f cb n m opened late en em = ground arith

-- An open breaker whose timeout has passed and whose cap on probes is no lower than the number of
-- successes it wants, n ≥ 2: n - 1 successful calls all run and keep it half-open, and the next one
-- runs and closes it, with no failure counted.
pub recovers :
    (first : Span) (ts : List Span) (last : Span) (cb : CircuitBreaker) (m : ℕ)
    → cb.state ≡ state_open
    → ltb_ℤ (first.started -ℤ cb.opened_at) cb.cfg.open_timeout ≡ false
    → cb.cfg.success_threshold ≡ pos (suc (suc (length ts)))
    → cb.cfg.half_open_max_calls ≡ pos m
    → suc (suc (length ts)) ≤ m
    → let (probing, os) = call_all false (first ∷ ts) cb in
      let (closed, o) = call last.started last.finished false probing in
      (probing.state ≡ state_half_open)
      × (os ≡ each (ran false) (first ∷ ts))
      × (closed.state ≡ state_closed)
      × (closed.failures ≡ 0)
      × (o ≡ ran false)
unfolding call_all
recovers first ts last cb m opened late en em room =
    let probe =
      first_probe first.started first.finished cb (length ts) (suc (m - 2)) opened late en
        (rw em (ap pos (omega arith))) in
    let cb' = (call first.started first.finished false cb).0 in
    let half =
      probes_below ts cb' (suc (suc (length ts))) m probe.0 (ground arith) (ground arith)
        (omega arith) (omega arith) in
    ground (arith, probe, half, closing_probe last.started last.finished (call_all false ts cb').0)

refused_probe :
    (s f : ℤ) (failed : Bool) (cb : CircuitBreaker)
    → cb.state ≡ state_half_open
    → leb_ℤ cb.cfg.half_open_max_calls (pos cb.half_open_call) ≡ true
    → call s f failed cb ≡ (cb, err_open)
unfolding call
refused_probe s f failed cb probing full = ground arith

exhausted :
    (failed : Bool) (ts : List Span) (cb : CircuitBreaker)
    → cb.state ≡ state_half_open
    → leb_ℤ cb.cfg.half_open_max_calls (pos cb.half_open_call) ≡ true
    → call_all failed ts cb ≡ (cb, each err_open ts)
unfolding call_all
exhausted failed [] cb probing full = refl
exhausted failed (t ∷ ts) cb probing full =
    rw (
      refused_probe t.started t.finished failed cb probing full,
      exhausted failed ts cb probing full,
    )

-- A breaker configured to want more successes than its cap on probes admits never closes again: if it
-- is open and the timeout has passed, then after exactly as many successful calls as the cap allows,
-- one after the other and with nothing in between, it is half-open and refuses every later call, at
-- any time and without changing: no timeout leads out of half-open, and a finished probe does not
-- give its place back.
pub wedged_half_open :
    (first : Span) (ts : List Span) (cb : CircuitBreaker) (n : ℕ)
    → cb.state ≡ state_open
    → ltb_ℤ (first.started -ℤ cb.opened_at) cb.cfg.open_timeout ≡ false
    → cb.cfg.half_open_max_calls ≡ pos (suc (length ts))
    → cb.cfg.success_threshold ≡ pos n
    → suc (length ts) < n
    → (failed : Bool) (later : List Span)
    → let wedged = (call_all false (first ∷ ts) cb).0 in
      (wedged.state ≡ state_half_open)
      × (call_all failed later wedged ≡ (wedged, each err_open later))
unfolding call_all
wedged_half_open first ts cb n opened late em en less failed later =
    let probe =
      first_probe first.started first.finished cb (n - 2) (length ts) opened late
        (rw en (ap pos (omega arith))) em in
    let cb' = (call first.started first.finished false cb).0 in
    let half =
      probes_below ts cb' n (suc (length ts)) probe.0 (ground arith) (ground arith) (omega arith)
        (omega arith) in
    (half.0, exhausted failed later (call_all false ts cb').0 half.0 (ground arith))
