-- ===== src/Breaker/Trips.antt =====
-- code/circuit_breaker/breaker.go: calls one after the other, and when they trip the breaker.
use system_design_handbook.Base.{
  ℕ, suc, ◌+◌, ◌<◌, ◌≡◌, refl, Bool, true, false, List, [], ◌∷◌, ◌++◌, arith, length,
}
use system_design_handbook.Int.{ℤ, pos, leb_ℤ}
use system_design_handbook.Breaker.Steps.{
  state_closed, state_open, CircuitBreaker, Outcome, ran, call,
}

-- When a call starts and finishes.
pub record Span : Type 0 where
  pub started : ℤ
  pub finished : ℤ

-- Calls one after the other, all with one result: the breaker after them, and what each returned.
unfoldable pub call_all : Bool → List Span → CircuitBreaker → CircuitBreaker × List Outcome
call_all failed [] cb = (cb, [])
call_all failed (t ∷ ts) cb =
    let (cb', o) = call t.started t.finished failed cb in
    let (cb'', os) = call_all failed ts cb' in (cb'', o ∷ os)

abbrev pub each {ℓ} : {A : Type ℓ} → Outcome → List A → List Outcome
each o [] = []
each o (_ ∷ ts) = o ∷ each o ts

fails_once :
    (s f : ℤ) (cb : CircuitBreaker)
    → cb.state ≡ state_closed
    → leb_ℤ cb.cfg.failure_threshold (pos (cb.failures + 1)) ≡ false
    → call s f true cb ≡ (record cb { failures = cb.failures + 1; successes = 0 }, ran true)
unfolding call
fails_once s f cb closed below = ground arith

trips_once :
    (s f : ℤ) (cb : CircuitBreaker)
    → cb.state ≡ state_closed
    → leb_ℤ cb.cfg.failure_threshold (pos (cb.failures + 1)) ≡ true
    → ((call s f true cb).0.state ≡ state_open)
      × ((call s f true cb).0.opened_at ≡ f)
      × ((call s f true cb).0.cfg ≡ cb.cfg)
      × ((call s f true cb).1 ≡ ran true)
unfolding call
trips_once s f cb closed reached = ground arith

-- Failing calls below the threshold all run, and leave the breaker closed.
fails_below :
    (ts : List Span) (cb : CircuitBreaker) (n : ℕ)
    → cb.state ≡ state_closed
    → cb.cfg.failure_threshold ≡ pos n
    → cb.failures + length ts < n
    → ((call_all true ts cb).0.state ≡ state_closed)
      × ((call_all true ts cb).0.cfg ≡ cb.cfg)
      × ((call_all true ts cb).0.failures ≡ cb.failures + length ts)
      × ((call_all true ts cb).1 ≡ each (ran true) ts)
unfolding call_all
fails_below [] cb n closed e below = (closed, refl, omega arith, refl)
fails_below (t ∷ ts) cb n closed e below = ground (
  arith,
  fails_once t.started t.finished cb,
  fails_below ts (call t.started t.finished true cb).0 n,
)

call_all-append :
    (failed : Bool) (ts us : List Span) (cb : CircuitBreaker)
    → (call_all failed (ts ++ us) cb).0 ≡ (call_all failed us (call_all failed ts cb).0).0
unfolding call_all
call_all-append failed [] us cb = refl
call_all-append failed (t ∷ ts) us cb = call_all-append failed ts us _

-- A closed breaker with no failures trips exactly at its threshold n: each of n - 1 failing calls
-- runs and leaves it closed, and the n-th one also runs and opens it, at the time it finished.
pub trips_at_threshold :
    (ts : List Span) (last : Span) (cb : CircuitBreaker)
    → cb.state ≡ state_closed
    → cb.failures ≡ 0
    → cb.cfg.failure_threshold ≡ pos (suc (length ts))
    → let before = (call_all true ts cb).0 in
      let (tripped, o) = call last.started last.finished true before in
      (before.state ≡ state_closed)
      × ((call_all true ts cb).1 ≡ each (ran true) ts)
      × (tripped.state ≡ state_open)
      × (tripped.opened_at ≡ last.finished)
      × (o ≡ ran true)
trips_at_threshold ts last cb closed fresh e =
    let below = fails_below ts cb (suc (length ts)) closed e (omega arith) in
    ground (arith, trips_once last.started last.finished (call_all true ts cb).0, below)
