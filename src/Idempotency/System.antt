-- ===== src/Idempotency/System.antt =====
-- code/idempotency_keys/idempotency.go: many callers of one store, whose two phases interleave.
-- `running` and `successes` only watch: how many handlers run for a key, and how many have succeeded.
use Prim.Native.String.{String}
use mathlib.Core.Logic.{ite}
use system_design_handbook.Base.{ℕ, ◌+◌, ◌-◌, ◌⊎◌, List, [], ◌∷◌, ltb, if◌then◌else◌}
use system_design_handbook.Base.Dict.{string_discrete}
use system_design_handbook.Int.{ℤ, pos, ◌+ℤ◌, ◌≤ℤ◌}
use system_design_handbook.Idempotency.Store.{
  Store, Claim, run, refuse, replay, Handled, succeeded, handler_failed, new_store, claim, finish,
  purge,
}

pub record System : Type 0 where
  pub store : Store
  pub running : String → ℕ
  pub successes : String → ℕ

-- A caller passes phase 1; a handler that runs for the key returns and its caller passes phase 3; or
-- the purge job runs.
pub data Event : Type 0 where
  arrive : ℤ → ℤ → String → String → Event
  return_from : ℤ → String → Handled → Event
  clean : (String → ℤ) → Event

abbrev pub bump : String → (String → ℕ) → String → ℕ
bump key f k = ite (string_discrete key k) (f k + 1) (f k)

abbrev pub drop : String → (String → ℕ) → String → ℕ
drop key f k = ite (string_discrete key k) (f k - 1) (f k)

unfoldable pub begin_run : String → System → Store × Claim → System
begin_run key sys (s, run) = record sys { store = s; running = bump key sys.running }
begin_run key sys (s, refuse e) = record sys { store = s }
begin_run key sys (s, replay r) = record sys { store = s }

unfoldable pub count_success : String → Handled → (String → ℕ) → String → ℕ
count_success key (succeeded _ _) f = bump key f
count_success key handler_failed f = f

unfoldable pub end_run : ℤ → String → Handled → System → System
unfolding count_success
end_run now key h sys =
    if ltb 0 (sys.running key)
    then record sys {
      store = (finish now key h sys.store).0;
      running = drop key sys.running;
      successes = count_success key h sys.successes;
    }
    else sys

unfoldable pub step : Event → System → System
unfolding begin_run end_run
step (arrive now created key fp) sys = begin_run key sys (claim now created key fp sys.store)
step (return_from now key h) sys = end_run now key h sys
step (clean clock) sys = record sys { store = (purge clock sys.store).0 }

unfoldable pub run_events : List Event → System → System
run_events [] sys = sys
run_events (e ∷ es) sys = run_events es (step e sys)

unfoldable pub start : ℤ → System
start ttl = record { store = new_store ttl; running = λ _. 0; successes = λ _. 0 }

-- The reading lies in the window of one TTL from `lo` on, or records never expire.
abbrev pub InWindow : ℤ → ℤ → ℤ → Type 0
InWindow lo ttl t = (lo ≤ℤ t) × ((ttl ≤ℤ pos 0) ⊎ (t ≤ℤ lo +ℤ ttl))

abbrev pub EventInWindow : ℤ → ℤ → Event → Type 0
EventInWindow lo ttl (arrive now created key fp) = InWindow lo ttl now × InWindow lo ttl created
EventInWindow lo ttl (return_from now key h) = InWindow lo ttl now
EventInWindow lo ttl (clean clock) = (k : String) → InWindow lo ttl (clock k)

abbrev pub AllInWindow : ℤ → ℤ → List Event → Type 0
AllInWindow lo ttl [] = Unit
AllInWindow lo ttl (e ∷ es) = EventInWindow lo ttl e × AllInWindow lo ttl es
