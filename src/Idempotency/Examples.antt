-- ===== src/Idempotency/Examples.antt =====
-- code/idempotency_keys/idempotency.go: calls of the store, and the theorems at concrete inputs.
use mathlib.Core.Logic.{ite}
use system_design_handbook.Base.{ℕ, ◌+◌, ◌≤◌, ◌≡◌, refl, arith, inr, true, false, List, [], ◌∷◌}
use system_design_handbook.Base.Dict.{string_discrete, find, insert, erase}
use system_design_handbook.Int.{pos, ◌-ℤ◌, ◌+ℤ◌}
use system_design_handbook.Idempotency.Store.{
  Store, refuse, replay, succeeded, fingerprint_mismatch, new_store, new_record, claim, finish,
  expired, drop_expired, settle_claim, claim_existing, claim_new, settle_finish, record_outcome,
  reply, execute,
}
use system_design_handbook.Idempotency.System.{
  Event, arrive, return_from, start, run_events, step, begin_run, end_run, InWindow,
}
use system_design_handbook.Idempotency.Once.{runs_once}
use system_design_handbook.Idempotency.Replay.{success_replayed}

program : Unit {0}
unfolding string_discrete find insert erase new_store claim finish expired drop_expired settle_claim
    claim_existing claim_new settle_finish record_outcome execute start run_events step begin_run
    end_run ◌-ℤ◌ ◌+ℤ◌
program = tt

abbrev empty : Store
empty = record { records = []; ttl = pos 100 }

-- A first call runs the handler.
first_call :
    (execute (λ s. s) (pos 1) (pos 1) (pos 9) "k" "body" (succeeded "ok" 201) empty).1
    ≡ reply (record { response = "ok"; status_code = 201; replayed = false })
unfolding program
first_call = refl

-- Two calls race for one key, and the second comes again after the first has succeeded.
abbrev race : List Event
race =
    arrive (pos 1) (pos 1) "k" "a"
    ∷ arrive (pos 2) (pos 2) "k" "a"
    ∷ return_from (pos 5) "k" (succeeded "ok" 200)
    ∷ arrive (pos 6) (pos 6) "k" "a"
    ∷ []

in_window : (t : ℕ) → t ≤ 100 → InWindow (pos 0) (pos 100) (pos t)
unfolding program
in_window t h = (omega arith, inr (omega arith))

runs_once_example :
    (run_events race (start (pos 100))).running "k"
      + (run_events race (start (pos 100))).successes "k"
    ≤ 1
unfolding program
runs_once_example =
    let w = in_window in
    runs_once (pos 0) (pos 100) race "k" (
      (w 1 (omega arith), w 1 (omega arith)),
      (
        (w 2 (omega arith), w 2 (omega arith)),
        (w 5 (omega arith), ((w 6 (omega arith), w 6 (omega arith)), tt)),
      ),
    )

success_replayed_example :
    let finished =
      (finish (pos 5) "k" (succeeded "ok" 200) (claim (pos 1) (pos 1) "k" "a" empty).0).0 in
    claim (pos 50) (pos 50) "k" "b" finished ≡ (
      finished,
      ite
          (string_discrete "a" "b")
          (replay (record { response = "ok"; status_code = 200; replayed = true }))
          (refuse fingerprint_mismatch),
    )
unfolding program
success_replayed_example =
    success_replayed empty (pos 1) (pos 1) (pos 5) (pos 50) (pos 50) "k" "a" "b" "ok" 200 refl refl

-- The handler of the first call takes longer than the TTL.
abbrev held : Store
held = record empty { records = ("k", new_record (pos 1) "k" "a") ∷ [] }
