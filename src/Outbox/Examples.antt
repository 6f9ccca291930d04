-- ===== src/Outbox/Examples.antt =====
-- code/outbox_pattern/outbox.go: the demo of `main`, and the theorems at concrete inputs.
use Prim.Native.String.{String}
use system_design_handbook.Base.{
  ℕ, suc, ◌==◌, ◌++◌, if◌then◌else◌, Option, some, ◌≡◌, refl, arith, true, false, none, List, [],
  ◌∷◌,
}
use system_design_handbook.Base.Dict.{find, insert}
use system_design_handbook.Int.{ℤ, pos}
use system_design_handbook.Outbox.Database.{
  OutboxEvent, Db, new_db, place_order, commit, pending, is_pending, put_event, put_events,
  put_orders, begin, insert_order, enqueue_event, unpublished_events, cut, sort_by_id, insert_by_id,
  mark_published, record_failure, at_id,
}
use system_design_handbook.Outbox.Relay.{
  Broker, RecordingBroker, recording, record_publish, relay_step, relay_loop, run_once, drain_step,
  run_until_drained,
}
use system_design_handbook.Outbox.Pending.{IsValid, ids}
use system_design_handbook.Outbox.Delivery.{Delivers, IsHonest, run_once-Delivers}
use system_design_handbook.Outbox.Drain.{run_until_drained-empties}
use system_design_handbook.Outbox.Life.{
  Action, place, set_fail_commit, set_fail_next, relay, start, act, act_all, Accounted,
  every_event-Accounted,
}

program : Unit {0}
unfolding find insert new_db place_order commit pending is_pending put_event put_events put_orders
    begin insert_order enqueue_event unpublished_events cut sort_by_id insert_by_id mark_published
    record_failure at_id record_publish relay_step relay_loop run_once drain_step run_until_drained
    start act act_all
program = tt

abbrev payload : String → ℤ → String
payload id amount = id

abbrev clock : ℕ → ℤ
clock k = pos k

abbrev demo : List Action
demo =
    place clock "order-1" (pos 4999)
    ∷ set_fail_commit true
    ∷ place clock "order-2" (pos 100)
    ∷ set_fail_commit false
    ∷ place clock "order-3" (pos 12500)
    ∷ set_fail_next 1 none
    ∷ relay (λ _. false) clock 10
    ∷ relay (λ _. false) clock 1
    ∷ []

-- The broker has the first event, the second is pending, and the failed commit left none.
demo_delivers : ids (act_all payload demo start).broker.published ≡ 1 ∷ []
unfolding program
demo_delivers = refl

every_event-Accounted_example : Accounted (act_all payload demo start)
every_event-Accounted_example = every_event-Accounted payload demo

abbrev idle : RecordingBroker
idle = record { published = []; fail_next = 0; fail_error = none }

empty-IsValid : IsValid new_db
unfolding program
empty-IsValid = record { ascending = tt; below_next = tt }

abbrev three_orders : List Action
three_orders = place clock "a" (pos 1) ∷ place clock "b" (pos 2) ∷ place clock "c" (pos 3) ∷ []

abbrev stored : Db
stored = (act_all payload three_orders start).db

stored-IsValid : IsValid stored
stored-IsValid = (every_event-Accounted payload three_orders).valid

-- A broker that refuses its second publication, whenever that comes.
abbrev Flaky : Type 0
Flaky = List OutboxEvent × ℕ

flaky_publish : Flaky → OutboxEvent → Flaky × Option String
flaky_publish (seen, calls) e =
    if calls == 1
    then ((seen, suc calls), some "timeout")
    else ((seen ++ (e ∷ []), suc calls), none)

abbrev flaky : Broker
flaky = record { State = Flaky; publish = flaky_publish }

abbrev seen_by : Flaky → List OutboxEvent
seen_by s = s.0

flaky-IsHonest : IsHonest flaky seen_by
unfolding flaky_publish
flaky-IsHonest = record { publishes = λ s e. ground arith }

-- One event goes out, the next is refused and stays pending, and the run stops there.
flaky_run :
    let p = run_once flaky (λ _. false) clock 10 stored ([], 0) in
    (p.count ≡ 1) × (ids (seen_by p.state) ≡ 1 ∷ []) × (ids (pending p.db.outbox) ≡ 2 ∷ 3 ∷ [])
unfolding program flaky_publish
flaky_run = (refl, refl, refl)

run_once-Delivers_example :
    Delivers seen_by stored ([], 0) 0 (run_once flaky (λ _. false) clock 10 stored ([], 0))
run_once-Delivers_example =
    run_once-Delivers flaky seen_by flaky-IsHonest (λ _. false) clock 10 stored ([], 0)
      stored-IsValid

run_until_drained-empties_example :
    let p = run_until_drained recording (λ _ _. false) (λ _. clock) 1 3 stored idle 0 in
    (p.error ≡ none) × (pending p.db.outbox ≡ [])
unfolding program
run_until_drained-empties_example =
    run_until_drained-empties (λ _ _. false) (λ _. clock) 1 3 stored idle 0 stored-IsValid
      (λ r k. refl) refl (omega arith)
