-- ===== src/Outbox/Drain.antt =====
-- code/outbox_pattern/outbox.go: `RunUntilDrained`, over the recording broker.
use Prim.Native.Nat.add
use system_design_handbook.Base.{
  ℕ, zero, suc, ◌+◌, ◌≤◌, ◌≡◌, refl, ap, ◌∙◌, Bool, true, false, Bool-cases, inl, inr, Option, none,
  some, List, [], ◌∷◌, ◌++◌, length, length-append, ◌==◌, arith,
}
use system_design_handbook.Int.{ℤ}
use system_design_handbook.Outbox.Database.{
  OutboxEvent, Db, Error, pending, cut, unpublished_events, mark_published,
}
use system_design_handbook.Outbox.Relay.{
  RecordingBroker, record_publish, recording, Progress, relay_step, relay_loop, drain_step,
  run_once, run_until_drained,
}
use system_design_handbook.Outbox.Pending.{IsValid, Ascends-pending, sort_by_id-ascending, ids}
use system_design_handbook.Outbox.Delivery.{
  Delivers, recorded, recording-IsHonest, stopped, run_once-Delivers,
}

Delivers-trans :
    (db : Db) (b : RecordingBroker) (n m : ℕ) (p q : Progress RecordingBroker)
    → Delivers recorded db b 0 p
    → m ≡ n + p.count
    → Delivers recorded p.db p.state m q
    → Delivers recorded db b n q
Delivers-trans db b n m p q d e f = record {
  valid = f.valid;
  same_next = f.same_next ∙ d.same_next;
  conserved = f.conserved ∙ d.conserved;
  counted = omega (arith, d.counted, f.counted);
}

ends-after :
    (db : Db) (b : RecordingBroker) (n : ℕ) (p : Progress RecordingBroker) (err : Option Error)
    → Delivers recorded db b 0 p
    → Delivers recorded db b n
        (record { db = p.db; state = p.state; count = n + p.count; error = err })
ends-after db b n p err d = record {
  valid = d.valid;
  same_next = d.same_next;
  conserved = d.conserved;
  counted = omega (arith, d.counted);
}

drain_step-Delivers :
    (db : Db) (b : RecordingBroker) (n : ℕ) (p q : Progress RecordingBroker) (err : Option Error)
    (idle : Bool)
    → Delivers recorded db b 0 p
    → Delivers recorded p.db p.state (n + p.count) q
    → Delivers recorded db b n (drain_step p (n + p.count) q err idle)
unfolding drain_step
drain_step-Delivers db b n p q (some err) idle d f = ends-after db b n p (some err) d
drain_step-Delivers db b n p q none true d f = ends-after db b n p none d
drain_step-Delivers db b n p q none false d f = Delivers-trans db b n (n + p.count) p q d refl f

-- All the rounds of `RunUntilDrained` together lose no event and send none twice or out of order:
-- what the broker has recorded, followed by what is still pending, is what it had recorded followed
-- by what was pending, and the count returned is the number of events recorded.
pub run_until_drained-Delivers :
    (stop : ℕ → ℕ → Bool) (clock : ℕ → ℕ → ℤ) (batch rounds : ℕ) (db : Db) (b : RecordingBroker)
    (n : ℕ)
    → IsValid db
    → Delivers recorded db b n (run_until_drained recording stop clock batch rounds db b n)
unfolding run_until_drained
run_until_drained-Delivers stop clock batch zero db b n v =
    stopped recording recorded recording-IsHonest (λ _. false) (λ _. ℤ.pos 0) db b n none v
run_until_drained-Delivers stop clock batch (suc rounds) db b n v =
    let p = run_once recording (stop rounds) (clock rounds) batch db b in
    let d =
      run_once-Delivers recording recorded recording-IsHonest (stop rounds) (clock rounds) batch db
        b v in
    let rest =
      run_until_drained-Delivers stop clock batch rounds p.db p.state (n + p.count) d.valid in
    drain_step-Delivers db b n p _ p.error (p.count == 0) d rest

length-ids : (es : List OutboxEvent) → length (ids es) ≡ length es
length-ids [] = refl
length-ids (e ∷ es) = ap suc (length-ids es)

cut-nil : (n : ℕ) (es : List OutboxEvent) → length (cut n es) ≡ 0 → es ≡ []
unfolding cut
cut-nil n [] h = refl
cut-nil zero (e ∷ es) h = ground arith
cut-nil (suc n) (e ∷ es) h = ground arith

-- A broker that accepts everything, and a context that does not end.
healthy_loop :
    (stop : ℕ → Bool) (clock : ℕ → ℤ) (es : List OutboxEvent) (db : Db) (b : RecordingBroker)
    (n : ℕ)
    → ((k : ℕ) → stop k ≡ false)
    → b.fail_next ≡ 0
    → let p = relay_loop recording stop clock es db b n in
      (p.error ≡ none) × (p.count ≡ n + length es) × (p.state.fail_next ≡ 0)
unfolding relay_loop relay_step record_publish
healthy_loop stop clock [] db b n goes ok = (refl, omega arith, ok)
healthy_loop stop clock (e ∷ es) db b n goes ok = ground (
  arith,
  goes n,
  healthy_loop stop clock es (mark_published (clock e.id) e.id db)
      (record b { published = b.published ++ (e ∷ []) }) (suc n) goes,
)

shrinks :
    (db : Db) (b : RecordingBroker) (p : Progress RecordingBroker)
    → Delivers recorded db b 0 p
    → length (pending p.db.outbox) + p.count ≡ length (pending db.outbox)
shrinks db b p d = omega (
  arith,
  d.counted,
  ap length d.conserved,
  length-append (ids p.state.published) (ids (pending p.db.outbox)),
  length-append (ids b.published) (ids (pending db.outbox)),
  length-ids p.state.published,
  length-ids (pending p.db.outbox),
  length-ids b.published,
  length-ids (pending db.outbox),
)

healthy_run :
    (stop : ℕ → Bool) (clock : ℕ → ℤ) (batch : ℕ) (db : Db) (b : RecordingBroker)
    → IsValid db
    → ((k : ℕ) → stop k ≡ false)
    → b.fail_next ≡ 0
    → let p = run_once recording stop clock batch db b in
      (p.error ≡ none)
      × (p.count ≡ length (cut batch (pending db.outbox)))
      × (p.state.fail_next ≡ 0)
unfolding run_once unpublished_events
healthy_run stop clock batch db b v goes ok =
    let h = healthy_loop stop clock (unpublished_events batch db) db b 0 goes ok in
    let sorted =
      sort_by_id-ascending 0 (pending db.outbox) (Ascends-pending 0 db.outbox v.ascending) in
    (h.0, h.1 ∙ add.zero _ ∙ ap (λ (es : List OutboxEvent). length (cut batch es)) sorted, h.2)

nothing_left :
    (db : Db) (p : Progress RecordingBroker)
    → length (pending p.db.outbox) ≤ length (pending db.outbox)
    → pending db.outbox ≡ []
    → pending p.db.outbox ≡ []
nothing_left db p le e = ground arith

-- With a broker that accepts every event and a context that does not end, as many rounds as there are
-- pending events empty the outbox, at any batch size, and without an error: the outbox cannot stall.
pub run_until_drained-empties :
    (stop : ℕ → ℕ → Bool) (clock : ℕ → ℕ → ℤ) (batch rounds : ℕ) (db : Db) (b : RecordingBroker)
    (n : ℕ)
    → IsValid db
    → ((r k : ℕ) → stop r k ≡ false)
    → b.fail_next ≡ 0
    → length (pending db.outbox) ≤ rounds
    → let p = run_until_drained recording stop clock batch rounds db b n in
      (p.error ≡ none) × (pending p.db.outbox ≡ [])
unfolding run_until_drained drain_step
run_until_drained-empties stop clock batch zero db b n v goes ok few = (refl, ground arith)
run_until_drained-empties stop clock batch (suc rounds) db b n v goes ok few =
    let p = run_once recording (stop rounds) (clock rounds) batch db b in
    let d =
      run_once-Delivers recording recorded recording-IsHonest (stop rounds) (clock rounds) batch db
        b v in
    let h = healthy_run (stop rounds) (clock rounds) batch db b v (goes rounds) ok in
    let less = shrinks db b p d in
    elim (Bool-cases (p.count == 0)) [
      | inl idle ↦
          rw (h.0, idle, drain_step)
            (
              refl,
              nothing_left db p (ground arith) (cut-nil batch (pending db.outbox) (ground arith)),
            )
      | inr busy ↦
          rw (h.0, busy, drain_step)
            (run_until_drained-empties stop clock batch rounds p.db p.state (n + p.count) d.valid
              goes h.2 (ground arith))
    ]
