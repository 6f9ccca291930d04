-- ===== src/Outbox/Relay.antt =====
-- code/outbox_pattern/outbox.go: the brokers and the relay. The relay takes any broker; the one that
-- the file implements records what it accepts. `stop k` says whether the context has ended at its
-- k-th check, and `clock` gives the reading with which an event is marked.
use Prim.Native.String.{String}
use system_design_handbook.Base.{
  ℕ, zero, suc, ◌+◌, ◌-◌, Bool, true, false, Option, none, some, List, [], ◌∷◌, ◌++◌, map, ltb,
  ◌==◌, if◌then◌else◌,
}
use system_design_handbook.Int.{ℤ}
use system_design_handbook.Outbox.Database.{
  OutboxEvent, Db, Error, cancelled, broker_error, unpublished_events, mark_published,
  record_failure,
}

-- `Broker`: `none` says that the broker accepted the event.
pub record Broker : Type 1 where
  pub State : Type 0
  pub publish : State → OutboxEvent → State × Option String

pub record RecordingBroker : Type 0 where
  pub published : List OutboxEvent
  pub fail_next : ℕ
  pub fail_error : Option String

unfoldable pub record_publish : RecordingBroker → OutboxEvent → RecordingBroker × Option String
record_publish b e =
    if ltb 0 b.fail_next
    then (
      record b { fail_next = b.fail_next - 1 },
      elim b.fail_error [ none ↦ some "broker unavailable" | some x ↦ some x ],
    )
    else (record b { published = b.published ++ (e ∷ []) }, none)

abbrev pub recording : Broker
recording = record { State = RecordingBroker; publish = record_publish }

-- `Types`
unfoldable pub types : RecordingBroker → List String
types b = map (λ e. e.event_type) b.published

-- Where the relay stands: the database, the broker, how many events it published, and the error.
pub record Progress (S : Type 0) : Type 0 where
  pub db : Db
  pub state : S
  pub count : ℕ
  pub error : Option Error

module _ (broker : Broker) (stop : ℕ → Bool) (clock : ℕ → ℤ) where
  open broker use {State, publish}

  -- What the loop does with one event, and what is left to do after it.
  unfoldable pub relay_step :
      OutboxEvent
      → Db
      → ℕ
      → State × Option String
      → (Db → State → ℕ → Progress State)
      → Progress State
  relay_step e db n (s, none) rest = rest (mark_published (clock e.id) e.id db) s (suc n)
  relay_step e db n (s, some err) rest = record {
    db = record_failure e.id err db;
    state = s;
    count = n;
    error = some (broker_error err);
  }

  -- the loop of `RunOnce`
  unfoldable pub relay_loop : List OutboxEvent → Db → State → ℕ → Progress State
  unfolding relay_step
  relay_loop [] db s n = record { db = db; state = s; count = n; error = none }
  relay_loop (e ∷ es) db s n =
      if stop n
      then record { db = db; state = s; count = n; error = some cancelled }
      else relay_step e db n (publish s e) (relay_loop es)

  unfoldable pub run_once : ℕ → Db → State → Progress State
  run_once batch db s = relay_loop (unpublished_events batch db) db s 0

-- The end of a round of `RunUntilDrained`: it returns on an error or if nothing was published.
unfoldable pub drain_step :
    {S : Type 0} → Progress S → ℕ → Progress S → Option Error → Bool → Progress S
drain_step p n rest (some err) idle = record p { count = n; error = some err }
drain_step p n rest none true = record p { count = n; error = none }
drain_step p n rest none false = rest

-- `RunUntilDrained`: `stop` and `clock` belong to each round, and `total` is the count so far.
unfoldable pub run_until_drained :
    (broker : Broker) (stop : ℕ → ℕ → Bool) (clock : ℕ → ℕ → ℤ) (batch rounds : ℕ)
    → Db
    → broker.State
    → ℕ
    → Progress broker.State
run_until_drained broker stop clock batch zero db s total = record {
  db = db;
  state = s;
  count = total;
  error = none;
}
run_until_drained broker stop clock batch (suc rounds) db s total =
    let p = run_once broker (stop rounds) (clock rounds) batch db s in
    let n = total + p.count in
    let rest = run_until_drained broker stop clock batch rounds p.db p.state n in
    drain_step p n rest p.error (p.count == 0)
