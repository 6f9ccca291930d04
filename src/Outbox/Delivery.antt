-- ===== src/Outbox/Delivery.antt =====
-- code/outbox_pattern/outbox.go: what the relay does with the events of the outbox, over any
-- broker that accepts an event exactly when it says so, the recording broker among them.
use mathlib.Core.List.{append_assoc}
use system_design_handbook.Base.{
  ℕ, suc, ◌+◌, ◌≡◌, refl, ap, sym, ◌∙◌, Bool, Bool-cases, inl, inr, Option, none, some, List, [],
  ◌∷◌, ◌++◌, length, length-append, arith,
}
use Prim.Native.String.{String}
use system_design_handbook.Int.{ℤ}
use system_design_handbook.Outbox.Database.{
  OutboxEvent, Db, Error, pending, sort_by_id, unpublished_events, mark_published, record_failure,
}
use system_design_handbook.Outbox.Relay.{
  Broker, RecordingBroker, record_publish, recording, Progress, relay_step, relay_loop, run_once,
}
use system_design_handbook.Outbox.Pending.{
  IsValid, Ascends-pending, sort_by_id-ascending, cut-rest, pending-mark, ids, pending-failure,
  mark_published-IsValid, record_failure-IsValid,
}

pub ids-append : (es fs : List OutboxEvent) → ids (es ++ fs) ≡ ids es ++ ids fs
ids-append [] fs = refl
ids-append (e ∷ es) fs = ap (◌∷◌ e.id) (ids-append es fs)

-- From the database and broker at the start to those at the end: each pending event is either
-- published, in order and once, or still pending. `accepted` is what a broker has accepted.
pub record Delivers {S : Type 0} (accepted : S → List OutboxEvent) (db : Db) (b : S) (n : ℕ)
    (p : Progress S) : Type 0 where
  pub valid : IsValid p.db
  pub same_next : p.db.next_id ≡ db.next_id
  pub conserved :
      ids (accepted p.state) ++ ids (pending p.db.outbox)
      ≡ ids (accepted b) ++ ids (pending db.outbox)
  pub counted : p.count + length (accepted b) ≡ n + length (accepted p.state)

-- What a broker does with an event, by what it says.
abbrev Publishes :
    {S : Type 0} → (S → List OutboxEvent) → S → OutboxEvent → S × Option String → Type 0
Publishes accepted s e (s', none) = accepted s' ≡ accepted s ++ (e ∷ [])
Publishes accepted s e (s', some _) = accepted s' ≡ accepted s

-- A broker that accepts an event exactly when it says so.
pub record IsHonest (broker : Broker) (accepted : broker.State → List OutboxEvent) : Type 0 where
  pub publishes : (s : broker.State) (e : OutboxEvent) → Publishes accepted s e (broker.publish s e)

abbrev pub recorded : RecordingBroker → List OutboxEvent
recorded b = b.published

pub recording-IsHonest : IsHonest recording recorded
unfolding record_publish
recording-IsHonest = record { publishes = λ b e. ground arith }

module _ (broker : Broker) (accepted : broker.State → List OutboxEvent)
    (honest : IsHonest broker accepted) (stop : ℕ → Bool) (clock : ℕ → ℤ) where
  pub stopped :
      (db : Db) (b : broker.State) (n : ℕ) (e : Option Error)
      → IsValid db
      → Delivers accepted db b n (record { db = db; state = b; count = n; error = e })
  stopped db b n e v = record { valid = v; same_next = refl; conserved = refl; counted = refl }

  failed_one :
      (e : OutboxEvent) (message : String) (db : Db) (b b' : broker.State) (n : ℕ)
      (err : Option Error)
      → IsValid db
      → accepted b' ≡ accepted b
      → Delivers accepted db b n
          (record { db = record_failure e.id message db; state = b'; count = n; error = err })
  unfolding record_failure
  failed_one e message db b b' n err v same = record {
    valid = record_failure-IsValid e.id message db v;
    same_next = refl;
    conserved = rw (same, pending-failure e.id message db.outbox);
    counted = rw same;
  }

  published_one :
      (e : OutboxEvent) (es : List OutboxEvent) (db : Db) (b b' : broker.State) (n : ℕ)
      (p : Progress broker.State)
      → IsValid db
      → pending db.outbox ≡ e ∷ es
      → accepted b' ≡ accepted b ++ (e ∷ [])
      → Delivers accepted (mark_published (clock e.id) e.id db) b' (suc n) p
      → Delivers accepted db b n p
  unfolding mark_published
  published_one e es db b b' n p v h same d = record {
    valid = d.valid;
    same_next = d.same_next;
    conserved =
        let rest = pending-mark 0 (clock e.id) db.outbox e es v.ascending h in
        d.conserved
        ∙ rw (same, rest, h, ids-append (accepted b) (e ∷ []))
            (append_assoc (ids (accepted b)) (e.id ∷ []) (ids es));
    counted = ground (arith, d.counted, length-append (accepted b) (e ∷ []));
  }

  -- One event, by what the broker said; `rest` is the loop over the events after it.
  relay_step-Delivers :
      (e : OutboxEvent) (es : List OutboxEvent) (db : Db) (b : broker.State) (n : ℕ)
      (r : broker.State × Option String) (rest : Db → broker.State → ℕ → Progress broker.State)
      → IsValid db
      → pending db.outbox ≡ e ∷ es
      → Publishes accepted b e r
      → ((db' : Db) (b' : broker.State)
          → IsValid db'
          → pending db'.outbox ≡ es
          → Delivers accepted db' b' (suc n) (rest db' b' (suc n)))
      → Delivers accepted db b n (relay_step broker stop clock e db n r rest)
  unfolding relay_step mark_published
  relay_step-Delivers e es db b n (b', none) rest v h same more =
      published_one e es db b b' n _ v h same (
        more (mark_published (clock e.id) e.id db) b'
          (mark_published-IsValid (clock e.id) e.id db v)
          (pending-mark 0 (clock e.id) db.outbox e es v.ascending h))
  relay_step-Delivers e es db b n (b', some message) rest v h same more =
      failed_one e message db b b' n _ v same

  pub relay_loop-Delivers :
      (es rest : List OutboxEvent) (db : Db) (b : broker.State) (n : ℕ)
      → IsValid db
      → pending db.outbox ≡ es ++ rest
      → Delivers accepted db b n (relay_loop broker stop clock es db b n)
  unfolding relay_loop
  relay_loop-Delivers [] rest db b n v h = stopped db b n none v
  relay_loop-Delivers (e ∷ es) rest db b n v h = elim (Bool-cases (stop n)) [
    | inl ended ↦ rw ended (stopped db b n _ v)
    | inr goes ↦ rw goes (
        relay_step-Delivers e (es ++ rest) db b n (broker.publish b e)
          (relay_loop broker stop clock es) v h (honest.publishes b e)
          (λ db' b' v' h'. relay_loop-Delivers es rest db' b' (suc n) v' h'))
  ]

  -- One run of the relay, over any broker that accepts an event exactly when it says so, loses no
  -- event and sends none twice or out of order, whatever the batch size, whichever publications fail
  -- and wherever the context ends: what the broker has accepted, followed by what is still pending,
  -- is what it had accepted followed by what was pending, and the count returned is the number of
  -- events accepted in the run. The outbox stays valid.
  pub run_once-Delivers :
      (batch : ℕ) (db : Db) (b : broker.State)
      → IsValid db
      → Delivers accepted db b 0 (run_once broker stop clock batch db b)
  unfolding run_once unpublished_events
  run_once-Delivers batch db b v =
      let (rest, e) = cut-rest batch (sort_by_id (pending db.outbox)) in
      let sorted =
        sort_by_id-ascending 0 (pending db.outbox) (Ascends-pending 0 db.outbox v.ascending) in
      relay_loop-Delivers _ rest db b 0 v (sym (e ∙ sorted))
