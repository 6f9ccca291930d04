-- ===== src/Outbox/Life.antt =====
-- code/outbox_pattern/outbox.go: orders placed and relay runs, in any sequence.
use mathlib.Core.List.{append_assoc}
use Prim.Native.String.{String}
use system_design_handbook.Base.{
  ℕ, zero, suc, ◌≡◌, refl, ap, sym, ◌∙◌, Bool, true, inl, inr, Option, none, List, [], ◌∷◌, ◌++◌,
  arith,
}
use system_design_handbook.Int.{ℤ}
use system_design_handbook.Outbox.Database.{
  OutboxEvent, Db, pending, is_pending, place_order, new_db,
}
use system_design_handbook.Outbox.Relay.{RecordingBroker, recording, run_once}
use system_design_handbook.Outbox.Pending.{IsValid, ids}
use system_design_handbook.Outbox.Atomic.{Placed, placed_event, place_order-atomic}
use system_design_handbook.Outbox.Delivery.{
  recorded, recording-IsHonest, run_once-Delivers, ids-append,
}

pub record System : Type 0 where
  pub db : Db
  pub broker : RecordingBroker

-- An order is placed, the next commits are made to fail or not, the broker's next publications are
-- made to fail, or the relay runs once.
pub data Action : Type 0 where
  place : (ℕ → ℤ) → String → ℤ → Action
  set_fail_commit : Bool → Action
  set_fail_next : ℕ → Option String → Action
  relay : (ℕ → Bool) → (ℕ → ℤ) → ℕ → Action

module _ (payload : String → ℤ → String) where
  unfoldable pub act : Action → System → System
  act (place clock id amount) s = record s { db = (place_order payload clock id amount s.db).0 }
  act (set_fail_commit b) s = record s { db = record s.db { fail_commit = b } }
  act (set_fail_next n err) s = record s {
    broker = record s.broker { fail_next = n; fail_error = err };
  }
  act (relay stop clock batch) s =
      let p = run_once recording stop clock batch s.db s.broker in
      record { db = p.db; broker = p.state }

  unfoldable pub act_all : List Action → System → System
  act_all [] s = s
  act_all (a ∷ as') s = act_all as' (act a s)

unfoldable pub start : System
start = record { db = new_db; broker = record { published = []; fail_next = 0; fail_error = none } }

-- 1, 2, ..., n.
abbrev pub up_to : ℕ → List ℕ
up_to zero = []
up_to (suc n) = up_to n ++ (suc n ∷ [])

pub record Accounted (s : System) : Type 0 where
  pub valid : IsValid s.db
  pub every_event : ids s.broker.published ++ ids (pending s.db.outbox) ≡ up_to s.db.next_id

pending-snoc :
    (es : List OutboxEvent) (e : OutboxEvent)
    → is_pending e ≡ true
    → pending (es ++ (e ∷ [])) ≡ pending es ++ (e ∷ [])
unfolding pending
pending-snoc [] e h = rw h
pending-snoc (x ∷ xs) e h = ground (arith, pending-snoc xs e h)

place-Accounted :
    (payload : String → ℤ → String) (clock : ℕ → ℤ) (id : String) (amount : ℤ) (db db' : Db)
    (b : RecordingBroker)
    → Placed payload clock id amount db db'
    → Accounted (record { db = db; broker = b })
    → Accounted (record { db = db'; broker = b })
place-Accounted payload clock id amount db db' b p h =
    let e = placed_event payload clock id amount (suc db.next_id) in
    record {
      valid = p.valid;
      every_event =
          rw
            (
              p.event,
              pending-snoc db.outbox e (unfold is_pending in refl),
              ids-append (pending db.outbox) (e ∷ []),
              p.next,
            )
            (sym (append_assoc (ids b.published) (ids (pending db.outbox)) (suc db.next_id ∷ []))
              ∙ ap (λ (l : List ℕ). l ++ (suc db.next_id ∷ [])) h.every_event);
    }

module _ (payload : String → ℤ → String) where
  act-Accounted : (a : Action) (s : System) → Accounted s → Accounted (act payload a s)
  unfolding act
  act-Accounted (place clock id amount) s h =
      elim (place_order-atomic payload clock id amount s.db h.valid) [
        | inl e ↦ rw e h
        | inr (_, p) ↦ place-Accounted payload clock id amount s.db _ s.broker p h
      ]
  act-Accounted (set_fail_commit b) s h = record {
    valid = record { ascending = h.valid.ascending; below_next = h.valid.below_next };
    every_event = h.every_event;
  }
  act-Accounted (set_fail_next n err) s h = record { valid = h.valid; every_event = h.every_event }
  act-Accounted (relay stop clock batch) s h =
      let d =
        run_once-Delivers recording recorded recording-IsHonest stop clock batch s.db s.broker
          h.valid in
      record { valid = d.valid; every_event = rw d.same_next (d.conserved ∙ h.every_event) }

  act_all-Accounted :
      (as' : List Action) (s : System) → Accounted s → Accounted (act_all payload as' s)
  unfolding act_all
  act_all-Accounted [] s h = h
  act_all-Accounted (a ∷ as') s h = act_all-Accounted as' (act payload a s) (act-Accounted a s h)

  start-Accounted : Accounted start
  unfolding start new_db pending
  start-Accounted = record {
    valid = record { ascending = tt; below_next = tt };
    every_event = refl;
  }

  -- The dual write is solved: from an empty database on, whatever orders are placed, commits fail,
  -- relays run, the broker refuses and contexts end, in any sequence: the IDs of the events that the
  -- broker has recorded, followed by those of the pending ones, are 1, 2, ... up to the last committed
  -- event. So each committed event is delivered once and in commit order, or still pending, and
  -- nothing else is ever delivered.
  pub every_event-Accounted : (as' : List Action) → Accounted (act_all payload as' start)
  every_event-Accounted as' = act_all-Accounted as' start start-Accounted
