-- ===== src/Outbox/Atomic.antt =====
-- code/outbox_pattern/outbox.go: a commit applies the orders and the events of a transaction together
-- or not at all, and keeps the outbox valid.
use mathlib.Core.List.{append_assoc, append-nil}
use mathlib.Core.Logic.{ite, if_pos}
use Prim.Native.String.{String}
use system_design_handbook.Base.{
  ℕ, suc, ◌≤◌, ◌<◌, ◌≡◌, refl, sym, ◌∙◌, ◌⊎◌, true, false, Bool-cases, inl, inr, none, some, List,
  [], ◌∷◌, ◌++◌, arith,
}
use system_design_handbook.Base.Dict.{string_discrete, insert, find-insert}
use system_design_handbook.Int.{ℤ}
use system_design_handbook.Outbox.Database.{
  Order, OutboxEvent, Db, commit_failed, begin, insert_order, enqueue_event, staged, put_event,
  put_orders, put_events, commit, get_order, place_order,
}
use system_design_handbook.Outbox.Pending.{IsValid, Ascends, EndsBy}

put_event-append :
    (e : OutboxEvent) (hi : ℕ) (es : List OutboxEvent)
    → EndsBy hi es
    → hi < e.id
    → put_event e es ≡ es ++ (e ∷ [])
unfolding put_event
put_event-append e hi [] b h = refl
put_event-append e hi (x ∷ xs) b h = ground (arith, put_event-append e hi xs b.1 h)

Ascends-snoc :
    (lo hi : ℕ) (es : List OutboxEvent) (e : OutboxEvent)
    → Ascends lo es
    → EndsBy hi es
    → lo ≤ hi
    → hi < e.id
    → Ascends lo (es ++ (e ∷ []))
Ascends-snoc lo hi [] e a b l h = (omega arith, tt)
Ascends-snoc lo hi (x ∷ xs) e a b l h = (a.0, Ascends-snoc x.id hi xs e a.1 b.1 b.0 h)

EndsBy-snoc :
    (hi hi' : ℕ) (es : List OutboxEvent) (e : OutboxEvent)
    → EndsBy hi es
    → hi ≤ hi'
    → e.id ≤ hi'
    → EndsBy hi' (es ++ (e ∷ []))
EndsBy-snoc hi hi' [] e b l h = (h, tt)
EndsBy-snoc hi hi' (x ∷ xs) e b l h = (omega arith, EndsBy-snoc hi hi' xs e b.1 l h)

-- The events as `Commit` stores them, the first with the ID after `last`.
numbered : (ℕ → ℤ) → ℕ → List OutboxEvent → List OutboxEvent
numbered clock last [] = []
numbered clock last (e ∷ es) =
    record e { id = suc last; created_at = clock (suc last) } ∷ numbered clock (suc last) es

put_events-numbered :
    (clock : ℕ → ℤ) (es : List OutboxEvent) (db : Db)
    → IsValid db
    → let db' = put_events clock es db in
      (db'.outbox ≡ db.outbox ++ numbered clock db.next_id es)
      × (db'.orders ≡ db.orders)
      × IsValid db'
unfolding put_events numbered
put_events-numbered clock [] db v = (sym (append-nil db.outbox), refl, v)
put_events-numbered clock (e ∷ es) db v =
    let id = suc db.next_id in
    let e' = record e { id = id; created_at = clock id } in
    let db' = record db { next_id = id; outbox = put_event e' db.outbox } in
    let put : put_event e' db.outbox ≡ db.outbox ++ (e' ∷ []) =
      put_event-append e' db.next_id db.outbox v.below_next (omega arith) in
    let v' : IsValid db' = record {
      ascending = rw put (
          Ascends-snoc 0 db.next_id db.outbox e' v.ascending v.below_next (omega arith)
            (omega arith));
      below_next =
          rw put (EndsBy-snoc db.next_id id db.outbox e' v.below_next (omega arith) (omega arith));
    } in
    let (stored, same, valid) = put_events-numbered clock es db' v' in
    (stored ∙ rw put (append_assoc db.outbox (e' ∷ []) (numbered clock id es)), same, valid)

abbrev pub placed : String → ℤ → Order
placed id amount = record { id = id; amount = amount; status = "created" }

-- The event of an order, as it is stored.
abbrev pub placed_event : (String → ℤ → String) → (ℕ → ℤ) → String → ℤ → ℕ → OutboxEvent
placed_event payload clock id amount n = record (staged id "OrderCreated" (payload id amount)) {
  id = n;
  created_at = clock n;
}

-- The order and its event, both there.
pub record Placed (payload : String → ℤ → String) (clock : ℕ → ℤ) (id : String) (amount : ℤ)
    (db db' : Db) : Type 0 where
  pub order : get_order id db' ≡ some (placed id amount)
  pub others :
      (j : String)
      → get_order j db' ≡ ite (string_discrete id j) (some (placed id amount)) (get_order j db)
  pub event : db'.outbox ≡ db.outbox ++ (placed_event payload clock id amount (suc db.next_id) ∷ [])
  pub next : db'.next_id ≡ suc db.next_id
  pub commits : db'.fail_commit ≡ db.fail_commit
  pub valid : IsValid db'

module _ (payload : String → ℤ → String) (clock : ℕ → ℤ) (id : String) (amount : ℤ) (db : Db) where
  place_fails :
      db.fail_commit ≡ true → place_order payload clock id amount db ≡ (db, some commit_failed)
  unfolding place_order commit insert_order enqueue_event begin
  place_fails h = rw h

  stored_order : Db
  stored_order = record db { orders = insert string_discrete id (placed id amount) db.orders }

  place_commits :
      db.fail_commit ≡ false
      → place_order payload clock id amount db
        ≡ (put_events clock (staged id "OrderCreated" (payload id amount) ∷ []) stored_order, none)
  unfolding place_order commit insert_order enqueue_event begin put_orders stored_order
  place_commits h = rw h

  Placed-all :
      IsValid db
      → Placed payload clock id amount db
          (put_events clock (staged id "OrderCreated" (payload id amount) ∷ []) stored_order)
  unfolding stored_order numbered get_order
  Placed-all v =
      let e = staged id "OrderCreated" (payload id amount) in
      let v' : IsValid stored_order = record {
        ascending = v.ascending;
        below_next = v.below_next;
      } in
      let (stored, same, valid) = put_events-numbered clock (e ∷ []) stored_order v' in
      let found = λ (j : String). find-insert string_discrete id j (placed id amount) db.orders in
      record {
        order = rw same (found id ∙ if_pos (string_discrete id id) refl _ _);
        others = λ j. rw same (found j);
        event = stored;
        next = unfold put_events in refl;
        commits = unfold put_events in refl;
        valid = valid;
      }

  -- `PlaceOrder` has both of its effects or neither: if the commit fails it says so and the database is
  -- as it was; otherwise it returns no error, the order is stored (and every other order is as it
  -- was), and the outbox has one event more, the order's own, pending, under the next ID.
  pub place_order-atomic :
      IsValid db
      → (place_order payload clock id amount db ≡ (db, some commit_failed))
        ⊎ (((place_order payload clock id amount db).1 ≡ none)
            × Placed payload clock id amount db (place_order payload clock id amount db).0)
  place_order-atomic v = elim (Bool-cases db.fail_commit) [
    | inl h ↦ inl (place_fails h)
    | inr h ↦ inr (rw (place_commits h) (refl, Placed-all v))
  ]
