-- ===== src/Outbox/Database.antt =====
-- code/outbox_pattern/outbox.go: `DB`, `Tx` and `PlaceOrder`. The outbox map is the list of its
-- events, whose keys are their IDs. A method that reads the clock takes the reading.
use Prim.Native.String.{String}
use system_design_handbook.Base.{
  ℕ, suc, ◌+◌, Bool, true, false, ◌&&◌, Option, none, some, List, [], ◌∷◌, ◌++◌, length, take, ltb,
  ◌==◌, if◌then◌else◌,
}
use system_design_handbook.Base.Dict.{string_discrete, find, insert}
use system_design_handbook.Int.{ℤ}

pub record Order : Type 0 where
  pub id : String
  pub amount : ℤ
  pub status : String

pub record OutboxEvent : Type 0 where
  pub id : ℕ
  pub aggregate_id : String
  pub event_type : String
  pub payload : String
  pub created_at : ℤ
  pub published_at : Option ℤ
  pub attempts : ℕ
  pub last_error : String

pub record Db : Type 0 where
  pub orders : List (String × Order)
  pub outbox : List OutboxEvent
  pub next_id : ℕ
  pub fail_commit : Bool

pub record Tx : Type 0 where
  pub orders : List Order
  pub events : List OutboxEvent
  pub done : Bool

pub data Error : Type 0 where
  commit_failed already_finished cancelled : Error
  broker_error : String → Error

unfoldable pub new_db : Db
new_db = record { orders = []; outbox = []; next_id = 0; fail_commit = false }

unfoldable pub begin : Tx
begin = record { orders = []; events = []; done = false }

unfoldable pub insert_order : Order → Tx → Tx
insert_order o tx = record tx { orders = tx.orders ++ (o ∷ []) }

abbrev pub staged : String → String → String → OutboxEvent
staged aggregate event_type payload = record {
  id = 0;
  aggregate_id = aggregate;
  event_type = event_type;
  payload = payload;
  created_at = ℤ.pos 0;
  published_at = none;
  attempts = 0;
  last_error = "";
}

unfoldable pub enqueue_event : String → String → String → Tx → Tx
enqueue_event aggregate event_type payload tx = record tx {
  events = tx.events ++ (staged aggregate event_type payload ∷ []);
}

-- `outbox[e.ID] = e`
unfoldable pub put_event : OutboxEvent → List OutboxEvent → List OutboxEvent
put_event e [] = e ∷ []
put_event e (x ∷ xs) = if x.id == e.id then e ∷ xs else x ∷ put_event e xs

unfoldable pub put_orders : List Order → List (String × Order) → List (String × Order)
put_orders [] m = m
put_orders (o ∷ os) m = put_orders os (insert string_discrete o.id o m)

-- The second loop of `Commit`; `clock i` is the reading for the event that gets the ID i.
unfoldable pub put_events : (ℕ → ℤ) → List OutboxEvent → Db → Db
unfolding put_event
put_events clock [] db = db
put_events clock (e ∷ es) db =
    let id = suc db.next_id in
    put_events clock es (record db {
      next_id = id;
      outbox = put_event (record e { id = id; created_at = clock id }) db.outbox;
    })

-- The transaction and the database after it, and the error.
unfoldable pub commit : (ℕ → ℤ) → Tx → Db → Tx × Db × Option Error
unfolding put_orders put_events
commit clock tx db =
    if tx.done
    then (tx, db, some already_finished)
    else (let tx' = record tx { done = true } in
        if db.fail_commit then (tx', db, some commit_failed) else (
          tx',
          put_events clock tx.events (record db { orders = put_orders tx.orders db.orders }),
          none,
        ))

unfoldable pub rollback : Tx → Tx
rollback tx = record tx { done = true }

unfoldable pub get_order : String → Db → Option Order
get_order id db = find string_discrete id db.orders

unfoldable pub order_count : Db → ℕ
order_count db = length db.orders

unfoldable pub is_pending : OutboxEvent → Bool
is_pending e = elim e.published_at [ none ↦ true | some _ ↦ false ]

-- the loop of `UnpublishedEvents`
unfoldable pub pending : List OutboxEvent → List OutboxEvent
pending [] = []
pending (e ∷ es) = if is_pending e then e ∷ pending es else pending es

-- `sort.Slice` by ID.
unfoldable pub insert_by_id : OutboxEvent → List OutboxEvent → List OutboxEvent
insert_by_id e [] = e ∷ []
insert_by_id e (x ∷ xs) = if ltb x.id e.id then x ∷ insert_by_id e xs else e ∷ x ∷ xs

unfoldable pub sort_by_id : List OutboxEvent → List OutboxEvent
sort_by_id [] = []
sort_by_id (e ∷ es) = insert_by_id e (sort_by_id es)

-- No limit is 0, as every limit below 1 is.
unfoldable pub cut : ℕ → List OutboxEvent → List OutboxEvent
cut limit out = if ltb 0 limit && ltb limit (length out) then take limit out else out

unfoldable pub unpublished_events : ℕ → Db → List OutboxEvent
unpublished_events limit db = cut limit (sort_by_id (pending db.outbox))

-- A change of the event with this ID, if there is one.
unfoldable pub at_id : ℕ → (OutboxEvent → OutboxEvent) → List OutboxEvent → List OutboxEvent
at_id id f [] = []
at_id id f (e ∷ es) = if e.id == id then f e ∷ es else e ∷ at_id id f es

unfoldable pub mark_published : ℤ → ℕ → Db → Db
mark_published now id db = record db {
  outbox = at_id id (λ e. record e { published_at = some now }) db.outbox;
}

unfoldable pub record_failure : ℕ → String → Db → Db
record_failure id message db = record db {
  outbox = at_id id (λ e. record e { attempts = e.attempts + 1; last_error = message }) db.outbox;
}

unfoldable pub outbox_size : Db → ℕ
outbox_size db = length db.outbox

-- `PlaceOrder`; `payload` stands for the JSON text that `fmt.Sprintf` makes of the order.
unfoldable pub place_order : (String → ℤ → String) → (ℕ → ℤ) → String → ℤ → Db → Db × Option Error
place_order payload clock id amount db =
    let tx =
      enqueue_event id "OrderCreated" (payload id amount)
        (insert_order (record { id = id; amount = amount; status = "created" }) begin) in
    let (_, db', e) = commit clock tx db in (db', e)
