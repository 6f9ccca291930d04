-- ===== src/Grpc/Orders.antt =====
-- code/grpc_example/rpc.go: `OrderStore` with `GetOrder`, `CreateOrder` and `ListByCustomer`. Each runs
-- under the mutex. An order in the map is a value, and what is returned is a copy of it.
use system_design_handbook.Base.{
  ℕ, zero, suc, ◌+◌, none, some, List, [], ◌∷◌, ◌++◌, if◌then◌else◌, ℕ_discrete, ap, arith,
}
use system_design_handbook.Base.Dict.{find, insert}
use system_design_handbook.Bytes.{Bytes, bytes_discrete}
use system_design_handbook.Int.{ℤ, pos, negsuc, pos_part, neg_part, leb_ℤ}
use system_design_handbook.Grpc.Varint.{Error}
use system_design_handbook.Grpc.Message.{Order}

unfoldable pub int_discrete : Discrete ℤ
int_discrete (pos a) (pos b) = elim (ℕ_discrete a b) [
  | yes e ↦ yes (ap pos e)
  | no ne ↦ no (λ e. ne (ap pos_part e))
]
int_discrete (pos a) (negsuc b) = no (λ e. cc e)
int_discrete (negsuc a) (pos b) = no (λ e. cc e)
int_discrete (negsuc a) (negsuc b) = elim (ℕ_discrete a b) [
  | yes e ↦ yes (ap negsuc e)
  | no ne ↦ no (λ e. ne (omega (arith, ap neg_part e)))
]

pub record OrderStore : Type 0 where
  pub orders : List (ℤ × Order)
  pub by_idempotency_key : List (Bytes × ℤ)
  pub next_id : ℕ

abbrev pub new_order_store : OrderStore
new_order_store = record { orders = []; by_idempotency_key = []; next_id = 0 }

-- gRPC status codes.
abbrev pub code_not_found : ℕ
code_not_found = 1

abbrev pub code_invalid_argument : ℕ
code_invalid_argument = 2

abbrev pub code_internal : ℕ
code_internal = 4

-- What the message of a status error says.
pub data Reason : Type 0 where
  not_found : ℤ → Reason
  customer_required amount_not_positive unknown_method malformed_error_frame : Reason
  undecodable : Error → Reason

-- `panicked` would be the nil pointer, for a key whose order is not in the map.
pub data Outcome : Type 0 where
  answer : Order → Outcome
  refused : ℕ → Reason → Outcome
  panicked : Outcome

unfoldable pub get_order : ℤ → OrderStore → Outcome
get_order id s = elim (find int_discrete id s.orders) [
  | none ↦ refused code_not_found (not_found id)
  | some o ↦ answer o
]

-- `&Order{…}`, with the status pending.
unfoldable pub new_order : ℕ → Bytes → ℤ → Order
new_order id customer amount = record {
  id = pos id;
  customer = customer;
  amount = amount;
  status = pos 1;
  tags = [];
  unknown_fields = [];
}

-- `s.byIdempotencyKey[idempotencyKey] = o.ID`, for a key that is not empty.
unfoldable pub note_key : Bytes → ℤ → List (Bytes × ℤ) → List (Bytes × ℤ)
note_key [] id m = m
note_key (c ∷ key) id m = insert bytes_discrete (c ∷ key) id m

unfoldable pub add_order : Bytes → ℤ → Bytes → OrderStore → OrderStore × Outcome
add_order customer amount key s =
    let id = s.next_id + 1 in
    let o = new_order id customer amount in
    (
      record {
        orders = insert int_discrete (pos id) o s.orders;
        by_idempotency_key = note_key key (pos id) s.by_idempotency_key;
        next_id = id;
      },
      answer o,
    )

-- `*s.orders[id]`
unfoldable pub stored_order : ℤ → OrderStore → Outcome
stored_order id s = elim (find int_discrete id s.orders) [ none ↦ panicked | some o ↦ answer o ]

unfoldable pub create_for_key : Bytes → ℤ → Bytes → OrderStore → OrderStore × Outcome
create_for_key customer amount [] s = add_order customer amount [] s
create_for_key customer amount (c ∷ key) s =
    elim (find bytes_discrete (c ∷ key) s.by_idempotency_key) [
      | none ↦ add_order customer amount (c ∷ key) s
      | some id ↦ (s, stored_order id s)
    ]

unfoldable pub create_order : Bytes → ℤ → Bytes → OrderStore → OrderStore × Outcome
create_order [] amount key s = (s, refused code_invalid_argument customer_required)
create_order (c ∷ customer) amount key s =
    if leb_ℤ amount (pos 0)
    then (s, refused code_invalid_argument amount_not_positive)
    else create_for_key (c ∷ customer) amount key s

-- `customer == "" || o.Customer == customer`
unfoldable pub wanted : Bytes → Order → List Order
wanted [] o = o ∷ []
wanted (c ∷ customer) o = elim (bytes_discrete o.customer (c ∷ customer)) [
  | yes _ ↦ o ∷ []
  | no _ ↦ []
]

-- The loop over the identifiers up to this one.
unfoldable pub list_up_to : ℕ → Bytes → OrderStore → List Order
list_up_to zero customer s = []
list_up_to (suc id) customer s =
    list_up_to id customer s
    ++ elim (find int_discrete (pos (suc id)) s.orders) [ none ↦ [] | some o ↦ wanted customer o ]

unfoldable pub list_by_customer : Bytes → OrderStore → List Order
list_by_customer customer s = list_up_to s.next_id customer s
