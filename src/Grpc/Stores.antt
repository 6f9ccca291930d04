-- ===== src/Grpc/Stores.antt =====
-- code/grpc_example/rpc.go: `CreateOrder` keeps the store well-formed, and what it holds.
use mathlib.Core.Logic.{ite}
use system_design_handbook.Base.{
  ℕ, ◌+◌, ◌<◌, ◌≡◌, ◌≢◌, inl, inr, refl, Bool-cases, none, some, Option-cases, List, [], ◌∷◌, arith,
}
use system_design_handbook.Base.Dict.{find, insert, find-insert}
use system_design_handbook.Bytes.{Bytes, bytes_discrete}
use system_design_handbook.Int.{ℤ, pos, leb_ℤ}
use system_design_handbook.Grpc.Message.{Order}
use system_design_handbook.Grpc.Orders.{
  int_discrete, OrderStore, new_order_store, new_order, note_key, add_order, stored_order,
  create_for_key, create_order,
}

-- Every identifier handed out is taken, and every key has its order.
pub record IsValid (s : OrderStore) : Type 0 where
  pub fresh : (n : ℕ) → s.next_id < n → find int_discrete (pos n) s.orders ≡ none
  pub keyed :
      (k : Bytes) (id : ℤ)
      → find bytes_discrete k s.by_idempotency_key ≡ some id
      → find int_discrete id s.orders ≢ none
  pub unkeyed : find bytes_discrete [] s.by_idempotency_key ≡ none

-- Orders and keys stay as they are.
pub record Keeps (s t : OrderStore) : Type 0 where
  pub orders :
      (id : ℤ) (o : Order)
      → find int_discrete id s.orders ≡ some o
      → find int_discrete id t.orders ≡ some o
  pub keys :
      (k : Bytes) (id : ℤ)
      → find bytes_discrete k s.by_idempotency_key ≡ some id
      → find bytes_discrete k t.by_idempotency_key ≡ some id

Keeps-refl : (s : OrderStore) → Keeps s s
Keeps-refl s = record { orders = λ id o e. e; keys = λ k id e. e }

Keeps-trans : (s t u : OrderStore) → Keeps s t → Keeps t u → Keeps s u
Keeps-trans s t u a b = record {
  orders = λ id o e. b.orders id o (a.orders id o e);
  keys = λ k id e. b.keys k id (a.keys k id e);
}

module _ (customer : Bytes) (amount : ℤ) (s : OrderStore) (h : IsValid s) where
  new_id : ℤ
  new_id = pos (s.next_id + 1)

  made : Order
  made = new_order (s.next_id + 1) customer amount

  orders_after :
      (id : ℤ)
      → find int_discrete id (insert int_discrete new_id made s.orders)
        ≡ ite (int_discrete new_id id) (some made) (find int_discrete id s.orders)
  orders_after id = find-insert int_discrete new_id id made s.orders

  still_there :
      (id : ℤ) (o : Order)
      → find int_discrete id s.orders ≡ some o
      → find int_discrete id (insert int_discrete new_id made s.orders) ≡ some o
  unfolding new_id
  still_there id o e = ground (arith, orders_after id, h.fresh (s.next_id + 1) (omega arith))

  still_fresh :
      (n : ℕ)
      → s.next_id + 1 < n
      → find int_discrete (pos n) (insert int_discrete new_id made s.orders) ≡ none
  unfolding new_id
  still_fresh n less = ground (arith, orders_after (pos n), h.fresh n (omega arith))

  -- An order without a key, and one with a key that is new.
  add_unkeyed :
      IsValid (add_order customer amount [] s).0 × Keeps s (add_order customer amount [] s).0
  unfolding add_order note_key new_id made
  add_unkeyed = (
    record {
      fresh = still_fresh;
      keyed = λ k id e. ground (arith, orders_after id, h.keyed k id e);
      unkeyed = h.unkeyed;
    },
    record { orders = still_there; keys = λ k id e. e },
  )

  add_keyed :
      (c : ℕ) (key : Bytes)
      → find bytes_discrete (c ∷ key) s.by_idempotency_key ≡ none
      → IsValid (add_order customer amount (c ∷ key) s).0
        × Keeps s (add_order customer amount (c ∷ key) s).0
  unfolding add_order note_key new_id made
  add_keyed c key free =
      let keys_after =
        λ (k : Bytes). find-insert bytes_discrete (c ∷ key) k new_id s.by_idempotency_key in
      (
        record {
          fresh = still_fresh;
          keyed = λ k id e. ground (arith, orders_after id, keys_after k, h.keyed k id);
          unkeyed = ground (arith, keys_after [], h.unkeyed);
        },
        record { orders = still_there; keys = λ k id e. ground (arith, keys_after k) },
      )

-- A key that is not known, and one that is.
pub create_new :
    (customer : Bytes) (amount : ℤ) (c : ℕ) (key : Bytes) (s : OrderStore)
    → find bytes_discrete (c ∷ key) s.by_idempotency_key ≡ none
    → create_for_key customer amount (c ∷ key) s ≡ add_order customer amount (c ∷ key) s
unfolding create_for_key
create_new customer amount c key s e = ground arith

pub create_known :
    (customer : Bytes) (amount : ℤ) (c : ℕ) (key : Bytes) (s : OrderStore) (id : ℤ)
    → find bytes_discrete (c ∷ key) s.by_idempotency_key ≡ some id
    → create_for_key customer amount (c ∷ key) s ≡ (s, stored_order id s)
unfolding create_for_key
create_known customer amount c key s id e = ground arith

abbrev GoesOn : OrderStore → OrderStore → Type 0
GoesOn s t = IsValid t × Keeps s t

create_for_key-GoesOn :
    (customer : Bytes) (amount : ℤ) (key : Bytes) (s : OrderStore)
    → IsValid s
    → GoesOn s (create_for_key customer amount key s).0
create_for_key-GoesOn customer amount [] s h =
    unfold create_for_key in add_unkeyed customer amount s h
create_for_key-GoesOn customer amount (c ∷ key) s h =
    elim (Option-cases (find bytes_discrete (c ∷ key) s.by_idempotency_key)) [
      | inl free ↦
          rw (create_new customer amount c key s free) (add_keyed customer amount s h c key free)
      | inr (id, e) ↦ rw (create_known customer amount c key s id e) (h, Keeps-refl s)
    ]

-- CreateOrder keeps the store well-formed, and every order and key that it holds.
pub create_order-GoesOn :
    (customer : Bytes) (amount : ℤ) (key : Bytes) (s : OrderStore)
    → IsValid s
    → GoesOn s (create_order customer amount key s).0
unfolding create_order
create_order-GoesOn [] amount key s h = (h, Keeps-refl s)
create_order-GoesOn (c ∷ customer) amount key s h = elim (Bool-cases (leb_ℤ amount (pos 0))) [
  | inl low ↦ rw low (h, Keeps-refl s)
  | inr high ↦ rw high (create_for_key-GoesOn (c ∷ customer) amount key s h)
]

pub record CreateRequest : Type 0 where
  pub customer : Bytes
  pub amount : ℤ
  pub key : Bytes

-- Calls of `CreateOrder`, one after the other.
unfoldable pub create_all : List CreateRequest → OrderStore → OrderStore
create_all [] s = s
create_all (r ∷ rs) s = create_all rs (create_order r.customer r.amount r.key s).0

pub create_all-GoesOn :
    (rs : List CreateRequest) (s : OrderStore) → IsValid s → GoesOn s (create_all rs s)
unfolding create_all
create_all-GoesOn [] s h = (h, Keeps-refl s)
create_all-GoesOn (r ∷ rs) s h =
    let (valid, kept) = create_order-GoesOn r.customer r.amount r.key s h in
    let (end, all) = create_all-GoesOn rs (create_order r.customer r.amount r.key s).0 valid in
    (end, Keeps-trans s _ (create_all rs _) kept all)

pub new_order_store-IsValid : IsValid new_order_store
unfolding find
new_order_store-IsValid = record { fresh = λ n h. refl; keyed = λ k id e. cc; unkeyed = refl }
