-- ===== src/Grpc/Creation.antt =====
-- code/grpc_example/rpc.go: `CreateOrder` is idempotent on the key, and never finds a key without its
-- order.
use mathlib.Core.Path.{subst}
use mathlib.Core.Logic.{if_pos}
use system_design_handbook.Base.{
  ℕ, suc, ◌+◌, ◌≡◌, ◌≢◌, inl, inr, refl, sym, ap, ◌∙◌, Bool-cases, some, Option-cases, List, [],
  ◌∷◌, arith,
}
use system_design_handbook.Base.Dict.{find, find-insert}
use system_design_handbook.Bytes.{Bytes, bytes_discrete}
use system_design_handbook.Int.{ℤ, pos, leb_ℤ}
use system_design_handbook.Grpc.Message.{Order}
use system_design_handbook.Grpc.Orders.{
  int_discrete, OrderStore, new_order_store, Outcome, answer, panicked, new_order, note_key,
  add_order, stored_order, create_for_key, create_order,
}
use system_design_handbook.Grpc.Stores.{
  IsValid, create_new, create_known, create_order-GoesOn, create_all, create_all-GoesOn,
  new_order_store-IsValid, CreateRequest,
}

stored_order-answer :
    (id : ℤ) (o : Order) (s : OrderStore)
    → find int_discrete id s.orders ≡ some o
    → stored_order id s ≡ answer o
unfolding stored_order
stored_order-answer id o s e = ground arith

answer-stored_order :
    (id : ℤ) (o : Order) (s : OrderStore)
    → stored_order id s ≡ answer o
    → find int_discrete id s.orders ≡ some o
unfolding stored_order
answer-stored_order id o s e = ground arith

-- The key has this order.
abbrev HasKey : Bytes → Order → OrderStore → Type 0
HasKey key o s =
    (id : ℤ) × (find bytes_discrete key s.by_idempotency_key ≡ some id)
    × (find int_discrete id s.orders ≡ some o)

-- `CreateOrder` on a positive amount, for a customer.
module _ (customer : Bytes) (amount : ℤ) (c : ℕ) (key : Bytes) (s : OrderStore) (o : Order) where
  added_key :
      (add_order customer amount (c ∷ key) s).1 ≡ answer o
      → HasKey (c ∷ key) o (add_order customer amount (c ∷ key) s).0
  unfolding add_order note_key
  added_key e =
      let id = pos (s.next_id + 1) in
      let made = new_order (s.next_id + 1) customer amount in
      let there = find-insert int_discrete id id made s.orders in
      let noted = find-insert bytes_discrete (c ∷ key) (c ∷ key) id s.by_idempotency_key in
      (
        id,
        noted ∙ if_pos (bytes_discrete (c ∷ key) (c ∷ key)) refl _ _,
        there ∙ if_pos (int_discrete id id) refl _ _ ∙ ground arith,
      )

  created_key :
      (create_for_key customer amount (c ∷ key) s).1 ≡ answer o
      → HasKey (c ∷ key) o (create_for_key customer amount (c ∷ key) s).0
  created_key e = elim (Option-cases (find bytes_discrete (c ∷ key) s.by_idempotency_key)) [
    | inl free ↦
        let new = create_new customer amount c key s free in
        rw new (added_key (ap (λ (r : OrderStore × Outcome). r.1) (sym new) ∙ e))
    | inr (id, known) ↦
        let old = create_known customer amount c key s id known in
        let found =
          answer-stored_order id o s (ap (λ (r : OrderStore × Outcome). r.1) (sym old) ∙ e) in
        rw old (id, known, found)
  ]

  known_key : HasKey (c ∷ key) o s → create_for_key customer amount (c ∷ key) s ≡ (s, answer o)
  known_key (id, known, found) =
      create_known customer amount c key s id known
      ∙ ap (λ (x : Outcome). (s, x)) (stored_order-answer id o s found)

pub data Accepted : Bytes → ℤ → Type 0 where
  accepted : (c : ℕ) (customer : Bytes) (n : ℕ) → Accepted (c ∷ customer) (pos (suc n))

open_create :
    (customer key : Bytes) (amount : ℤ) (s : OrderStore)
    → Accepted customer amount
    → create_order customer amount key s ≡ create_for_key customer amount key s
unfolding create_order
open_create _ key _ s (accepted c customer n) = ground arith

create_order_answers :
    (customer key : Bytes) (amount : ℤ) (s : OrderStore) (o : Order)
    → (create_order customer amount key s).1 ≡ answer o
    → create_order customer amount key s ≡ create_for_key customer amount key s
unfolding create_order
create_order_answers [] key amount s o e = absurd (cc e)
create_order_answers (c ∷ customer) key amount s o e = ground arith

created_once_from :
    (s : OrderStore) (customer : Bytes) (amount : ℤ) (c : ℕ) (key : Bytes) (o : Order)
    (between : List CreateRequest) (customer' : Bytes) (amount' : ℤ)
    → IsValid s
    → (create_order customer amount (c ∷ key) s).1 ≡ answer o
    → Accepted customer' amount'
    → create_order customer' amount'
        (c ∷ key)
        (create_all between (create_order customer amount (c ∷ key) s).0)
      ≡ (create_all between (create_order customer amount (c ∷ key) s).0, answer o)
created_once_from s customer amount c key o between customer' amount' h e ok =
    let t = (create_order customer amount (c ∷ key) s).0 in
    let open_up = create_order_answers customer (c ∷ key) amount s o e in
    let made =
      created_key customer amount c key s o
        (ap (λ (r : OrderStore × Outcome). r.1) (sym open_up) ∙ e) in
    let (valid, _) = create_order-GoesOn customer amount (c ∷ key) s h in
    let (_, kept) = create_all-GoesOn between t valid in
    let (id, known, found) =
      subst (λ (r : OrderStore × Outcome). HasKey (c ∷ key) o r.0) (sym open_up) made in
    open_create customer' (c ∷ key) amount' (create_all between t) ok
    ∙ known_key customer' amount' c key (create_all between t) o
        (id, kept.keys (c ∷ key) id known, kept.orders id o found)

-- No call panics: a key that is known has its order.
create_for_key-ne-panicked :
    (customer key : Bytes) (amount : ℤ) (s : OrderStore)
    → IsValid s
    → (create_for_key customer amount key s).1 ≢ panicked
create_for_key-ne-panicked customer [] amount s h = unfold create_for_key add_order in λ e. cc
create_for_key-ne-panicked customer (c ∷ key) amount s h =
    elim (Option-cases (find bytes_discrete (c ∷ key) s.by_idempotency_key)) [
      | inl free ↦ rw (create_new customer amount c key s free) (unfold add_order in λ e. cc)
      | inr (id, known) ↦ elim (Option-cases (find int_discrete id s.orders)) [
        | inl gone ↦ absurd (h.keyed (c ∷ key) id known gone)
        | inr (o, found) ↦
            rw (create_known customer amount c key s id known, stored_order-answer id o s found)
              (λ e. cc)
      ]
    ]

create_order-ne-panicked :
    (customer key : Bytes) (amount : ℤ) (s : OrderStore)
    → IsValid s
    → (create_order customer amount key s).1 ≢ panicked
unfolding create_order
create_order-ne-panicked [] key amount s h = λ e. cc
create_order-ne-panicked (c ∷ customer) key amount s h = elim (Bool-cases (leb_ℤ amount (pos 0))) [
  | inl low ↦ rw low (λ e. cc)
  | inr high ↦ rw high (create_for_key-ne-panicked (c ∷ customer) key amount s h)
]

-- After any calls of CreateOrder on a new store, one under a key that returns an order, and any calls
-- after it: a call with the same key for a customer and a positive amount returns that order and
-- changes nothing, and no call panics.
pub created_once :
    (before between : List CreateRequest) (customer customer' : Bytes) (amount amount' : ℤ) (c : ℕ)
    (key : Bytes) (o : Order)
    → (create_order customer amount (c ∷ key) (create_all before new_order_store)).1 ≡ answer o
    → Accepted customer' amount'
    → let t =
        create_all between
          (create_order customer amount (c ∷ key) (create_all before new_order_store)).0 in
      (create_order customer' amount' (c ∷ key) t ≡ (t, answer o))
      × ((name k : Bytes) (n : ℤ) → (create_order name n k t).1 ≢ panicked)
created_once before between customer customer' amount amount' c key o e ok =
    let s = create_all before new_order_store in
    let (valid, _) = create_all-GoesOn before new_order_store new_order_store-IsValid in
    let (next, _) = create_order-GoesOn customer amount (c ∷ key) s valid in
    let (last, _) = create_all-GoesOn between (create_order customer amount (c ∷ key) s).0 next in
    (
      created_once_from s customer amount c key o between customer' amount' valid e ok,
      λ name k n. create_order-ne-panicked name k n _ last,
    )
