-- ===== src/Grpc/Listing.antt =====
-- code/grpc_example/rpc.go: what `ListByCustomer` lists, in the stores that `CreateOrder` makes.
use mathlib.Core.Logic.{◌⊎◌, if_pos, if_neg}
use mathlib.Core.Option.{some-injective}
use mathlib.Core.Path.{subst}
use system_design_handbook.Base.{
  ℕ, ℕ_discrete, zero, suc, ◌+◌, ◌≤◌, ◌<◌, ◌≡◌, refl, sym, ap, ◌∙◌, inl, inr, Bool-cases, Option,
  none, some, Option-cases, List, [], ◌∷◌, ◌++◌, Holds, Holds-append_left, Holds-append_right,
  Holds-append_cases, arith,
}
use system_design_handbook.Base.Dict.{find, find-insert}
use system_design_handbook.Bytes.{Bytes, bytes_discrete}
use system_design_handbook.Int.{ℤ, pos, leb_ℤ}
use system_design_handbook.Grpc.Message.{Order}
use system_design_handbook.Grpc.Orders.{
  int_discrete, OrderStore, new_order_store, new_order, add_order, create_for_key, create_order,
  wanted, list_up_to, list_by_customer,
}
use system_design_handbook.Grpc.Stores.{CreateRequest, create_all, create_new, create_known}

-- Every order stands under its own identifier, and that is one of 1, 2, ... up to the last one.
pub record IsNumbered (s : OrderStore) : Type 0 where
  pub numbered :
      (id : ℤ) (o : Order)
      → find int_discrete id s.orders ≡ some o
      → (n : ℕ) × (id ≡ pos (suc n)) × (suc n ≤ s.next_id) × (o.id ≡ id)

-- The customer asked for; an empty one stands for all.
abbrev pub Matches : Bytes → Order → Type 0
Matches [] o = Unit
Matches (c ∷ customer) o = o.customer ≡ c ∷ customer

-- The store has this order, and it is of the customer.
abbrev pub IsWanted : Bytes → OrderStore → Order → Type 0
IsWanted customer s o = (find int_discrete o.id s.orders ≡ some o) × Matches customer o

-- The identifiers ascend strictly from above `lo` and do not pass `hi`.
abbrev pub Between : ℕ → ℕ → List Order → Type 0
Between lo hi [] = lo ≤ hi
Between lo hi (o ∷ os) = (n : ℕ) × (o.id ≡ pos n) × (lo < n) × Between n hi os

-- Exactly the wanted orders, each once, by identifier.
pub record Lists (customer : Bytes) (s : OrderStore) (os : List Order) : Type 0 where
  pub only_wanted : (o : Order) → Holds o os → IsWanted customer s o
  pub all_wanted : (o : Order) → IsWanted customer s o → Holds o os
  pub ascending : Between 0 s.next_id os

new_order_store-IsNumbered : IsNumbered new_order_store
unfolding find
new_order_store-IsNumbered = record { numbered = λ id o e. cc e }

-- The order just made.
new_order-numbered :
    (customer : Bytes) (amount : ℤ) (last : ℕ) (id : ℤ) (o : Order)
    → pos (last + 1) ≡ id
    → new_order (last + 1) customer amount ≡ o
    → (n : ℕ) × (id ≡ pos (suc n)) × (suc n ≤ last + 1) × (o.id ≡ id)
unfolding new_order
new_order-numbered customer amount last id o same made =
    (last, sym same ∙ ap pos (omega arith), omega arith, sym (ap (λ (x : Order). x.id) made) ∙ same)

add_order-IsNumbered :
    (customer : Bytes) (amount : ℤ) (key : Bytes) (s : OrderStore)
    → IsNumbered s
    → IsNumbered (add_order customer amount key s).0
unfolding add_order
add_order-IsNumbered customer amount key s h =
    let new = pos (s.next_id + 1) in
    let made = new_order (s.next_id + 1) customer amount in
    record {
      numbered = λ id o e.
          let after = find-insert int_discrete new id made s.orders in
          elim (int_discrete new id) [
            | yes same ↦
                new_order-numbered customer amount s.next_id id o same
                  (some-injective made o (sym (after ∙ if_pos (int_discrete new id) same _ _) ∙ e))
            | no other ↦
                let old = sym (after ∙ if_neg (int_discrete new id) other _ _) ∙ e in
                let (n, p, le, q) = h.numbered id o old in (n, p, omega (arith, le), q)
          ];
    }

create_for_key-IsNumbered :
    (customer : Bytes) (amount : ℤ) (key : Bytes) (s : OrderStore)
    → IsNumbered s
    → IsNumbered (create_for_key customer amount key s).0
create_for_key-IsNumbered customer amount [] s h =
    unfold create_for_key in add_order-IsNumbered customer amount [] s h
create_for_key-IsNumbered customer amount (c ∷ key) s h =
    elim (Option-cases (find bytes_discrete (c ∷ key) s.by_idempotency_key)) [
      | inl free ↦
          rw (create_new customer amount c key s free)
            (add_order-IsNumbered customer amount (c ∷ key) s h)
      | inr (id, e) ↦ rw (create_known customer amount c key s id e) h
    ]

create_order-IsNumbered :
    (customer : Bytes) (amount : ℤ) (key : Bytes) (s : OrderStore)
    → IsNumbered s
    → IsNumbered (create_order customer amount key s).0
unfolding create_order
create_order-IsNumbered [] amount key s h = h
create_order-IsNumbered (c ∷ customer) amount key s h = elim (Bool-cases (leb_ℤ amount (pos 0))) [
  | inl low ↦ rw low h
  | inr high ↦ rw high (create_for_key-IsNumbered (c ∷ customer) amount key s h)
]

create_all-IsNumbered :
    (rs : List CreateRequest) (s : OrderStore) → IsNumbered s → IsNumbered (create_all rs s)
unfolding create_all
create_all-IsNumbered [] s h = h
create_all-IsNumbered (r ∷ rs) s h =
    create_all-IsNumbered rs _ (create_order-IsNumbered r.customer r.amount r.key s h)

wanted_dec :
    (customer : Bytes) (o : Order) (d : Dec (o.customer ≡ customer))
    → let os : List Order = elim d [ yes _ ↦ o ∷ [] | no _ ↦ [] ] in
      ((o.customer ≡ customer) × (os ≡ o ∷ [])) ⊎ (¬ (o.customer ≡ customer) × (os ≡ []))
wanted_dec customer o (yes same) = inl (same, refl)
wanted_dec customer o (no other) = inr (other, refl)

wanted-cases :
    (customer : Bytes) (o : Order)
    → (Matches customer o × (wanted customer o ≡ o ∷ []))
      ⊎ (¬ Matches customer o × (wanted customer o ≡ []))
unfolding wanted
wanted-cases [] o = inl (tt, refl)
wanted-cases (c ∷ customer) o =
    wanted_dec (c ∷ customer) o (bytes_discrete o.customer (c ∷ customer))

Holds-wanted :
    (customer : Bytes) (o x : Order) → Holds x (wanted customer o) → (o ≡ x) × Matches customer x
Holds-wanted customer o x h = elim (wanted-cases customer o) [
  | inl (match, e) ↦ only match (rw e at h)
  | inr (other, e) ↦ absurd (rw e at h)
]
  where
    only : Matches customer o → Holds x (o ∷ []) → (o ≡ x) × Matches customer x
    only match (inl e) = (e, subst (Matches customer) e match)
    only match (inr nothing) = absurd nothing

wanted-Holds : (customer : Bytes) (o : Order) → Matches customer o → Holds o (wanted customer o)
wanted-Holds customer o h = elim (wanted-cases customer o) [
  | inl (match, e) ↦ rw e (inl refl)
  | inr (other, e) ↦ absurd (other h)
]

Between-lower : (lo mid hi : ℕ) (os : List Order) → lo ≤ mid → Between mid hi os → Between lo hi os
Between-lower lo mid hi [] le b = omega arith
Between-lower lo mid hi (o ∷ os) le (n, e, less, b) = (n, e, omega arith, b)

Between-append :
    (lo mid hi : ℕ) (xs ys : List Order)
    → Between lo mid xs
    → Between mid hi ys
    → Between lo hi (xs ++ ys)
Between-append lo mid hi [] ys le b = Between-lower lo mid hi ys le b
Between-append lo mid hi (x ∷ xs) ys (n, e, less, a) b =
    (n, e, less, Between-append n mid hi xs ys a b)

wanted-Between :
    (customer : Bytes) (o : Order) (n : ℕ)
    → o.id ≡ pos (suc n)
    → Between n (suc n) (wanted customer o)
wanted-Between customer o n q = elim (wanted-cases customer o) [
  | inl (match, e) ↦ rw e (suc n, q, omega arith, omega arith)
  | inr (other, e) ↦ rw e (omega arith)
]

-- What one identifier adds to the list.
abbrev entry : Bytes → Option Order → List Order
entry customer none = []
entry customer (some o) = wanted customer o

module _ (customer : Bytes) (s : OrderStore) (h : IsNumbered s) where
  entry-Between :
      (n : ℕ) (found : Option Order)
      → find int_discrete (pos (suc n)) s.orders ≡ found
      → Between n (suc n) (entry customer found)
  entry-Between n none e = omega arith
  entry-Between n (some o) e =
      let (m, p, le, q) = h.numbered (pos (suc n)) o e in wanted-Between customer o n q

  entry-IsWanted :
      (n : ℕ) (found : Option Order) (o : Order)
      → find int_discrete (pos (suc n)) s.orders ≡ found
      → Holds o (entry customer found)
      → IsWanted customer s o
  entry-IsWanted n none o e held = absurd held
  entry-IsWanted n (some x) o e held =
      let (same, match) = Holds-wanted customer x o held in
      let (m, p, le, q) = h.numbered (pos (suc n)) x e in
      let id = sym (ap (λ (y : Order). y.id) same) ∙ q in
      (ap (λ i. find int_discrete i s.orders) id ∙ e ∙ ap some same, match)

  list_up_to-Between : (n : ℕ) → Between 0 n (list_up_to n customer s)
  unfolding list_up_to
  list_up_to-Between zero = omega arith
  list_up_to-Between (suc n) =
      Between-append 0 n (suc n) (list_up_to n customer s) _ (list_up_to-Between n)
        (entry-Between n (find int_discrete (pos (suc n)) s.orders) refl)

  list_up_to-IsWanted :
      (n : ℕ) (o : Order) → Holds o (list_up_to n customer s) → IsWanted customer s o
  unfolding list_up_to
  list_up_to-IsWanted zero o held = absurd held
  list_up_to-IsWanted (suc n) o held =
      elim (Holds-append_cases o (list_up_to n customer s) _ held) [
        | inl before ↦ list_up_to-IsWanted n o before
        | inr last ↦ entry-IsWanted n (find int_discrete (pos (suc n)) s.orders) o refl last
      ]

  IsWanted-list_up_to :
      (n m : ℕ) (o : Order)
      → IsWanted customer s o
      → o.id ≡ pos (suc m)
      → suc m ≤ n
      → Holds o (list_up_to n customer s)
  unfolding list_up_to
  IsWanted-list_up_to zero m o w e le = absurd (omega (arith, le))
  IsWanted-list_up_to (suc n) m o w e le = elim (ℕ_discrete m n) [
    | yes same ↦
        let found =
          ap (λ i. find int_discrete i s.orders) (ap (λ k. pos (suc k)) (sym same) ∙ sym e) in
        Holds-append_right o (list_up_to n customer s) _
          (rw (found ∙ w.0) (wanted-Holds customer o w.1))
    | no other ↦
        Holds-append_left o (list_up_to n customer s) _
          (IsWanted-list_up_to n m o w e (omega (arith, le, other)))
  ]

  list_by_customer-Lists : Lists customer s (list_by_customer customer s)
  unfolding list_by_customer
  list_by_customer-Lists = record {
    only_wanted = list_up_to-IsWanted s.next_id;
    all_wanted = λ o w.
        let (m, p, le, q) = h.numbered o.id o w.0 in IsWanted-list_up_to s.next_id m o w p le;
    ascending = list_up_to-Between s.next_id;
  }

-- ListByCustomer returns exactly the orders that the store has for the customer (an empty one stands
-- for all), each once and by identifier, in every store that calls of CreateOrder make.
pub create_all-Lists :
    (rs : List CreateRequest) (customer : Bytes)
    → let s = create_all rs new_order_store in Lists customer s (list_by_customer customer s)
create_all-Lists rs customer =
    list_by_customer-Lists customer (create_all rs new_order_store)
      (create_all-IsNumbered rs new_order_store new_order_store-IsNumbered)
