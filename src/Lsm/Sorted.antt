-- ===== src/Lsm/Sorted.antt =====
-- code/lsm_memtable/lsm.go: sorted lists of keys, and inserting a key in order.
use Prim.Native.Nat.Ordering.{eq}
use system_design_handbook.Base.{
  ◌≡◌, ◌≢◌, refl, ◌⊎◌, inl, inr, Bool, true, false, Bool-cases, Option, none, some, List, [], ◌∷◌,
  suc, length, Holds, if◌then◌else◌, arith,
}
use system_design_handbook.Bytes.{Bytes}
use system_design_handbook.Bytes.Order.{
  compare_bytes, ltb_bytes, eqb_bytes, ◌≺◌, compare_bytes_refl, compare_bytes-eq,
  compare_bytes-cases, lt_of_gt, gt_of_lt, lt_trans, ne_of_lt,
}
use system_design_handbook.Lsm.Memtable.{first}
use system_design_handbook.Lsm.Links.{Above, IsSorted, drop_below, insert_sorted}

unfoldable pub has : Bytes → List Bytes → Bool
has key [] = false
has key (j ∷ l) = let rest = has key l in if eqb_bytes j key then true else rest

pub has-insert_sorted :
    (key j : Bytes) (l : List Bytes)
    → has j (insert_sorted key l) ≡ (if eqb_bytes key j then true else has j l)
unfolding has insert_sorted
has-insert_sorted key j [] = refl
has-insert_sorted key j (i ∷ l) = ground (arith, has-insert_sorted key j l)

pub Holds-has : (key : Bytes) (l : List Bytes) → has key l ≡ true → Holds key l
unfolding has
Holds-has key [] h = cc
Holds-has key (j ∷ l) h = elim (Bool-cases (eqb_bytes j key)) [
  | inl same ↦ inl (compare_bytes-eq j key (ground arith))
  | inr other ↦ inr (Holds-has key l (ground arith))
]

pub has-Holds : (key : Bytes) (l : List Bytes) → Holds key l → has key l ≡ true
unfolding has
has-Holds key [] h = absurd h
has-Holds key (j ∷ l) (inl same) = rw same (ground (arith, compare_bytes_refl key))
has-Holds key (j ∷ l) (inr there) = ground (arith, has-Holds key l there)

pub has-Above : (key : Bytes) (l : List Bytes) → Above key l → has key l ≡ false
has-Above key l above = elim (Bool-cases (has key l)) [
  | inl here ↦ absurd (ne_of_lt key key (above key (Holds-has key l here)) refl)
  | inr gone ↦ gone
]

pub Holds-insert_sorted :
    (key j : Bytes) (l : List Bytes) → Holds j (insert_sorted key l) → (key ≡ j) ⊎ Holds j l
unfolding insert_sorted
Holds-insert_sorted key j [] (inl same) = inl same
Holds-insert_sorted key j [] (inr gone) = absurd gone
Holds-insert_sorted key j (i ∷ l) h = elim (Bool-cases (ltb_bytes i key)) [
  | inl lower ↦ elim (rw lower at h) [
    | inl same ↦ inr (inl same)
    | inr there ↦ elim (Holds-insert_sorted key j l there) [
      | inl same ↦ inl same
      | inr old ↦ inr (inr old)
    ]
  ]
  | inr higher ↦ elim (rw higher at h) [ inl same ↦ inl same | inr there ↦ inr there ]
]

pub insert_sorted-Holds :
    (key j : Bytes) (l : List Bytes) → (key ≡ j) ⊎ Holds j l → Holds j (insert_sorted key l)
insert_sorted-Holds key j l h = Holds-has j (insert_sorted key l) (
    rw (has-insert_sorted key j l) (elim h [
      | inl same ↦ rw same (ground (arith, compare_bytes_refl j))
      | inr old ↦ ground (arith, has-Holds j l old)
    ]))

-- A key that is neither below nor equal is above.
pub lt_of_not : (i key : Bytes) → ltb_bytes i key ≡ false → i ≢ key → key ≺ i
lt_of_not i key higher other = ground (arith, lt_of_gt i key, compare_bytes-eq i key)

pub insert_sorted-IsSorted :
    (key : Bytes) (l : List Bytes) → IsSorted l → has key l ≡ false → IsSorted (insert_sorted key l)
unfolding insert_sorted has
insert_sorted-IsSorted key [] sorted new = (λ j gone. absurd gone, tt)
insert_sorted-IsSorted key (i ∷ l) sorted new = elim (Bool-cases (ltb_bytes i key)) [
  | inl lower ↦ rw lower (
    λ j h. elim (Holds-insert_sorted key j l h) [
      | inl same ↦ rw⁻¹ same (ground arith)
      | inr old ↦ sorted.0 j old
    ],
    insert_sorted-IsSorted key l sorted.1 (ground arith),
  )
  | inr higher ↦
      let other : i ≢ key = λ e. ground (arith, compare_bytes_refl key, e) in
      let up = lt_of_not i key higher other in
      rw higher (
        λ j h. elim h [
          | inl same ↦ rw⁻¹ same up
          | inr there ↦ lt_trans key i j up (sorted.0 j there)
        ],
        sorted,
      )
]

pub length-insert_sorted :
    (key : Bytes) (l : List Bytes) → length (insert_sorted key l) ≡ suc (length l)
unfolding insert_sorted
length-insert_sorted key [] = refl
length-insert_sorted key (i ∷ l) = ground (arith, length-insert_sorted key l)

-- The node that a search ends before: the key's own if it is there, and another one or none if not.
abbrev pub Located : Bytes → Bool → Option Bytes → Type 0
Located key here none = here ≡ false
Located key here (some k) =
    ((k ≡ key) × (here ≡ true)) ⊎ ((eqb_bytes k key ≡ false) × (here ≡ false))

pub first-Located :
    (key : Bytes) (l : List Bytes) → IsSorted l → Located key (has key l) (first (drop_below key l))
unfolding first drop_below has
first-Located key [] sorted = refl
first-Located key (j ∷ l) sorted = elim (compare_bytes-cases j key) [
  | inl lower ↦
      let e : has key (j ∷ l) ≡ has key l = ground (arith, lower) in
      let f : drop_below key (j ∷ l) ≡ drop_below key l = ground (arith, lower) in
      rw (e, f) (first-Located key l sorted.1)
  | inr (inl same) ↦
      let own : compare_bytes j key ≡ eq = rw same (compare_bytes_refl key) in
      let e : has key (j ∷ l) ≡ true = ground (arith, own) in
      let f : drop_below key (j ∷ l) ≡ j ∷ l = ground (arith, own) in rw (e, f) (inl (same, refl))
  | inr (inr upper) ↦
      let other = gt_of_lt key j upper in
      let gone = has-Above key l (λ i h. lt_trans key j i upper (sorted.0 i h)) in
      let e : has key (j ∷ l) ≡ false = ground (arith, other, gone) in
      let f : drop_below key (j ∷ l) ≡ j ∷ l = ground (arith, other) in
      rw (e, f) (inr (ground (arith, other), refl))
]
