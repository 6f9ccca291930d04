-- ===== src/Lsm/Links.antt =====
-- code/lsm_memtable/lsm.go: in one sorted level, every walk from a node before the key ends just
-- before the place of the key.
use mathlib.Core.Logic.{if_pos, if_neg}
use system_design_handbook.Base.{
  ◌≡◌, ◌≢◌, refl, inl, inr, true, Bool-cases, Option, none, some, List, [], ◌∷◌, Holds,
  if◌then◌else◌, arith,
}
use system_design_handbook.Bytes.{Bytes, bytes_discrete}
use system_design_handbook.Bytes.Order.{ltb_bytes, ◌≺◌, lt_trans, ne_of_lt}
use system_design_handbook.Lsm.Memtable.{after, walk, insert_after}

-- Every key of the list is above this one.
abbrev pub Above : Bytes → List Bytes → Type 0
Above k l = (j : Bytes) → Holds j l → k ≺ j

abbrev pub IsSorted : List Bytes → Type 0
IsSorted [] = Unit
IsSorted (k ∷ l) = Above k l × IsSorted l

-- The keys from this one on.
unfoldable pub drop_below : Bytes → List Bytes → List Bytes
drop_below key [] = []
drop_below key (j ∷ l) = let rest = drop_below key l in if ltb_bytes j key then rest else j ∷ l

unfoldable pub insert_sorted : Bytes → List Bytes → List Bytes
insert_sorted key [] = key ∷ []
insert_sorted key (j ∷ l) =
    let rest = insert_sorted key l in if ltb_bytes j key then j ∷ rest else key ∷ j ∷ l

-- The head, or a node of the list before the key.
abbrev pub IsBefore : Bytes → List Bytes → Option Bytes → Type 0
IsBefore key l none = Unit
IsBefore key l (some p) = Holds p l × (p ≺ key)

-- The position is just before the place of the key.
pub record Stops (key : Bytes) (l : List Bytes) (x : Option Bytes) : Type 0 where
  pub behind : after x l ≡ drop_below key l
  pub linked : insert_after x key l ≡ insert_sorted key l

ltb_bytes→lt : (a b : Bytes) → ltb_bytes a b ≡ true → a ≺ b
ltb_bytes→lt a b h = ground arith

pub walk-IsBefore :
    (key : Bytes) (l r : List Bytes) (x : Option Bytes)
    → ((j : Bytes) → Holds j r → Holds j l)
    → IsBefore key l x
    → IsBefore key l (walk key x r)
unfolding walk
walk-IsBefore key l [] x sub before = before
walk-IsBefore key l (j ∷ r) x sub before = elim (Bool-cases (ltb_bytes j key)) [
  | inl lower ↦ rw lower (
      walk-IsBefore key l r (some j) (λ i h. sub i (inr h))
        (sub j (inl refl), ltb_bytes→lt j key lower))
  | inr higher ↦ rw higher before
]

Holds-after : (x : Option Bytes) (l : List Bytes) (j : Bytes) → Holds j (after x l) → Holds j l
unfolding after
Holds-after none l j h = h
Holds-after (some p) [] j h = h
Holds-after (some p) (i ∷ l) j h = elim (bytes_discrete i p) [
  | yes same ↦ inr (rw (if_pos _ same) at h)
  | no other ↦ inr (Holds-after (some p) l j (rw (if_neg _ other) at h))
]

-- One node more in front.
Stops-cons :
    (key j z : Bytes) (l : List Bytes)
    → j ≺ key
    → Above j l
    → Holds z l
    → Stops key l (some z)
    → Stops key (j ∷ l) (some z)
unfolding after insert_after drop_below insert_sorted
Stops-cons key j z l low above held s =
    let other = ne_of_lt j z (above z held) in
    record { behind = ground (arith, s.behind); linked = ground (arith, s.linked) }

Stops-step :
    (key j : Bytes) (l : List Bytes) (x : Option Bytes)
    → j ≺ key
    → Above j l
    → x ≢ none
    → IsBefore key l x
    → Stops key l x
    → Stops key (j ∷ l) x
Stops-step key j l none low above here before s = absurd (here refl)
Stops-step key j l (some z) low above here before s = Stops-cons key j z l low above before.0 s

walk-ne-none : (key q : Bytes) (l : List Bytes) → walk key (some q) l ≢ none
unfolding walk
walk-ne-none key q [] = λ e. cc e
walk-ne-none key q (j ∷ l) = elim (Bool-cases (ltb_bytes j key)) [
  | inl lower ↦ rw lower (walk-ne-none key j l)
  | inr higher ↦ rw higher (λ e. cc e)
]

-- From a node with the rest of the list behind it.
walk_on :
    (key p : Bytes) (l : List Bytes)
    → p ≺ key
    → IsSorted (p ∷ l)
    → Stops key (p ∷ l) (walk key (some p) l)
unfolding walk after insert_after drop_below insert_sorted
walk_on key p [] low sorted = record { behind = ground arith; linked = ground arith }
walk_on key p (q ∷ l) low sorted = elim (Bool-cases (ltb_bytes q key)) [
  | inl lower ↦
      let lower' = ltb_bytes→lt q key lower in
      let before = walk-IsBefore key (q ∷ l) l (some q) (λ i h. inr h) (inl refl, lower') in
      rw lower (
        Stops-step key p (q ∷ l) (walk key (some q) l) low sorted.0 (walk-ne-none key q l) before
          (walk_on key q l lower' sorted.1))
  | inr higher ↦ rw higher (record { behind = ground arith; linked = ground arith })
]

-- From a node of the list before the key.
walk_from :
    (key p : Bytes) (l : List Bytes)
    → IsSorted l
    → Holds p l
    → p ≺ key
    → Stops key l (walk key (some p) (after (some p) l))
unfolding after
walk_from key p [] sorted held low = absurd held
walk_from key p (j ∷ l) sorted held low = elim (bytes_discrete j p) [
  | yes same ↦ rw (if_pos _ same) (rw same (walk_on key p l low (rw same at sorted)))
  | no other ↦ rw (if_neg _ other) (elim held [
    | inl same ↦ absurd (other same)
    | inr there ↦
        let before =
          walk-IsBefore key l (after (some p) l) (some p) (Holds-after (some p) l) (there, low) in
        let more = walk-ne-none key p (after (some p) l) in
        Stops-step key j l (walk key (some p) (after (some p) l))
          (lt_trans j p key (sorted.0 p there) low) sorted.0 more before
          (walk_from key p l sorted.1 there low)
  ])
]

walk_head : (key : Bytes) (l : List Bytes) → IsSorted l → Stops key l (walk key none (after none l))
unfolding after walk insert_after drop_below insert_sorted
walk_head key [] sorted = record { behind = refl; linked = refl }
walk_head key (j ∷ l) sorted = elim (Bool-cases (ltb_bytes j key)) [
  | inl lower ↦ rw lower (walk_on key j l (ltb_bytes→lt j key lower) sorted)
  | inr higher ↦ rw higher (record { behind = ground arith; linked = ground arith })
]

-- From any position before the key, the walk stops just before its place, and is before the key.
pub walk-Stops :
    (key : Bytes) (l : List Bytes) (x : Option Bytes)
    → IsSorted l
    → IsBefore key l x
    → Stops key l (walk key x (after x l)) × IsBefore key l (walk key x (after x l))
walk-Stops key l (some p) sorted before = (
  walk_from key p l sorted before.0 before.1,
  walk-IsBefore key l (after (some p) l) (some p) (Holds-after (some p) l) before,
)
walk-Stops key l none sorted before =
    (walk_head key l sorted, walk-IsBefore key l (after none l) none (Holds-after none l) tt)
