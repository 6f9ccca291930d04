-- ===== src/Lru/Recency.antt =====
-- code/lru_cache/lru.go: the specification, a list of pairs with the most recent one first, and facts
-- about lists in which no key stands twice.
use mathlib.Core.Logic.{if_pos, if_neg}
use system_design_handbook.Base.{
  ℕ, suc, ◌≡◌, refl, ap, sym, ◌∙◌, Option, none, some, List, [], ◌∷◌, length, leb, if◌then◌else◌,
  arith,
}
use system_design_handbook.Base.Dict.{find, insert, erase, find-insert, find-erase}
use system_design_handbook.Lru.Cache.{unlink}

-- All but the last.
unfoldable pub drop_last : {A : Type 0} → List A → List A
drop_last [] = []
drop_last (x ∷ []) = []
drop_last (x ∷ y ∷ ys) = x ∷ drop_last (y ∷ ys)

module _ {K V : Type 0} (dec : Discrete K) where
  abbrev pub keys : List (K × V) → List K
  keys [] = []
  keys ((k, v) ∷ m) = k ∷ keys m

  -- No key stands twice.
  abbrev pub IsUnique : List (K × V) → Type 0
  IsUnique [] = Unit
  IsUnique ((k, v) ∷ m) = (find dec k m ≡ none) × IsUnique m

  -- A pair that is read goes to the front.
  unfoldable pub recent_get : K → Option V → List (K × V) → List (K × V)
  recent_get k none l = l
  recent_get k (some v) l = (k, v) ∷ erase dec k l

  -- A pair that is written goes to the front; a new key pushes out the last one of a full list.
  unfoldable pub recent_put : ℕ → K → V → Option V → List (K × V) → List (K × V)
  recent_put capacity k v (some _) l = (k, v) ∷ erase dec k l
  recent_put capacity k v none l = (k, v) ∷ (if leb capacity (length l) then drop_last l else l)

  erase_absent : (k : K) (m : List (K × V)) → find dec k m ≡ none → erase dec k m ≡ m
  unfolding find erase
  erase_absent k [] h = refl
  erase_absent k ((j, w) ∷ m) h = ground (arith, erase_absent k m)

  pub unlink-keys :
      (k : K) (m : List (K × V)) → IsUnique m → unlink dec k (keys m) ≡ keys (erase dec k m)
  unfolding unlink erase
  unlink-keys k [] u = refl
  unlink-keys k ((j, w) ∷ m) u = elim (dec j k) [
    | yes e ↦
        let same : erase dec k m ≡ m = erase_absent k m (rw e at u.0) in
        rw
          (
            if_pos (dec j k) e (keys m) (j ∷ unlink dec k (keys m)),
            if_pos (dec j k) e (erase dec k m) ((j, w) ∷ erase dec k m),
          )
          (ap keys (sym same))
    | no ne ↦
        rw
          (
            if_neg (dec j k) ne (keys m) (j ∷ unlink dec k (keys m)),
            if_neg (dec j k) ne (erase dec k m) ((j, w) ∷ erase dec k m),
          )
          (ap (◌∷◌ j) (unlink-keys k m u.1))
  ]

  pub IsUnique-erase : (k : K) (m : List (K × V)) → IsUnique m → IsUnique (erase dec k m)
  unfolding erase
  IsUnique-erase k [] u = tt
  IsUnique-erase k ((j, w) ∷ m) u = elim (dec j k) [
    | yes e ↦ rw (if_pos (dec j k) e _ _) (IsUnique-erase k m u.1)
    | no ne ↦
        rw (if_neg (dec j k) ne _ _)
          (ground (arith, find-erase dec k j m, u.0), IsUnique-erase k m u.1)
  ]

  pub IsUnique-insert :
      (k : K) (v : V) (m : List (K × V)) → IsUnique m → IsUnique (insert dec k v m)
  unfolding insert
  IsUnique-insert k v [] u = (unfold find in refl, tt)
  IsUnique-insert k v ((j, w) ∷ m) u = elim (dec j k) [
    | yes e ↦ rw (if_pos (dec j k) e _ _) (rw e at u)
    | no ne ↦
        rw (if_neg (dec j k) ne _ _)
          (ground (arith, find-insert dec k j v m, u.0), IsUnique-insert k v m u.1)
  ]

  pub length-insert_new :
      (k : K) (v : V) (m : List (K × V))
      → find dec k m ≡ none
      → length (insert dec k v m) ≡ suc (length m)
  unfolding find insert
  length-insert_new k v [] h = refl
  length-insert_new k v ((j, w) ∷ m) h = ground (arith, length-insert_new k v m)

  pub length-insert_old :
      (k : K) (v w : V) (m : List (K × V))
      → find dec k m ≡ some w
      → length (insert dec k v m) ≡ length m
  unfolding find insert
  length-insert_old k v w [] h = ground arith
  length-insert_old k v w ((j, x) ∷ m) h = ground (arith, length-insert_old k v w m)

  pub length-erase :
      (k : K) (w : V) (m : List (K × V))
      → IsUnique m
      → find dec k m ≡ some w
      → suc (length (erase dec k m)) ≡ length m
  unfolding find erase
  length-erase k w [] u h = ground arith
  length-erase k w ((j, x) ∷ m) u h = elim (dec j k) [
    | yes e ↦
        let same : erase dec k m ≡ m = erase_absent k m (rw e at u.0) in
        rw (if_pos (dec j k) e (erase dec k m) ((j, x) ∷ erase dec k m)) (rw same refl)
    | no ne ↦
        let rest = length-erase k w m u.1 (sym (if_neg (dec j k) ne (some x) (find dec k m)) ∙ h) in
        rw (if_neg (dec j k) ne (erase dec k m) ((j, x) ∷ erase dec k m)) (ap suc rest)
  ]
