-- ===== src/Base/Lists.antt =====
-- Lists measured and indexed by native numbers, under the library's names.
use Prim.Native.Nat.{ℕ, zero, suc, ◌+◌, ◌≤◌}
use mathlib.Core.Path.{◌≡◌}
use mathlib.Core.List.{List, [], ◌∷◌, ◌++◌}
use mathlib.Core.Logic.{◌⊎◌, inl, inr}
use native.Mathlib.Omega.{arith}

module _ {ℓ} {A : Type ℓ} where
  abbrev pub length : List A → ℕ
  length [] = 0
  length (x ∷ xs) = suc (length xs)

  abbrev pub take : ℕ → List A → List A
  take zero xs = []
  take (suc n) [] = []
  take (suc n) (x ∷ xs) = x ∷ take n xs

  pub length-append : (xs ys : List A) → length (xs ++ ys) ≡ length xs + length ys
  length-append [] ys = omega arith
  length-append (x ∷ xs) ys = omega (arith, length-append xs ys)

  pub length-take-le : (n : ℕ) (xs : List A) → length (take n xs) ≤ n
  length-take-le zero xs = omega arith
  length-take-le (suc n) [] = omega arith
  length-take-le (suc n) (x ∷ xs) = omega (arith, length-take-le n xs)

-- The element stands in the list.
abbrev pub Holds : {A : Type 0} → A → List A → Type 0
Holds a [] = ⊥
Holds a (x ∷ xs) = (x ≡ a) ⊎ Holds a xs

pub Holds-append_left : {A : Type 0} (a : A) (xs ys : List A) → Holds a xs → Holds a (xs ++ ys)
Holds-append_left a [] ys h = elim h [ ]
Holds-append_left a (x ∷ xs) ys (inl e) = inl e
Holds-append_left a (x ∷ xs) ys (inr h) = inr (Holds-append_left a xs ys h)

pub Holds-append_right : {A : Type 0} (a : A) (xs ys : List A) → Holds a ys → Holds a (xs ++ ys)
Holds-append_right a [] ys h = h
Holds-append_right a (x ∷ xs) ys h = inr (Holds-append_right a xs ys h)

pub Holds-append_cases :
    {A : Type 0} (a : A) (xs ys : List A) → Holds a (xs ++ ys) → Holds a xs ⊎ Holds a ys
Holds-append_cases a [] ys h = inr h
Holds-append_cases a (x ∷ xs) ys (inl e) = inl (inl e)
Holds-append_cases a (x ∷ xs) ys (inr h) = elim (Holds-append_cases a xs ys h) [
  | inl l ↦ inl (inr l)
  | inr r ↦ inr r
]
