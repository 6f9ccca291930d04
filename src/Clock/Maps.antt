-- ===== src/Clock/Maps.antt =====
-- Go's `map[string]uint64` as an association list: a missing key reads 0, a write replaces the entry
-- or adds one, and no key stands twice. The keys' type and its equality are parameters.
use mathlib.Core.Logic.{ite, if_pos, if_neg}
use system_design_handbook.Base.{ℕ, ◌≡◌, ◌⊎◌, inl, inr, refl, sym, List, [], ◌∷◌, ◌++◌, arith}

abbrev pub In : {A : Type 0} → A → List A → Type 0
In a [] = ⊥
In a (x ∷ xs) = (x ≡ a) ⊎ In a xs

pub In-append_left : {A : Type 0} (a : A) (xs ys : List A) → In a xs → In a (xs ++ ys)
In-append_left a [] ys h = absurd h
In-append_left a (x ∷ xs) ys (inl e) = inl e
In-append_left a (x ∷ xs) ys (inr h) = inr (In-append_left a xs ys h)

pub In-append_right : {A : Type 0} (a : A) (xs ys : List A) → In a ys → In a (xs ++ ys)
In-append_right a [] ys h = h
In-append_right a (x ∷ xs) ys h = inr (In-append_right a xs ys h)

abbrev pub keys : {K : Type 0} → List (K × ℕ) → List K
keys [] = []
keys ((k, _) ∷ m) = k ∷ keys m

-- No key stands twice.
abbrev pub IsMap : {K : Type 0} → List (K × ℕ) → Type 0
IsMap [] = Unit
IsMap ((k, _) ∷ m) = (In k (keys m) → ⊥) × IsMap m

module _ {K : Type 0} (dec : Discrete K) where
  unfoldable pub get : K → List (K × ℕ) → ℕ
  get k [] = 0
  get k ((j, v) ∷ m) = ite (dec j k) v (get k m)

  unfoldable pub put : K → ℕ → List (K × ℕ) → List (K × ℕ)
  put k v [] = (k, v) ∷ []
  put k v ((j, w) ∷ m) = ite (dec j k) ((k, v) ∷ m) ((j, w) ∷ put k v m)

  pub get-put : (k j : K) (v : ℕ) (m : List (K × ℕ)) → get j (put k v m) ≡ ite (dec k j) v (get j m)
  unfolding get put
  get-put k j v [] = refl
  get-put k j v ((i, w) ∷ m) = ground (arith, get-put k j v m)

  pub get_absent : (k : K) (m : List (K × ℕ)) → (In k (keys m) → ⊥) → get k m ≡ 0
  unfolding get
  get_absent k [] h = refl
  get_absent k ((j, v) ∷ m) h = ground (arith, get_absent k m (λ i. h (inr i)))

  pub get-cases : (k : K) (m : List (K × ℕ)) → (get k m ≡ 0) ⊎ In k (keys m)
  unfolding get
  get-cases k [] = inl refl
  get-cases k ((j, v) ∷ m) = ground (arith, get-cases k m)

  In-put : (k j : K) (v : ℕ) (m : List (K × ℕ)) → In j (keys (put k v m)) → (k ≡ j) ⊎ In j (keys m)
  unfolding put
  In-put k j v [] h = ground arith
  In-put k j v ((i, w) ∷ m) h = ground (arith, In-put k j v m)

  pub IsMap-put : (k : K) (v : ℕ) (m : List (K × ℕ)) → IsMap m → IsMap (put k v m)
  unfolding put
  IsMap-put k v [] h = (λ i. i, tt)
  IsMap-put k v ((j, w) ∷ m) h = elim (dec j k) [
    | yes e ↦ rw (if_pos _ e) (rw e at h)
    | no e ↦
        rw (if_neg _ e)
          (λ i. elim (In-put k j v m i) [ inl p ↦ e (sym p) | inr q ↦ h.0 q ], IsMap-put k v m h.1)
  ]
