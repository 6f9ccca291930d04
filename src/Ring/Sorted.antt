-- ===== src/Ring/Sorted.antt =====
-- code/consistent_hashing/ring.go: the positions stay sorted.
use system_design_handbook.Base.{
  ℕ, ◌≤◌, ◌≡◌, refl, ap, ◌∙◌, inl, inr, false, Bool-cases, List, [], ◌∷◌, ◌++◌, ltb, arith,
}
use system_design_handbook.Ring.Positions.{
  Ring, insert_sorted, sort_into, place_all, add, keep_others, remove, owns,
}

-- Ascending from `lo` on.
abbrev pub From : ℕ → List ℕ → Type 0
From lo [] = Unit
From lo (p ∷ ps) = (lo ≤ p) × From p ps

abbrev pub IsSorted : List ℕ → Type 0
IsSorted ps = From 0 ps

From-insert : (lo p : ℕ) (ps : List ℕ) → lo ≤ p → From lo ps → From lo (insert_sorted p ps)
unfolding insert_sorted
From-insert lo p [] h f = (h, tt)
From-insert lo p (x ∷ xs) h f = elim (Bool-cases (ltb p x)) [
  | inl lt ↦ rw lt (h, (ground arith, f.1))
  | inr ge ↦ rw ge (f.0, From-insert x p xs (ground arith) f.1)
]

IsSorted-sort_into : (acc ps : List ℕ) → IsSorted acc → IsSorted (sort_into acc ps)
unfolding sort_into
IsSorted-sort_into acc [] h = h
IsSorted-sort_into acc (p ∷ ps) h =
    IsSorted-sort_into (insert_sorted p acc) ps (From-insert 0 p acc (omega arith) h)

-- Sorting what is sorted already changes nothing.
insert_sorted-last :
    (lo p : ℕ) (acc ps : List ℕ) → From lo (acc ++ (p ∷ ps)) → insert_sorted p acc ≡ acc ++ (p ∷ [])
unfolding insert_sorted
insert_sorted-last lo p [] ps f = refl
insert_sorted-last lo p (x ∷ xs) ps f =
    let later = below_last x p xs ps f.1 in
    let test : ltb p x ≡ false = ground arith in
    rw test (ap (◌∷◌ x) (insert_sorted-last x p xs ps f.1))
  where
    below_last : (low q : ℕ) (ys zs : List ℕ) → From low (ys ++ (q ∷ zs)) → low ≤ q
    below_last low q [] zs g = g.0
    below_last low q (y ∷ ys) zs g = omega (arith, g.0, below_last y q ys zs g.1)

append_middle : (acc : List ℕ) (p : ℕ) (ps : List ℕ) → (acc ++ (p ∷ [])) ++ ps ≡ acc ++ (p ∷ ps)
append_middle [] p ps = refl
append_middle (x ∷ xs) p ps = ap (◌∷◌ x) (append_middle xs p ps)

sort_into_sorted : (acc ps : List ℕ) → IsSorted (acc ++ ps) → sort_into acc ps ≡ acc ++ ps
unfolding sort_into
sort_into_sorted acc [] f = nil acc
  where
    nil : (xs : List ℕ) → xs ≡ xs ++ []
    nil [] = refl
    nil (x ∷ xs) = ap (◌∷◌ x) (nil xs)
sort_into_sorted acc (p ∷ ps) f =
    rw (insert_sorted-last 0 p acc ps f) (
      sort_into_sorted (acc ++ (p ∷ [])) ps (rw (append_middle acc p ps) f)
      ∙ append_middle acc p ps)

pub sort_into-append :
    (acc ps qs : List ℕ) → sort_into acc (ps ++ qs) ≡ sort_into (sort_into acc ps) qs
unfolding sort_into
sort_into-append acc [] qs = refl
sort_into-append acc (p ∷ ps) qs = sort_into-append (insert_sorted p acc) ps qs

pub resort : (ps qs : List ℕ) → IsSorted ps → sort_into [] (ps ++ qs) ≡ sort_into ps qs
resort ps qs h =
    sort_into-append [] ps qs ∙ ap (λ (acc : List ℕ). sort_into acc qs) (sort_into_sorted [] ps h)

module _ {K : Type 0} (dec : Discrete K) where
  From-lower : (lo lo' : ℕ) (ps : List ℕ) → lo' ≤ lo → From lo ps → From lo' ps
  From-lower lo lo' [] h f = tt
  From-lower lo lo' (p ∷ ps) h f = (omega arith, f.1)

  From-keep_others :
      (blank node : K) (lo : ℕ) (ps : List ℕ) (owners : List (ℕ × K))
      → From lo ps
      → From lo (keep_others dec blank node ps owners).0
  unfolding keep_others
  From-keep_others blank node lo [] owners f = tt
  From-keep_others blank node lo (p ∷ ps) owners f =
      elim (Bool-cases (owns dec blank node owners p)) [
        | inl mine ↦ rw mine (From-lower p lo _ f.0 (From-keep_others blank node p ps _ f.1))
        | inr other ↦ rw other (f.0, From-keep_others blank node p ps owners f.1)
      ]

  pub add-IsSorted :
      (place : K → ℕ → ℕ) (node : K) (r : Ring K)
      → IsSorted r.positions
      → IsSorted (add dec place node r).positions
  unfolding add
  add-IsSorted place node r h = ground (
    arith,
    h,
    IsSorted-sort_into [] (place_all dec place node r.virtual_nodes r.positions r.owners).0 tt,
  )

  pub remove-IsSorted :
      (blank node : K) (r : Ring K)
      → IsSorted r.positions
      → IsSorted (remove dec blank node r).positions
  unfolding remove
  remove-IsSorted blank node r h =
      ground (arith, h, From-keep_others blank node 0 r.positions r.owners h)
