-- ===== src/Merkle/Levels.antt =====
-- code/merkle_tree/merkle.go: the loop of `Build` over the levels ends with a root, which has all pairs
-- in their order.
use mathlib.Core.List.{append_assoc, append-nil}
use system_design_handbook.Base.{
  ℕ, zero, suc, ◌≤◌, ◌≡◌, refl, sym, ap, ◌∙◌, Option, none, some, List, [], ◌∷◌, ◌++◌, length, map,
  arith,
}
use system_design_handbook.Bytes.{Bytes}
use system_design_handbook.Merkle.Tree.{join_pairs, build_levels}
use system_design_handbook.Merkle.Plans.{Plan, join, items, AllClean}

length-join_pairs {ℓ} :
    {A : Type ℓ} (j : A → A → A) (xs : List A) → length (join_pairs j xs) ≤ length xs
unfolding join_pairs
length-join_pairs j [] = omega arith
length-join_pairs j (x ∷ []) = omega arith
length-join_pairs j (x ∷ y ∷ xs) = omega (arith, length-join_pairs j xs)

-- A round for every node is enough.
pub build_levels_ends {ℓ} :
    {A : Type ℓ} (j : A → A → A) (fuel : ℕ) (x : A) (xs : List A)
    → length xs ≤ fuel
    → (r : A) × (build_levels j fuel (x ∷ xs) ≡ some r)
unfolding build_levels join_pairs
build_levels_ends j fuel x [] h = (x, refl)
build_levels_ends j zero x (y ∷ xs) h = absurd (omega arith)
build_levels_ends j (suc fuel) x (y ∷ xs) h =
    build_levels_ends j fuel (j x y) (join_pairs j xs) (omega (arith, length-join_pairs j xs))

abbrev pub map_root {ℓ κ} : {A : Type ℓ} {B : Type κ} → (A → B) → Option A → Option B
map_root g none = none
map_root g (some x) = some (g x)

module _ {A B : Type 0} (g : A → B) (j : A → A → A) (i : B → B → B)
    (joins : (x y : A) → g (j x y) ≡ i (g x) (g y)) where
  map-join_pairs : (xs : List A) → map g (join_pairs j xs) ≡ join_pairs i (map g xs)
  unfolding join_pairs
  map-join_pairs [] = refl
  map-join_pairs (x ∷ []) = refl
  map-join_pairs (x ∷ y ∷ xs) = λ t. joins x y t ∷ map-join_pairs xs t

  -- The loop does not look into the nodes.
  pub map_root-build_levels :
      (fuel : ℕ) (xs : List A)
      → map_root g (build_levels j fuel xs) ≡ build_levels i fuel (map g xs)
  unfolding build_levels
  map_root-build_levels fuel [] = refl
  map_root-build_levels fuel (x ∷ []) = refl
  map_root-build_levels zero (x ∷ y ∷ xs) = refl
  map_root-build_levels (suc fuel) (x ∷ y ∷ xs) =
      map_root-build_levels fuel (j x y ∷ join_pairs j xs)
      ∙ ap (build_levels i fuel) (λ t. joins x y t ∷ map-join_pairs xs t)

abbrev pub all_items : List Plan → List (Bytes × Bytes)
all_items [] = []
all_items (p ∷ ps) = items p ++ all_items ps

abbrev pub EachClean : List Plan → Type 0
EachClean [] = Unit
EachClean (p ∷ ps) = AllClean p × EachClean ps

all_items-join_pairs : (ps : List Plan) → all_items (join_pairs join ps) ≡ all_items ps
unfolding join_pairs
all_items-join_pairs [] = refl
all_items-join_pairs (p ∷ []) = refl
all_items-join_pairs (p ∷ q ∷ ps) =
    append_assoc (items p) (items q) (all_items (join_pairs join ps))
    ∙ ap (λ (l : List (Bytes × Bytes)). items p ++ (items q ++ l)) (all_items-join_pairs ps)

EachClean-join_pairs : (ps : List Plan) → EachClean ps → EachClean (join_pairs join ps)
unfolding join_pairs
EachClean-join_pairs [] h = h
EachClean-join_pairs (p ∷ []) h = h
EachClean-join_pairs (p ∷ q ∷ ps) (h, (i, more)) = ((h, i), EachClean-join_pairs ps more)

pub build_levels-items :
    (fuel : ℕ) (ps : List Plan) (r : Plan)
    → build_levels join fuel ps ≡ some r
    → EachClean ps
    → (items r ≡ all_items ps) × AllClean r
unfolding build_levels join_pairs
build_levels-items fuel [] r e h = cc
build_levels-items fuel (p ∷ []) r e h =
    let same : p ≡ r = cc in rw (← same) (sym (append-nil (items p)), h.0)
build_levels-items zero (p ∷ q ∷ ps) r e h = cc
build_levels-items (suc fuel) (p ∷ q ∷ ps) r e (h, (i, more)) =
    let (same, clean) =
      build_levels-items fuel (join p q ∷ join_pairs join ps) r e
        ((h, i), EachClean-join_pairs ps more) in
    (same ∙ all_items-join_pairs (p ∷ q ∷ ps), clean)
