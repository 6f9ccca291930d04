-- ===== src/Bytes/Order.antt =====
-- How Go orders strings: byte by byte, a proper prefix first.
use Prim.Native.Nat.{compare, Ordering}
use Prim.Native.Nat.Ordering.{lt, eq, gt}
use system_design_handbook.Base.{◌≡◌, ◌≢◌, refl, ◌⊎◌, Bool, true, false, [], ◌∷◌, arith}
use system_design_handbook.Bytes.{Bytes}

unfoldable pub compare_bytes : Bytes → Bytes → Ordering
compare_bytes [] [] = eq
compare_bytes [] (y ∷ ys) = lt
compare_bytes (x ∷ xs) [] = gt
compare_bytes (x ∷ xs) (y ∷ ys) =
    let rest = compare_bytes xs ys in elim (compare x y) [ lt ↦ lt | eq ↦ rest | gt ↦ gt ]

abbrev pub ltb_bytes : Bytes → Bytes → Bool
ltb_bytes a b = elim (compare_bytes a b) [ lt ↦ true | _ ↦ false ]

abbrev pub eqb_bytes : Bytes → Bytes → Bool
eqb_bytes a b = elim (compare_bytes a b) [ eq ↦ true | _ ↦ false ]

infix 50 ◌≺◌
abbrev pub ◌≺◌ : Bytes → Bytes → Type 0
a ≺ b = compare_bytes a b ≡ lt

pub compare_bytes_refl : (a : Bytes) → compare_bytes a a ≡ eq
unfolding compare_bytes
compare_bytes_refl [] = refl
compare_bytes_refl (x ∷ a) = ground (arith, compare_bytes_refl a)

pub compare_bytes-eq : (a b : Bytes) → compare_bytes a b ≡ eq → a ≡ b
unfolding compare_bytes
compare_bytes-eq [] [] e = refl
compare_bytes-eq [] (y ∷ b) e = cc
compare_bytes-eq (x ∷ a) [] e = cc
compare_bytes-eq (x ∷ a) (y ∷ b) e = ground (arith, compare_bytes-eq a b)

pub lt_of_gt : (a b : Bytes) → compare_bytes a b ≡ gt → b ≺ a
unfolding compare_bytes
lt_of_gt [] [] e = cc
lt_of_gt [] (y ∷ b) e = cc
lt_of_gt (x ∷ a) [] e = refl
lt_of_gt (x ∷ a) (y ∷ b) e = ground (arith, lt_of_gt a b)

pub gt_of_lt : (a b : Bytes) → a ≺ b → compare_bytes b a ≡ gt
unfolding compare_bytes
gt_of_lt [] [] e = cc
gt_of_lt [] (y ∷ b) e = refl
gt_of_lt (x ∷ a) [] e = cc
gt_of_lt (x ∷ a) (y ∷ b) e = ground (arith, gt_of_lt a b)

pub lt_trans : (a b c : Bytes) → a ≺ b → b ≺ c → a ≺ c
unfolding compare_bytes
lt_trans [] [] c e f = cc
lt_trans [] (y ∷ b) [] e f = cc
lt_trans [] (y ∷ b) (z ∷ c) e f = refl
lt_trans (x ∷ a) [] c e f = cc
lt_trans (x ∷ a) (y ∷ b) [] e f = cc
lt_trans (x ∷ a) (y ∷ b) (z ∷ c) e f = ground (arith, lt_trans a b c)

pub ne_of_lt : (a b : Bytes) → a ≺ b → a ≢ b
ne_of_lt a b e same = let own = compare_bytes_refl b in absurd (let t = rw same at e in cc)

pub compare_bytes-cases : (a b : Bytes) → (a ≺ b) ⊎ ((a ≡ b) ⊎ (b ≺ a))
compare_bytes-cases a b = ground (arith, compare_bytes-eq a b, lt_of_gt a b)
