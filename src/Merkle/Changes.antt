-- ===== src/Merkle/Changes.antt =====
-- code/merkle_tree/merkle.go: the trees of two replicas with the same keys have one shape, of which the
-- depth is at most the logarithm of their number, and the changed values are at the leaves.
use system_design_handbook.Base.{
  ℕ, zero, suc, ◌+◌, ◌/◌, ◌^◌, ◌≤◌, ◌≡◌, refl, ap, some, List, [], ◌∷◌, length, if◌then◌else◌,
  arith,
}
use mathlib.Core.Path.{subst}
use native.Mathlib.Nat.{pow-suc}
use system_design_handbook.Bytes.{Bytes}
use system_design_handbook.Merkle.Tree.{equal_hash, keys, value_at, join_pairs, build_levels}
use system_design_handbook.Merkle.Plans.{Plan, item, join}
use system_design_handbook.Merkle.Seen.{equal_hash_sound}
use system_design_handbook.Merkle.Pairs.{plan_leaves}

abbrev pub change : Bytes → Bytes → ℕ
change v w = if equal_hash v w then 0 else 1

-- Trees of one shape, with the same keys, and the number of their changed values.
abbrev pub SameKeys : Plan → Plan → Type 0
SameKeys (item k v) (item j w) = k ≡ j
SameKeys (item k v) (join m n) = ⊥
SameKeys (join l r) (item j w) = ⊥
SameKeys (join l r) (join m n) = SameKeys l m × SameKeys r n

abbrev pub changed : Plan → Plan → ℕ
changed (item k v) (item j w) = change v w
changed (item k v) (join m n) = 0
changed (join l r) (item j w) = 0
changed (join l r) (join m n) = changed l m + changed r n

-- Of at most this depth.
abbrev pub Fits : ℕ → Plan → Type 0
Fits e (item k v) = Unit
Fits zero (join l r) = ⊥
Fits (suc e) (join l r) = Fits e l × Fits e r

pub unchanged : (p q : Plan) → SameKeys p q → changed p q ≡ 0 → p ≡ q
unchanged (item k v) (item j w) h e =
    let value : v ≡ w = equal_hash_sound v w (ground arith) in λ t. item (h t) (value t)
unchanged (item k v) (join m n) h e = elim h [ ]
unchanged (join l r) (item j w) h e = elim h [ ]
unchanged (join l r) (join m n) h e =
    let left = unchanged l m h.0 (omega arith) in
    let right = unchanged r n h.1 (omega arith) in λ t. join (left t) (right t)

abbrev pub AllSame : List Plan → List Plan → Type 0
AllSame [] [] = Unit
AllSame [] (q ∷ qs) = ⊥
AllSame (p ∷ ps) [] = ⊥
AllSame (p ∷ ps) (q ∷ qs) = SameKeys p q × AllSame ps qs

abbrev pub all_changed : List Plan → List Plan → ℕ
all_changed [] qs = 0
all_changed (p ∷ ps) [] = 0
all_changed (p ∷ ps) (q ∷ qs) = changed p q + all_changed ps qs

abbrev pub AllFit : ℕ → List Plan → Type 0
AllFit e [] = Unit
AllFit e (p ∷ ps) = Fits e p × AllFit e ps

-- One level up.
Fits-suc : (e : ℕ) (p : Plan) → Fits e p → Fits (suc e) p
Fits-suc e (item k v) h = tt
Fits-suc zero (join l r) h = elim h [ ]
Fits-suc (suc e) (join l r) h = (Fits-suc e l h.0, Fits-suc e r h.1)

AllFit-join_pairs : (e : ℕ) (ps : List Plan) → AllFit e ps → AllFit (suc e) (join_pairs join ps)
unfolding join_pairs
AllFit-join_pairs e [] h = tt
AllFit-join_pairs e (p ∷ []) h = (Fits-suc e p h.0, tt)
AllFit-join_pairs e (p ∷ q ∷ ps) (h, (i, more)) = ((h, i), AllFit-join_pairs e ps more)

join_pairs-halves : (ps : List Plan) → length (join_pairs join ps) ≡ (length ps + 1) / 2
unfolding join_pairs
join_pairs-halves [] = omega arith
join_pairs-halves (p ∷ []) = omega arith
join_pairs-halves (p ∷ q ∷ ps) = omega (arith, join_pairs-halves ps)

join_pairs-changed :
    (ps qs : List Plan)
    → AllSame ps qs
    → AllSame (join_pairs join ps) (join_pairs join qs)
      × (all_changed (join_pairs join ps) (join_pairs join qs) ≡ all_changed ps qs)
unfolding join_pairs
join_pairs-changed [] [] h = (tt, refl)
join_pairs-changed [] (q ∷ qs) h = elim h [ ]
join_pairs-changed (p ∷ ps) [] h = elim h [ ]
join_pairs-changed (p ∷ []) (q ∷ []) h = (h, refl)
join_pairs-changed (p ∷ []) (q ∷ q' ∷ qs) h = elim h.1 [ ]
join_pairs-changed (p ∷ p' ∷ ps) (q ∷ []) h = elim h.1 [ ]
join_pairs-changed (p ∷ p' ∷ ps) (q ∷ q' ∷ qs) (h, (i, more)) =
    let (same, count) = join_pairs-changed ps qs more in (((h, i), same), omega (arith, count))

Fits-add : (d e : ℕ) (p : Plan) → Fits e p → Fits (d + e) p
Fits-add zero e p h = let zeros : e ≡ 0 + e = omega arith in subst (λ (f : ℕ). Fits f p) zeros h
Fits-add (suc d) e p h =
    let next : suc (d + e) ≡ suc d + e = omega arith in
    subst (λ (f : ℕ). Fits f p) next (Fits-suc (d + e) p (Fits-add d e p h))

-- After `d` levels more, from trees of depth `e`.
pub build_levels-changed :
    (d e n m : ℕ) (ps qs : List Plan) (p q : Plan)
    → AllSame ps qs
    → AllFit e ps
    → length ps ≤ 2 ^ d
    → build_levels join n ps ≡ some p
    → build_levels join m qs ≡ some q
    → SameKeys p q × (changed p q ≡ all_changed ps qs) × Fits (d + e) p
unfolding build_levels join_pairs
build_levels-changed d e n m [] qs p q same fits h a b = absurd (cc a)
build_levels-changed d e n m (x ∷ ps) [] p q same fits h a b = elim same [ ]
build_levels-changed d e n m (x ∷ []) (y ∷ []) p q same fits h a b =
    let first : x ≡ p = cc in
    let second : y ≡ q = cc in rw (← first, ← second) (same.0, omega arith, Fits-add d e x fits.0)
build_levels-changed d e n m (x ∷ []) (y ∷ y' ∷ qs) p q same fits h a b = elim same.1 [ ]
build_levels-changed d e n m (x ∷ x' ∷ ps) (y ∷ []) p q same fits h a b = elim same.1 [ ]
build_levels-changed d e zero m (x ∷ x' ∷ ps) (y ∷ y' ∷ qs) p q same fits h a b = absurd (cc a)
build_levels-changed d e (suc n) zero (x ∷ x' ∷ ps) (y ∷ y' ∷ qs) p q same fits h a b =
    absurd (cc b)
build_levels-changed zero e (suc n) (suc m) (x ∷ x' ∷ ps) (y ∷ y' ∷ qs) p q same fits h a b =
    absurd (omega arith)
build_levels-changed (suc d) e (suc n) (suc m) (x ∷ x' ∷ ps) (y ∷ y' ∷ qs) p q same fits h a b =
    let (next, count) = join_pairs-changed (x ∷ x' ∷ ps) (y ∷ y' ∷ qs) same in
    let up = AllFit-join_pairs e (x ∷ x' ∷ ps) fits in
    let half = join_pairs-halves (x ∷ x' ∷ ps) in
    let (keys, total, deep) =
      build_levels-changed d (suc e) n m (join x x' ∷ join_pairs join ps)
        (join y y' ∷ join_pairs join qs) p q next up (omega (arith, half, pow-suc 2 d)) a b in
    let depth : d + suc e ≡ suc d + e = omega arith in
    (keys, omega (arith, total, count), subst (λ (f : ℕ). Fits f p) depth deep)

-- How many of the keys have another value in the other replica.
unfoldable pub changed_keys : List Bytes → List (Bytes × Bytes) → List (Bytes × Bytes) → ℕ
changed_keys [] a b = 0
changed_keys (k ∷ ks) a b = change (value_at k a) (value_at k b) + changed_keys ks a b

pub plan_leaves-changed :
    (ks : List Bytes) (a b : List (Bytes × Bytes))
    → AllSame (plan_leaves ks a) (plan_leaves ks b)
      × (all_changed (plan_leaves ks a) (plan_leaves ks b) ≡ changed_keys ks a b)
      × AllFit 0 (plan_leaves ks a)
      × (length (plan_leaves ks a) ≡ length ks)
unfolding plan_leaves changed_keys
plan_leaves-changed [] a b = (tt, refl, tt, refl)
plan_leaves-changed (k ∷ ks) a b =
    let (same, count, fits, size) = plan_leaves-changed ks a b in
    ((refl, same), omega (arith, count), (tt, fits), ap suc size)
