-- ===== src/Merkle/Cost.antt =====
-- code/merkle_tree/merkle.go: what `CompareCost` counts for replicas with the same keys.
use system_design_handbook.Base.{
  ℕ, zero, suc, ◌+◌, ◌*◌, ◌^◌, ◌≤◌, ◌≡◌, inl, inr, sym, ap, ◌∙◌, true, Option, none, some,
  Option-cases, List, length, dec_lt, arith,
}
use mathlib.Core.Path.{subst}
use system_design_handbook.Bytes.{Bytes}
use system_design_handbook.Merkle.Tree.{
  hash_of, join_nodes, equal_hash, keys, sort_strings, build_levels, build, cost, cost_roots,
  compare_cost,
}
use system_design_handbook.Merkle.Plans.{Plan, item, join, node_of}
use system_design_handbook.Merkle.Seen.{equal_hash_refl}
use system_design_handbook.Merkle.Levels.{map_root}
use system_design_handbook.Merkle.Pairs.{plan_leaves, plan_of}
use system_design_handbook.Merkle.Repair.{root_is}
use system_design_handbook.Merkle.Changes.{
  SameKeys, changed, Fits, unchanged, changed_keys, plan_leaves-changed, build_levels-changed,
}

spread : (e a b : ℕ) → suc e * (a + b) ≡ e * a + e * b + (a + b)
spread e a b = grind arith

module _ (sha256 : Bytes → Bytes) where
  -- Where no value has changed the hashes are equal.
  same_hash :
      (p q : Plan)
      → SameKeys p q
      → changed p q ≡ 0
      → equal_hash (hash_of (node_of sha256 p)) (hash_of (node_of sha256 q)) ≡ true
  same_hash p q h e =
      ap (λ (x : Plan). equal_hash (hash_of (node_of sha256 p)) (hash_of (node_of sha256 x)))
        (sym (unchanged p q h e))
      ∙ equal_hash_refl (hash_of (node_of sha256 p))

  cost-le :
      (e : ℕ) (p q : Plan)
      → SameKeys p q
      → Fits e p
      → cost (node_of sha256 p) (node_of sha256 q) ≤ 1 + 2 * (e * changed p q)
  unfolding cost hash_of join_nodes
  cost-le e (item k v) q h fits = omega arith
  cost-le e (join l r) (item j w) h fits = elim h [ ]
  cost-le zero (join l r) (join m n) h fits = elim fits [ ]
  cost-le (suc e) (join l r) (join m n) h fits =
      let left = cost-le e l m h.0 fits.0 in
      let right = cost-le e r n h.1 fits.1 in
      let sum = spread e (changed l m) (changed r n) in
      elim (dec_lt 0 (changed l m + changed r n)) [
        | yes some_change ↦ ground (arith, left, right, sum)
        | no none_changed ↦
            let same = same_hash (join l r) (join m n) h (omega arith) in ground (arith, same)
      ]

module _ (sha256 : Bytes → Bytes) (d : ℕ) (a b : List (Bytes × Bytes))
    (same : sort_strings (keys a) ≡ sort_strings (keys b))
    (small : length (sort_strings (keys a)) ≤ 2 ^ d) where
  cost_of_roots :
      (o u : Option Plan)
      → plan_of a ≡ o
      → plan_of b ≡ u
      → compare_cost (build sha256 a) (build sha256 b)
        ≡ cost_roots (map_root (node_of sha256) o) (map_root (node_of sha256) u)
  unfolding compare_cost
  cost_of_roots o u e f = λ t. cost_roots (root_is sha256 a o e t) (root_is sha256 b u f t)

  cost_of_plans :
      (p q : Plan)
      → plan_of a ≡ some p
      → plan_of b ≡ some q
      → cost (node_of sha256 p) (node_of sha256 q)
        ≤ 1 + 2 * (d * changed_keys (sort_strings (keys a)) a b)
  unfolding plan_of
  cost_of_plans p q e f =
      let ks = sort_strings (keys a) in
      let leaves : List Bytes → List Plan = λ l. plan_leaves l b in
      let f' =
        subst (λ (l : List Bytes). build_levels join (length (leaves l)) (leaves l) ≡ some q)
          (sym same) f in
      let (shape, count, flat, size) = plan_leaves-changed ks a b in
      let (alike, total, deep) =
        build_levels-changed d 0 (length (plan_leaves ks a)) (length (leaves ks)) (plan_leaves ks a)
          (leaves ks) p q shape flat (omega arith) e f' in
      let depth : d + 0 ≡ d = omega arith in
      let bound = cost-le sha256 d p q alike (subst (λ (g : ℕ). Fits g p) depth deep) in
      subst (λ (c : ℕ). cost (node_of sha256 p) (node_of sha256 q) ≤ 1 + 2 * (d * c))
        (total ∙ count) bound

  -- For two replicas with the same keys, at most 2^d of them, CompareCost is at most 1 plus 2 * d
  -- for each key of which the values differ.
  pub compare_cost-le :
      compare_cost (build sha256 a) (build sha256 b)
      ≤ 1 + 2 * (d * changed_keys (sort_strings (keys a)) a b)
  unfolding cost_roots
  compare_cost-le = elim (Option-cases (plan_of a)) [
    | inl e ↦ elim (Option-cases (plan_of b)) [
      | inl f ↦ omega (arith, cost_of_roots none none e f)
      | inr (q, f) ↦ omega (arith, cost_of_roots none (some q) e f)
    ]
    | inr (p, e) ↦ elim (Option-cases (plan_of b)) [
      | inl f ↦ omega (arith, cost_of_roots (some p) none e f)
      | inr (q, f) ↦ omega (arith, cost_of_roots (some p) (some q) e f, cost_of_plans p q e f)
    ]
  ]
