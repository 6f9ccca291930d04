-- ===== src/Merkle/Repair.antt =====
-- code/merkle_tree/merkle.go: `Diff` of two built trees finds every key of which the replicas disagree.
use mathlib.Core.Path.{subst}
use system_design_handbook.Base.{
  suc, ◌≡◌, ◌≢◌, inl, inr, refl, sym, ap, ◌∙◌, Option, none, some, Option-cases, List, [], ◌∷◌,
  Holds, length, map,
}
use system_design_handbook.Base.Dict.{find}
use system_design_handbook.Bytes.{Bytes, bytes_discrete}
use system_design_handbook.Merkle.Tree.{
  Node, leaf, keys, value_at, key_of, keys_of, sort_strings, join_nodes, build_levels, leaf_nodes,
  hash_leaf, build, diff, diff_roots,
}
use system_design_handbook.Merkle.Plans.{Plan, join, node_of, NoCollision}
use system_design_handbook.Merkle.Seen.{sort_strings_keeps}
use system_design_handbook.Merkle.Covers.{covers_left, covers_right}
use system_design_handbook.Merkle.Levels.{map_root, map_root-build_levels}
use system_design_handbook.Merkle.Pairs.{
  plan_leaves, plan_of, KeysClean, find-Holds, plan_of-items, no_plan,
}

module _ (sha256 : Bytes → Bytes) where
  leaf_nodes-map :
      (ks : List Bytes) (m : List (Bytes × Bytes))
      → map (node_of sha256) (plan_leaves ks m) ≡ leaf_nodes sha256 ks m
  unfolding plan_leaves leaf_nodes
  leaf_nodes-map [] m = refl
  leaf_nodes-map (k ∷ ks) m =
      ap (◌∷◌ (leaf (hash_leaf sha256 k (value_at k m)) k)) (leaf_nodes-map ks m)

  length-leaf_nodes :
      (ks : List Bytes) (m : List (Bytes × Bytes))
      → length (plan_leaves ks m) ≡ length (leaf_nodes sha256 ks m)
  unfolding plan_leaves leaf_nodes
  length-leaf_nodes [] m = refl
  length-leaf_nodes (k ∷ ks) m = ap suc (length-leaf_nodes ks m)

  build-root :
      (m : List (Bytes × Bytes)) → (build sha256 m).root ≡ map_root (node_of sha256) (plan_of m)
  unfolding build plan_of
  build-root m =
      let ks = sort_strings (keys m) in
      let joined =
        map_root-build_levels (node_of sha256) join (join_nodes sha256) (λ x y. refl)
          (length (plan_leaves ks m)) (plan_leaves ks m) in
      sym (
        joined ∙ (λ t.
          build_levels (join_nodes sha256) (length-leaf_nodes ks m t) (leaf_nodes-map ks m t)))

  pub root_is :
      (m : List (Bytes × Bytes)) (o : Option Plan)
      → plan_of m ≡ o
      → (build sha256 m).root ≡ map_root (node_of sha256) o
  root_is m o e = build-root m ∙ ap (map_root (node_of sha256)) e

  keys_of-leaves :
      (ks : List Bytes) (m : List (Bytes × Bytes)) → keys_of (leaf_nodes sha256 ks m) ≡ ks
  unfolding keys_of key_of leaf_nodes
  keys_of-leaves [] m = refl
  keys_of-leaves (k ∷ ks) m = ap (◌∷◌ k) (keys_of-leaves ks m)

  tree_keys :
      (m : List (Bytes × Bytes)) (k v : Bytes)
      → find bytes_discrete k m ≡ some v
      → Holds k (sort_strings (keys_of (build sha256 m).leaves))
  unfolding build
  tree_keys m k v found =
      let ks = sort_strings (keys m) in
      sort_strings_keeps k _
        (rw (keys_of-leaves ks m) (sort_strings_keeps k (keys m) (find-Holds k v m found)))

  module _ (size : (x : Bytes) → length (sha256 x) ≡ 32) (a b : List (Bytes × Bytes))
      (clean_a : KeysClean a) (clean_b : KeysClean b)
      (free : (p q : Plan) → plan_of a ≡ some p → plan_of b ≡ some q → NoCollision sha256 p q) where
    diff_with :
        (x y : Option Node)
        → (build sha256 a).root ≡ x
        → (build sha256 b).root ≡ y
        → diff (build sha256 a) (build sha256 b) ≡ diff_roots (build sha256 a) (build sha256 b) x y
    unfolding diff
    diff_with x y e f = λ t. diff_roots (build sha256 a) (build sha256 b) (e t) (f t)

    -- A pair of one replica, which the other does not have.
    found_left :
        (k v : Bytes)
        → find bytes_discrete k a ≡ some v
        → find bytes_discrete k b ≢ some v
        → Holds k (diff (build sha256 a) (build sha256 b))
    unfolding diff diff_roots
    found_left k v here other = elim (Option-cases (plan_of a)) [
      | inl gone ↦ absurd (no_plan a k v gone here)
      | inr (p, a_plan) ↦ elim (Option-cases (plan_of b)) [
        | inl gone ↦
            let roots =
              diff_with (some (node_of sha256 p)) none (root_is a (some p) a_plan)
                (root_is b none gone) in
            subst (λ (l : List Bytes). Holds k l) (sym roots) (tree_keys a k v here)
        | inr (q, b_plan) ↦
            let (into, _, p_clean) = plan_of-items a p k v a_plan clean_a in
            let (onto, back, q_clean) = plan_of-items b q k v b_plan clean_b in
            let roots =
              diff_with (some (node_of sha256 p)) (some (node_of sha256 q))
                (root_is a (some p) a_plan) (root_is b (some q) b_plan) in
            let found =
              covers_left sha256 size k v p q [] p_clean q_clean (free p q a_plan b_plan)
                (into here) in
            subst (λ (l : List Bytes). Holds k l) (sym roots)
              (elim found [
                | inl there ↦ absurd (other (back there))
                | inr seen ↦ sort_strings_keeps k _ seen
              ])
      ]
    ]

    found_right :
        (k v : Bytes)
        → find bytes_discrete k b ≡ some v
        → find bytes_discrete k a ≢ some v
        → Holds k (diff (build sha256 a) (build sha256 b))
    unfolding diff diff_roots
    found_right k v here other = elim (Option-cases (plan_of b)) [
      | inl gone ↦ absurd (no_plan b k v gone here)
      | inr (q, b_plan) ↦ elim (Option-cases (plan_of a)) [
        | inl gone ↦
            let roots =
              diff_with none (some (node_of sha256 q)) (root_is a none gone)
                (root_is b (some q) b_plan) in
            subst (λ (l : List Bytes). Holds k l) (sym roots) (tree_keys b k v here)
        | inr (p, a_plan) ↦
            let (into, _, p_clean) = plan_of-items a p k v a_plan clean_a in
            let (onto, back, q_clean) = plan_of-items b q k v b_plan clean_b in
            let roots =
              diff_with (some (node_of sha256 p)) (some (node_of sha256 q))
                (root_is a (some p) a_plan) (root_is b (some q) b_plan) in
            let found =
              covers_right sha256 size k v p q [] p_clean q_clean (free p q a_plan b_plan)
                (onto here) in
            subst (λ (l : List Bytes). Holds k l) (sym roots)
              (elim found [
                | inl there ↦ absurd (other ((plan_of-items a p k v a_plan clean_a).1 there))
                | inr seen ↦ sort_strings_keeps k _ seen
              ])
      ]
    ]

    -- Diff returns every key that has another value in the other replica, or is in one of them only,
    -- if SHA-256 has no collision among the messages hashed for the two trees, and no key has the
    -- byte that separates keys from values.
    pub diff_complete :
        (k : Bytes)
        → find bytes_discrete k a ≢ find bytes_discrete k b
        → Holds k (diff (build sha256 a) (build sha256 b))
    diff_complete k differs = elim (Option-cases (find bytes_discrete k a)) [
      | inr (v, e) ↦ found_left k v e (λ f. differs (e ∙ sym f))
      | inl e ↦ elim (Option-cases (find bytes_discrete k b)) [
        | inl f ↦ absurd (differs (e ∙ sym f))
        | inr (w, f) ↦ found_right k w f (λ g. absurd (cc (sym e ∙ g)))
      ]
    ]
