-- ===== src/Merkle/Covers.antt =====
-- code/merkle_tree/merkle.go: the descent of `Diff` misses no pair that only one of the trees has.
use mathlib.Core.Path.{subst}
use system_design_handbook.Base.{
  ◌≡◌, ◌⊎◌, inl, inr, refl, sym, ap, true, Bool-cases, List, [], ◌∷◌, ◌++◌, Holds, length,
  Holds-append_left, Holds-append_right, Holds-append_cases,
}
use system_design_handbook.Bytes.{Bytes}
use system_design_handbook.Merkle.Tree.{hash_of, join_nodes, equal_hash, walk, collect}
use system_design_handbook.Merkle.Plans.{
  Plan, item, join, items, in_left, in_right, AllClean, node_of, NoCollision, same_items,
}
use system_design_handbook.Merkle.Seen.{equal_hash_sound, see_adds, walk_keeps}

module _ (sha256 : Bytes → Bytes) where
  -- The keys below a node are those of the pairs.
  collect-Holds :
      (k v : Bytes) (p : Plan) → Holds (k, v) (items p) → Holds k (collect (node_of sha256 p))
  unfolding collect join_nodes
  collect-Holds k v (item j w) (inl e) = inl (ap (λ (t : Bytes × Bytes). t.0) e)
  collect-Holds k v (item j w) (inr h) = elim h [ ]
  collect-Holds k v (join l r) h = elim (Holds-append_cases (k, v) (items l) (items r) h) [
    | inl a ↦
        Holds-append_left k (collect (node_of sha256 l)) (collect (node_of sha256 r))
          (collect-Holds k v l a)
    | inr b ↦
        Holds-append_right k (collect (node_of sha256 l)) (collect (node_of sha256 r))
          (collect-Holds k v r b)
  ]

  module _ (size : (m : Bytes) → length (sha256 m) ≡ 32) (k v : Bytes) where
    -- Pruned subtrees have the same pairs.
    pruned :
        (p q : Plan)
        → AllClean p
        → AllClean q
        → NoCollision sha256 p q
        → equal_hash (hash_of (node_of sha256 p)) (hash_of (node_of sha256 q)) ≡ true
        → items p ≡ items q
    pruned p q h i free e = same_items sha256 size p q h i free (equal_hash_sound _ _ e)

    -- A pair of the first tree is in the second, or its key is found.
    pub covers_left :
        (p q : Plan) (seen : List Bytes)
        → AllClean p
        → AllClean q
        → NoCollision sha256 p q
        → Holds (k, v) (items p)
        → Holds (k, v) (items q) ⊎ Holds k (walk (node_of sha256 p) (node_of sha256 q) seen)
    unfolding walk hash_of join_nodes
    covers_left (item j w) (item i u) seen h g free held =
        elim (Bool-cases (
          equal_hash (hash_of (node_of sha256 (item j w))) (hash_of (node_of sha256 (item i u))))) [
            | inl same ↦ inl (
                subst (λ (xs : List (Bytes × Bytes)). Holds (k, v) xs)
                  (pruned (item j w) (item i u) h g free same) held)
            | inr other ↦ inr (
                rw (other, walk)
                  (see_adds k (j ∷ collect (node_of sha256 (item i u))) seen (
                    Holds-append_left k (j ∷ []) (collect (node_of sha256 (item i u)))
                      (unfold collect in collect-Holds k v (item j w) held))))
          ]
    covers_left (item j w) (join m n) seen h g free held =
        elim (Bool-cases (
          equal_hash (hash_of (node_of sha256 (item j w))) (hash_of (node_of sha256 (join m n))))) [
            | inl same ↦ inl (
                subst (λ (xs : List (Bytes × Bytes)). Holds (k, v) xs)
                  (pruned (item j w) (join m n) h g free same) held)
            | inr other ↦ inr (
                rw (other, walk)
                  (see_adds k (j ∷ collect (node_of sha256 (join m n))) seen (
                    Holds-append_left k (j ∷ []) (collect (node_of sha256 (join m n)))
                      (unfold collect in collect-Holds k v (item j w) held))))
          ]
    covers_left (join l r) (item i u) seen h g free held =
        elim (Bool-cases (
          equal_hash (hash_of (node_of sha256 (join l r))) (hash_of (node_of sha256 (item i u))))) [
            | inl same ↦ inl (
                subst (λ (xs : List (Bytes × Bytes)). Holds (k, v) xs)
                  (pruned (join l r) (item i u) h g free same) held)
            | inr other ↦ inr (
                rw (other, walk)
                  (see_adds k (collect (node_of sha256 (join l r)) ++ i ∷ []) seen (
                    Holds-append_left k (collect (node_of sha256 (join l r))) (i ∷ [])
                      (collect-Holds k v (join l r) held))))
          ]
    covers_left (join l r) (join m n) seen h g free held =
        elim (Bool-cases (
          equal_hash (hash_of (node_of sha256 (join l r))) (hash_of (node_of sha256 (join m n))))) [
            | inl same ↦ inl (
                subst (λ (xs : List (Bytes × Bytes)). Holds (k, v) xs)
                  (pruned (join l r) (join m n) h g free same) held)
            | inr other ↦
                let seen' = walk (node_of sha256 l) (node_of sha256 m) seen in
                let descent : walk (node_of sha256 (join l r)) (node_of sha256 (join m n)) seen
                    ≡ walk (node_of sha256 r) (node_of sha256 n) seen' =
                  rw (other, walk) refl in
                rw descent (elim (Holds-append_cases (k, v) (items l) (items r) held) [
                  | inl a ↦
                      elim (covers_left l m seen h.0 g.0
                        (λ s t x y. free s t (in_left s l r x) (in_left t m n y)) a) [
                          | inl there ↦ inl (Holds-append_left (k, v) (items m) (items n) there)
                          | inr found ↦
                              inr (walk_keeps k (node_of sha256 r) (node_of sha256 n) seen' found)
                        ]
                  | inr b ↦
                      elim (covers_left r n seen' h.1 g.1
                        (λ s t x y. free s t (in_right s l r x) (in_right t m n y)) b) [
                          | inl there ↦ inl (Holds-append_right (k, v) (items m) (items n) there)
                          | inr found ↦ inr found
                        ]
                ])
          ]

    -- A pair of the second tree is in the first, or its key is found.
    pub covers_right :
        (p q : Plan) (seen : List Bytes)
        → AllClean p
        → AllClean q
        → NoCollision sha256 p q
        → Holds (k, v) (items q)
        → Holds (k, v) (items p) ⊎ Holds k (walk (node_of sha256 p) (node_of sha256 q) seen)
    unfolding walk hash_of join_nodes
    covers_right (item j w) (item i u) seen h g free held =
        elim (Bool-cases (
          equal_hash (hash_of (node_of sha256 (item j w))) (hash_of (node_of sha256 (item i u))))) [
            | inl same ↦ inl (
                subst (λ (xs : List (Bytes × Bytes)). Holds (k, v) xs)
                  (sym (pruned (item j w) (item i u) h g free same)) held)
            | inr other ↦ inr (
                rw (other, walk)
                  (see_adds k (j ∷ collect (node_of sha256 (item i u))) seen
                    (inr (collect-Holds k v (item i u) held))))
          ]
    covers_right (item j w) (join m n) seen h g free held =
        elim (Bool-cases (
          equal_hash (hash_of (node_of sha256 (item j w))) (hash_of (node_of sha256 (join m n))))) [
            | inl same ↦ inl (
                subst (λ (xs : List (Bytes × Bytes)). Holds (k, v) xs)
                  (sym (pruned (item j w) (join m n) h g free same)) held)
            | inr other ↦ inr (
                rw (other, walk)
                  (see_adds k (j ∷ collect (node_of sha256 (join m n))) seen
                    (inr (collect-Holds k v (join m n) held))))
          ]
    covers_right (join l r) (item i u) seen h g free held =
        elim (Bool-cases (
          equal_hash (hash_of (node_of sha256 (join l r))) (hash_of (node_of sha256 (item i u))))) [
            | inl same ↦ inl (
                subst (λ (xs : List (Bytes × Bytes)). Holds (k, v) xs)
                  (sym (pruned (join l r) (item i u) h g free same)) held)
            | inr other ↦ inr (
                rw (other, walk)
                  (see_adds k (collect (node_of sha256 (join l r)) ++ i ∷ []) seen (
                    Holds-append_right k (collect (node_of sha256 (join l r))) (i ∷ [])
                      (unfold collect in collect-Holds k v (item i u) held))))
          ]
    covers_right (join l r) (join m n) seen h g free held =
        elim (Bool-cases (
          equal_hash (hash_of (node_of sha256 (join l r))) (hash_of (node_of sha256 (join m n))))) [
            | inl same ↦ inl (
                subst (λ (xs : List (Bytes × Bytes)). Holds (k, v) xs)
                  (sym (pruned (join l r) (join m n) h g free same)) held)
            | inr other ↦
                let seen' = walk (node_of sha256 l) (node_of sha256 m) seen in
                let descent : walk (node_of sha256 (join l r)) (node_of sha256 (join m n)) seen
                    ≡ walk (node_of sha256 r) (node_of sha256 n) seen' =
                  rw (other, walk) refl in
                rw descent (elim (Holds-append_cases (k, v) (items m) (items n) held) [
                  | inl a ↦
                      elim (covers_right l m seen h.0 g.0
                        (λ s t x y. free s t (in_left s l r x) (in_left t m n y)) a) [
                          | inl there ↦ inl (Holds-append_left (k, v) (items l) (items r) there)
                          | inr found ↦
                              inr (walk_keeps k (node_of sha256 r) (node_of sha256 n) seen' found)
                        ]
                  | inr b ↦
                      elim (covers_right r n seen' h.1 g.1
                        (λ s t x y. free s t (in_right s l r x) (in_right t m n y)) b) [
                          | inl there ↦ inl (Holds-append_right (k, v) (items l) (items r) there)
                          | inr found ↦ inr found
                        ]
                ])
          ]
