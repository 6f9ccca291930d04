-- ===== src/Merkle/Plans.antt =====
-- code/merkle_tree/merkle.go: a tree with the values that its leaves were hashed from, and the messages
-- that were hashed.
use system_design_handbook.Base.{◌≡◌, ◌≢◌, refl, sym, ap, ◌∙◌, List, [], ◌∷◌, ◌++◌, length, arith}
use system_design_handbook.Bytes.{Bytes}
use system_design_handbook.Merkle.Tree.{Node, leaf, hash_of, hash_leaf, hash_internal, join_nodes}

pub data Plan : Type 0 where
  item : Bytes → Bytes → Plan
  join : Plan → Plan → Plan

-- The pairs at the leaves, from left to right.
abbrev pub items : Plan → List (Bytes × Bytes)
items (item k v) = (k, v) ∷ []
items (join l r) = items l ++ items r

-- The subtrees, the whole included.
pub data Part : Plan → Plan → Type 0 where
  whole : (p : Plan) → Part p p
  in_left : (s l r : Plan) → Part s l → Part s (join l r)
  in_right : (s l r : Plan) → Part s r → Part s (join l r)

-- The byte that stands between key and value is not in the key.
abbrev pub IsClean : Bytes → Type 0
IsClean [] = Unit
IsClean (c ∷ k) = (c ≢ 0x1f) × IsClean k

abbrev pub AllClean : Plan → Type 0
AllClean (item k v) = IsClean k
AllClean (join l r) = AllClean l × AllClean r

pub separated :
    (k j v w : Bytes) → IsClean k → IsClean j → k ++ 0x1f ∷ v ≡ j ++ 0x1f ∷ w → (k ≡ j) × (v ≡ w)
separated [] [] v w h i e = (refl, ground arith)
separated [] (c ∷ j) v w h i e = absurd (i.0 (ground arith))
separated (c ∷ k) [] v w h i e = absurd (h.0 (ground arith))
separated (c ∷ k) (d ∷ j) v w h i e =
    let (keys, values) = separated k j v w h.1 i.1 (ground arith) in (ground arith, values)

-- Two pairs of texts of one length.
pub halves : (a b c d : Bytes) → length a ≡ length c → a ++ b ≡ c ++ d → (a ≡ c) × (b ≡ d)
halves [] b [] d h e = (refl, e)
halves [] b (y ∷ c) d h e = absurd (omega arith)
halves (x ∷ a) b [] d h e = absurd (omega arith)
halves (x ∷ a) b (y ∷ c) d h e =
    let (first, second) = halves a b c d (omega arith) (ground arith) in (ground arith, second)

module _ (sha256 : Bytes → Bytes) where
  -- The node of the tree, with its hashes.
  abbrev pub node_of : Plan → Node
  node_of (item k v) = leaf (hash_leaf sha256 k v) k
  node_of (join l r) = join_nodes sha256 (node_of l) (node_of r)

  -- What is hashed at the top.
  abbrev pub message : Plan → Bytes
  message (item k v) = 0x00 ∷ k ++ 0x1f ∷ v
  message (join l r) = 0x01 ∷ hash_of (node_of l) ++ hash_of (node_of r)

  pub hash_of-node_of : (p : Plan) → hash_of (node_of p) ≡ sha256 (message p)
  unfolding hash_of hash_leaf hash_internal join_nodes
  hash_of-node_of (item k v) = refl
  hash_of-node_of (join l r) = refl

  -- No two different messages of the two trees have one hash.
  abbrev pub NoCollision : Plan → Plan → Type 0
  NoCollision p q =
      (s t : Plan)
      → Part s p
      → Part t q
      → sha256 (message s) ≡ sha256 (message t)
      → message s ≡ message t

  module _ (size : (m : Bytes) → length (sha256 m) ≡ 32) where
    -- Trees of one hash have the same pairs.
    pub same_items :
        (p q : Plan)
        → AllClean p
        → AllClean q
        → NoCollision p q
        → hash_of (node_of p) ≡ hash_of (node_of q)
        → items p ≡ items q
    same_items (item k v) (item j w) h i free e =
        let same =
          free (item k v) (item j w) (whole _) (whole _)
            (sym (hash_of-node_of (item k v)) ∙ e ∙ hash_of-node_of (item j w)) in
        let (keys, values) = separated k j v w h i (ground arith) in λ i. (keys i, values i) ∷ []
    same_items (item k v) (join m n) h i free e = absurd (
        let same =
          free (item k v) (join m n) (whole _) (whole _)
            (sym (hash_of-node_of (item k v)) ∙ e ∙ hash_of-node_of (join m n)) in
        cc)
    same_items (join l r) (item j w) h i free e = absurd (
        let same =
          free (join l r) (item j w) (whole _) (whole _)
            (sym (hash_of-node_of (join l r)) ∙ e ∙ hash_of-node_of (item j w)) in
        cc)
    same_items (join l r) (join m n) h i free e =
        let same =
          free (join l r) (join m n) (whole _) (whole _)
            (sym (hash_of-node_of (join l r)) ∙ e ∙ hash_of-node_of (join m n)) in
        let sized =
          ap length (hash_of-node_of l)
          ∙ size (message l)
          ∙ sym (size (message m))
          ∙ sym (ap length (hash_of-node_of m)) in
        let (left, right) =
          halves (hash_of (node_of l)) (hash_of (node_of r)) (hash_of (node_of m))
            (hash_of (node_of n)) sized (ground arith) in
        let first =
          same_items l m h.0 i.0 (λ s t x y. free s t (in_left s l r x) (in_left t m n y)) left in
        let second =
          same_items r n h.1 i.1 (λ s t x y. free s t (in_right s l r x) (in_right t m n y))
            right in
        λ i. first i ++ second i
