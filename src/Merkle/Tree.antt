-- ===== src/Merkle/Tree.antt =====
-- code/merkle_tree/merkle.go: `Build`, `Diff` and `CompareCost`. SHA-256 is the parameter `sha256`. Keys
-- and values are lists of bytes, and the data of a replica is an association list, whose order stands
-- for the order in which Go happens to walk the map. The nodes that `Build` makes have two children or
-- none, so the cases of `walk` for a missing child have no counterpart.
use system_design_handbook.Base.{
  ℕ, zero, suc, ◌+◌, ◌/◌, ◌%◌, Bool, true, false, ◌||◌, Option, none, some, List, [], ◌∷◌, ◌++◌,
  length, ltb, ◌==◌, if◌then◌else◌,
}
use system_design_handbook.Base.Dict.{find}
use system_design_handbook.Bytes.{Bytes, bytes_discrete}

-- A leaf has its hash and its key.
pub data Node : Type 0 where
  leaf : Bytes → Bytes → Node
  inner : Bytes → Node → Node → Node

pub record MerkleTree : Type 0 where
  pub root : Option Node
  pub leaves : List Node

unfoldable pub hash_of : Node → Bytes
hash_of (leaf h k) = h
hash_of (inner h l r) = h

-- `sort.Strings`, which orders by bytes.
unfoldable pub le_bytes : Bytes → Bytes → Bool
le_bytes [] ys = true
le_bytes (x ∷ xs) [] = false
le_bytes (x ∷ xs) (y ∷ ys) =
    let rest = le_bytes xs ys in if ltb x y then true else if x == y then rest else false

unfoldable pub insert_sorted : Bytes → List Bytes → List Bytes
insert_sorted k [] = k ∷ []
insert_sorted k (j ∷ js) = if le_bytes k j then k ∷ j ∷ js else j ∷ insert_sorted k js

unfoldable pub sort_strings : List Bytes → List Bytes
sort_strings [] = []
sort_strings (k ∷ ks) = insert_sorted k (sort_strings ks)

abbrev pub keys : List (Bytes × Bytes) → List Bytes
keys [] = []
keys ((k, v) ∷ m) = k ∷ keys m

-- `data[k]`, which is empty for a key that is not there.
unfoldable pub value_at : Bytes → List (Bytes × Bytes) → Bytes
value_at k m = elim (find bytes_discrete k m) [ none ↦ [] | some v ↦ v ]

-- One level of the tree from the one below: neighbours are joined, and an odd one out is promoted.
unfoldable pub join_pairs {ℓ} : {A : Type ℓ} → (A → A → A) → List A → List A
join_pairs join [] = []
join_pairs join (x ∷ []) = x ∷ []
join_pairs join (x ∷ y ∷ level) = join x y ∷ join_pairs join level

-- The loop over the levels, and the root. `none` for an empty level, or when the fuel runs out.
unfoldable pub build_levels {ℓ} : {A : Type ℓ} → (A → A → A) → ℕ → List A → Option A
build_levels join fuel [] = none
build_levels join fuel (x ∷ []) = some x
build_levels join zero (x ∷ y ∷ level) = none
build_levels join (suc fuel) (x ∷ y ∷ level) =
    build_levels join fuel (join x y ∷ join_pairs join level)

-- `hex.EncodeToString`
unfoldable pub hex_digit : ℕ → ℕ
hex_digit n = if ltb n 10 then 48 + n else 87 + n

unfoldable pub hex : Bytes → Bytes
unfolding hex_digit
hex [] = []
hex (b ∷ bs) = hex_digit (b / 16) ∷ hex_digit (b % 16) ∷ hex bs

-- `RootHash`
unfoldable pub root_hash : MerkleTree → Bytes
unfolding hex
root_hash t = elim t.root [ none ↦ [] | some n ↦ hex (hash_of n) ]

unfoldable pub equal_hash : Bytes → Bytes → Bool
equal_hash [] [] = true
equal_hash [] (y ∷ ys) = false
equal_hash (x ∷ xs) [] = false
equal_hash (x ∷ xs) (y ∷ ys) = let rest = equal_hash xs ys in if x == y then rest else false

unfoldable pub collect : Node → List Bytes
collect (leaf h k) = k ∷ []
collect (inner h l r) = collect l ++ collect r

-- The key of a leaf; other nodes have none.
unfoldable pub key_of : Node → Bytes
key_of (leaf h k) = k
key_of (inner h l r) = []

unfoldable pub keys_of : List Node → List Bytes
keys_of [] = []
keys_of (n ∷ ns) = key_of n ∷ keys_of ns

-- `seen[k] = true`
unfoldable pub is_seen : Bytes → List Bytes → Bool
is_seen k [] = false
is_seen k (j ∷ js) = equal_hash j k || is_seen k js

unfoldable pub see : List Bytes → List Bytes → List Bytes
unfolding is_seen
see [] seen = seen
see (k ∷ ks) seen = see ks (if is_seen k seen then seen else seen ++ k ∷ [])

-- Leaves, on either side, end the descent.
unfoldable pub walk : Node → Node → List Bytes → List Bytes
walk (leaf h k) y seen = if equal_hash h (hash_of y) then seen else see (k ∷ collect y) seen
walk (inner h l r) (leaf g k) seen =
    if equal_hash h g then seen else see (collect (inner h l r) ++ k ∷ []) seen
walk (inner h l r) (inner g m n) seen =
    let below = walk r n (walk l m seen) in if equal_hash h g then seen else below

unfoldable pub diff_roots : MerkleTree → MerkleTree → Option Node → Option Node → List Bytes
diff_roots a b none none = []
diff_roots a b none (some y) = sort_strings (keys_of b.leaves)
diff_roots a b (some x) none = sort_strings (keys_of a.leaves)
diff_roots a b (some x) (some y) = sort_strings (walk x y [])

unfoldable pub diff : MerkleTree → MerkleTree → List Bytes
diff a b = diff_roots a b a.root b.root

-- The comparisons of `CompareCost` below two nodes.
unfoldable pub cost : Node → Node → ℕ
cost (leaf h k) y = 1
cost (inner h l r) (leaf g k) = 1
cost (inner h l r) (inner g m n) =
    let below = cost l m + cost r n in if equal_hash h g then 1 else 1 + below

unfoldable pub cost_roots : Option Node → Option Node → ℕ
cost_roots none none = 0
cost_roots none (some y) = 1
cost_roots (some x) none = 1
cost_roots (some x) (some y) = cost x y

unfoldable pub compare_cost : MerkleTree → MerkleTree → ℕ
compare_cost a b = cost_roots a.root b.root

module _ (sha256 : Bytes → Bytes) where
  unfoldable pub hash_leaf : Bytes → Bytes → Bytes
  hash_leaf key value = sha256 (0x00 ∷ key ++ 0x1f ∷ value)

  unfoldable pub hash_internal : Bytes → Bytes → Bytes
  hash_internal left right = sha256 (0x01 ∷ left ++ right)

  unfoldable pub join_nodes : Node → Node → Node
  join_nodes x y = inner (hash_internal (hash_of x) (hash_of y)) x y

  unfoldable pub leaf_nodes : List Bytes → List (Bytes × Bytes) → List Node
  leaf_nodes [] m = []
  leaf_nodes (k ∷ ks) m = leaf (hash_leaf k (value_at k m)) k ∷ leaf_nodes ks m

  -- As many rounds as leaves are enough.
  unfoldable pub build : List (Bytes × Bytes) → MerkleTree
  build m =
      let leaves = leaf_nodes (sort_strings (keys m)) m in
      record { root = build_levels join_nodes (length leaves) leaves; leaves = leaves }
