-- ===== src/Merkle/Separator.antt =====
-- code/merkle_tree/merkle.go: keys with the byte that separates keys from values.
use mathlib.Core.List.{append_assoc}
use mathlib.Core.Logic.{if_pos}
use system_design_handbook.Base.{
  ◌<◌, ◌≡◌, ◌≢◌, refl, ap, none, some, [], ◌∷◌, ◌++◌, length, length-append, arith,
}
use system_design_handbook.Base.Dict.{find}
use system_design_handbook.Bytes.{Bytes, bytes_discrete}
use system_design_handbook.Merkle.Tree.{
  hash_of, hash_leaf, value_at, insert_sorted, sort_strings, build_levels, leaf_nodes, build, walk,
  diff, diff_roots, root_hash,
}
use system_design_handbook.Merkle.Seen.{equal_hash_refl}

value_at_self : (k v : Bytes) → value_at k ((k, v) ∷ []) ≡ v
unfolding value_at find
value_at_self k v =
    let there : find bytes_discrete k ((k, v) ∷ []) ≡ some v =
      if_pos (bytes_discrete k k) refl (some v) none in
    rw (there, value_at) refl

longer : (k v : Bytes) → length k < length (k ++ 0x1f ∷ v)
longer k v = omega (arith, length-append k (0x1f ∷ v))

-- The separator byte may stand in a key: two replicas of one pair each, with different keys, have the
-- same `RootHash`, and `Diff` finds no difference, whatever SHA-256 is.
pub separator_confused :
    (sha256 : Bytes → Bytes) (k v w : Bytes)
    → let a = build sha256 ((k ++ 0x1f ∷ v, w) ∷ []) in
      let b = build sha256 ((k, v ++ 0x1f ∷ w) ∷ []) in
      (k ++ 0x1f ∷ v ≢ k) × (root_hash a ≡ root_hash b) × (diff a b ≡ [])
unfolding diff diff_roots build sort_strings insert_sorted build_levels leaf_nodes value_at find
    hash_leaf walk hash_of root_hash
separator_confused sha256 k v w =
    let message = append_assoc k (0x1f ∷ v) (0x1f ∷ w) in
    let more = longer k v in
    let one = value_at_self (k ++ 0x1f ∷ v) w in
    let other = value_at_self k (v ++ 0x1f ∷ w) in
    (
      λ same. absurd (omega (arith, more, ap length same)),
      rw (one, other, message) refl,
      rw (one, other, message, equal_hash_refl) refl,
    )
