-- ===== src/Merkle/Seen.antt =====
-- code/merkle_tree/merkle.go: what ends up in `seen`, and that sorting keeps it.
use system_design_handbook.Base.{
  ◌≡◌, inl, inr, refl, true, Bool-cases, List, [], ◌∷◌, ◌++◌, Holds, if◌then◌else◌, arith,
  Holds-append_left, Holds-append_right,
}
use system_design_handbook.Bytes.{Bytes}
use system_design_handbook.Merkle.Tree.{
  Node, leaf, inner, hash_of, equal_hash, is_seen, see, walk, collect, insert_sorted, le_bytes,
  sort_strings,
}

pub equal_hash_sound : (a b : Bytes) → equal_hash a b ≡ true → a ≡ b
unfolding equal_hash
equal_hash_sound [] [] e = refl
equal_hash_sound [] (y ∷ b) e = cc
equal_hash_sound (x ∷ a) [] e = cc
equal_hash_sound (x ∷ a) (y ∷ b) e = ground (arith, equal_hash_sound a b)

pub equal_hash_refl : (a : Bytes) → equal_hash a a ≡ true
unfolding equal_hash
equal_hash_refl [] = refl
equal_hash_refl (x ∷ a) = ground (arith, equal_hash_refl a)

is_seen_sound : (k : Bytes) (js : List Bytes) → is_seen k js ≡ true → Holds k js
unfolding is_seen
is_seen_sound k [] e = absurd (cc)
is_seen_sound k (j ∷ js) e = elim (Bool-cases (equal_hash j k)) [
  | inl same ↦ inl (equal_hash_sound j k same)
  | inr other ↦ inr (is_seen_sound k js (ground arith))
]

-- What was seen stays seen, and the new keys are seen.
pub see_keeps : (k : Bytes) (ks seen : List Bytes) → Holds k seen → Holds k (see ks seen)
unfolding see
see_keeps k [] seen h = h
see_keeps k (j ∷ ks) seen h = elim (Bool-cases (is_seen j seen)) [
  | inl old ↦ rw old (see_keeps k ks seen h)
  | inr new ↦ rw new (see_keeps k ks (seen ++ j ∷ []) (Holds-append_left k seen (j ∷ []) h))
]

pub see_adds : (k : Bytes) (ks seen : List Bytes) → Holds k ks → Holds k (see ks seen)
unfolding see
see_adds k [] seen h = elim h [ ]
see_adds k (j ∷ ks) seen (inr h) = see_adds k ks (if is_seen j seen then seen else seen ++ j ∷ []) h
see_adds k (j ∷ ks) seen (inl e) =
    see_keeps k ks (if is_seen j seen then seen else seen ++ j ∷ [])
      (elim (Bool-cases (is_seen j seen)) [
        | inl old ↦ rw (old, ← e) (is_seen_sound j seen old)
        | inr new ↦ rw new (Holds-append_right k seen (j ∷ []) (inl e))
      ])

pub walk_keeps :
    (k : Bytes) (x y : Node) (seen : List Bytes) → Holds k seen → Holds k (walk x y seen)
unfolding walk
walk_keeps k (leaf h j) y seen held = elim (Bool-cases (equal_hash h (hash_of y))) [
  | inl same ↦ rw same held
  | inr other ↦ rw other (see_keeps k (j ∷ collect y) seen held)
]
walk_keeps k (inner h l r) (leaf g j) seen held = elim (Bool-cases (equal_hash h g)) [
  | inl same ↦ rw same held
  | inr other ↦ rw other (see_keeps k (collect (inner h l r) ++ j ∷ []) seen held)
]
walk_keeps k (inner h l r) (inner g m n) seen held =
    let below = walk_keeps k r n (walk l m seen) (walk_keeps k l m seen held) in
    elim (Bool-cases (equal_hash h g)) [ inl same ↦ rw same held | inr other ↦ rw other below ]

insert_sorted_keeps :
    (k j : Bytes) (js : List Bytes) → Holds k (j ∷ js) → Holds k (insert_sorted j js)
unfolding insert_sorted
insert_sorted_keeps k j [] h = h
insert_sorted_keeps k j (i ∷ js) h = elim (Bool-cases (le_bytes j i)) [
  | inl first ↦ rw first h
  | inr later ↦ rw later (elim h [
    | inl e ↦ inr (insert_sorted_keeps k j js (inl e))
    | inr (inl e) ↦ inl e
    | inr (inr m) ↦ inr (insert_sorted_keeps k j js (inr m))
  ])
]

pub sort_strings_keeps : (k : Bytes) (ks : List Bytes) → Holds k ks → Holds k (sort_strings ks)
unfolding sort_strings
sort_strings_keeps k [] h = h
sort_strings_keeps k (j ∷ ks) h =
    insert_sorted_keeps k j (sort_strings ks)
      (elim h [ inl e ↦ inl e | inr m ↦ inr (sort_strings_keeps k ks m) ])
