-- ===== src/Merkle/Pairs.antt =====
-- code/merkle_tree/merkle.go: the pairs of a tree are those of the data.
use mathlib.Core.Path.{subst}
use mathlib.Core.Logic.{if_pos, if_neg}
use system_design_handbook.Base.{
  suc, ◌≡◌, ◌≢◌, inl, inr, refl, sym, ap, ◌∙◌, Option, none, some, Option-cases, Bool-cases, List,
  [], ◌∷◌, Holds, length, arith,
}
use system_design_handbook.Base.Dict.{find}
use system_design_handbook.Bytes.{Bytes, bytes_discrete}
use system_design_handbook.Merkle.Tree.{
  keys, value_at, le_bytes, insert_sorted, sort_strings, build_levels,
}
use system_design_handbook.Merkle.Plans.{Plan, item, join, items, IsClean, AllClean}
use system_design_handbook.Merkle.Seen.{sort_strings_keeps}
use system_design_handbook.Merkle.Levels.{
  build_levels_ends, all_items, EachClean, build_levels-items,
}

-- The leaves of a tree, before they are hashed.
unfoldable pub plan_leaves : List Bytes → List (Bytes × Bytes) → List Plan
plan_leaves [] m = []
plan_leaves (k ∷ ks) m = item k (value_at k m) ∷ plan_leaves ks m

unfoldable pub plan_of : List (Bytes × Bytes) → Option Plan
plan_of m =
    let leaves = plan_leaves (sort_strings (keys m)) m in build_levels join (length leaves) leaves

-- No key has the byte that separates it from its value.
abbrev pub KeysClean : List (Bytes × Bytes) → Type 0
KeysClean m = (k : Bytes) → Holds k (keys m) → IsClean k

insert_sorted-Holds :
    (k j : Bytes) (js : List Bytes) → Holds k (insert_sorted j js) → Holds k (j ∷ js)
unfolding insert_sorted
insert_sorted-Holds k j [] h = h
insert_sorted-Holds k j (i ∷ js) h = elim (Bool-cases (le_bytes j i)) [
  | inl first ↦ rw first at h
  | inr later ↦ elim (rw later at h) [
    | inl e ↦ inr (inl e)
    | inr m ↦ elim (insert_sorted-Holds k j js m) [ inl e ↦ inl e | inr n ↦ inr (inr n) ]
  ]
]

sort_strings-Holds : (k : Bytes) (ks : List Bytes) → Holds k (sort_strings ks) → Holds k ks
unfolding sort_strings
sort_strings-Holds k [] h = h
sort_strings-Holds k (j ∷ ks) h = elim (insert_sorted-Holds k j (sort_strings ks) h) [
  | inl e ↦ inl e
  | inr m ↦ inr (sort_strings-Holds k ks m)
]

module _ (m : List (Bytes × Bytes)) where
  plan_leaves-Holds :
      (k v : Bytes) (ks : List Bytes)
      → Holds k ks
      → value_at k m ≡ v
      → Holds (k, v) (all_items (plan_leaves ks m))
  unfolding plan_leaves
  plan_leaves-Holds k v [] h e = elim h [ ]
  plan_leaves-Holds k v (j ∷ ks) (inl same) e =
      inl (λ t. (same t, ((ap (λ (i : Bytes). value_at i m) same ∙ e) t)))
  plan_leaves-Holds k v (j ∷ ks) (inr h) e = inr (plan_leaves-Holds k v ks h e)

  plan_leaves_only :
      (k v : Bytes) (ks : List Bytes)
      → Holds (k, v) (all_items (plan_leaves ks m))
      → Holds k ks × (value_at k m ≡ v)
  unfolding plan_leaves
  plan_leaves_only k v [] h = elim h [ ]
  plan_leaves_only k v (j ∷ ks) (inl same) =
      let key = ap (λ (t : Bytes × Bytes). t.0) same in
      (inl key, ap (λ (i : Bytes). value_at i m) (sym key) ∙ ap (λ (t : Bytes × Bytes). t.1) same)
  plan_leaves_only k v (j ∷ ks) (inr h) =
      let (there, e) = plan_leaves_only k v ks h in (inr there, e)

  EachClean-plan_leaves :
      (ks : List Bytes) → ((k : Bytes) → Holds k ks → IsClean k) → EachClean (plan_leaves ks m)
  unfolding plan_leaves
  EachClean-plan_leaves [] h = tt
  EachClean-plan_leaves (k ∷ ks) h = (h k (inl refl), EachClean-plan_leaves ks (λ j i. h j (inr i)))

  value_at-find : (k v : Bytes) → find bytes_discrete k m ≡ some v → value_at k m ≡ v
  unfolding value_at
  value_at-find k v e = ground arith

pub find-Holds :
    (k v : Bytes) (m : List (Bytes × Bytes)) → find bytes_discrete k m ≡ some v → Holds k (keys m)
unfolding find
find-Holds k v [] e = absurd (cc)
find-Holds k v ((j, w) ∷ m) e = elim (bytes_discrete j k) [
  | yes same ↦ inl same
  | no other ↦ inr (find-Holds k v m (sym (if_neg (bytes_discrete j k) other _ _) ∙ e))
]

Holds-find :
    (k : Bytes) (m : List (Bytes × Bytes)) → Holds k (keys m) → find bytes_discrete k m ≢ none
unfolding find
Holds-find k [] h = elim h [ ]
Holds-find k ((j, w) ∷ m) h = elim (bytes_discrete j k) [
  | yes same ↦ λ e.
      absurd (cc (sym (if_pos (bytes_discrete j k) same (some w) (find bytes_discrete k m)) ∙ e))
  | no other ↦ elim h [
    | inl same ↦ absurd (other same)
    | inr there ↦ λ e.
        Holds-find k m there
          (sym (if_neg (bytes_discrete j k) other (some w) (find bytes_discrete k m)) ∙ e)
  ]
]

-- The pairs of a tree are those of the data.
pub plan_of-items :
    (m : List (Bytes × Bytes)) (p : Plan) (k v : Bytes)
    → plan_of m ≡ some p
    → KeysClean m
    → (find bytes_discrete k m ≡ some v → Holds (k, v) (items p))
      × (Holds (k, v) (items p) → find bytes_discrete k m ≡ some v)
      × AllClean p
unfolding plan_of
plan_of-items m p k v e clean =
    let ks = sort_strings (keys m) in
    let each = EachClean-plan_leaves m ks (λ j h. clean j (sort_strings-Holds j (keys m) h)) in
    let (same, all) = build_levels-items (length (plan_leaves ks m)) (plan_leaves ks m) p e each in
    (
      λ found.
          subst (λ (l : List (Bytes × Bytes)). Holds (k, v) l) (sym same)
            (plan_leaves-Holds m k v ks (sort_strings_keeps k (keys m) (find-Holds k v m found))
              (value_at-find m k v found)),
      λ held.
          let (there, value) =
            plan_leaves_only m k v ks
              (subst (λ (l : List (Bytes × Bytes)). Holds (k, v) l) same held) in
          elim (Option-cases (find bytes_discrete k m)) [
            | inl gone ↦ absurd (Holds-find k m (sort_strings-Holds k (keys m) there) gone)
            | inr (w, found) ↦ found ∙ ap some (sym (value_at-find m k w found) ∙ value)
          ],
      all,
    )

levels_end :
    (k : Bytes) (ks : List Bytes) (m : List (Bytes × Bytes))
    → Holds k ks
    → build_levels join (length (plan_leaves ks m)) (plan_leaves ks m) ≢ none
unfolding plan_leaves
levels_end k [] m h = elim h [ ]
levels_end k (j ∷ ks) m h =
    let rest = plan_leaves ks m in
    let (p, ends) =
      build_levels_ends join (suc (length rest)) (item j (value_at j m)) rest (omega arith) in
    λ gone. cc (sym ends ∙ gone)

-- With a pair there is a tree.
pub no_plan :
    (m : List (Bytes × Bytes)) (k v : Bytes) → plan_of m ≡ none → find bytes_discrete k m ≢ some v
unfolding plan_of
no_plan m k v gone found =
    levels_end k (sort_strings (keys m)) m (sort_strings_keeps k (keys m) (find-Holds k v m found))
      gone
