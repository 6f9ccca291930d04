-- ===== src/Merkle/Examples.antt =====
-- code/merkle_tree/merkle.go: replicas that drifted apart, and a toy hash.
use mathlib.Core.Path.{subst}
use system_design_handbook.Base.{
  ℕ, inl, inr, ◌+◌, ◌*◌, ◌≤◌, ◌≡◌, ◌≢◌, refl, sym, ap, ◌∙◌, false, some, List, [], ◌∷◌, Holds,
  length, ℕ_discrete, arith,
}
use system_design_handbook.Base.Dict.{find}
use system_design_handbook.Bytes.{Bytes, put_le, bytes_discrete}
use system_design_handbook.Merkle.Tree.{
  hash_of, le_bytes, insert_sorted, sort_strings, value_at, join_pairs, build_levels, equal_hash,
  collect, key_of, keys_of, is_seen, see, walk, diff_roots, root_hash, diff, cost, cost_roots,
  compare_cost, hash_leaf, hash_internal, join_nodes, leaf_nodes, build,
}
use system_design_handbook.Merkle.Plans.{
  Plan, item, join, whole, in_left, in_right, IsClean, NoCollision,
}
use system_design_handbook.Merkle.Seen.{equal_hash_refl}
use system_design_handbook.Merkle.Pairs.{plan_leaves, plan_of, KeysClean}
use system_design_handbook.Merkle.Repair.{diff_complete}
use system_design_handbook.Merkle.Changes.{changed_keys}
use system_design_handbook.Merkle.Cost.{compare_cost-le}
use system_design_handbook.Merkle.Separator.{separator_confused}

program : Unit {0}
unfolding ℕ_discrete find bytes_discrete hash_of le_bytes insert_sorted sort_strings value_at
    join_pairs build_levels equal_hash collect key_of keys_of is_seen see walk diff_roots diff cost
    cost_roots compare_cost hash_leaf hash_internal join_nodes leaf_nodes build plan_leaves plan_of
    changed_keys
program = tt

-- The bytes of a number that the message stands for.
digest : Bytes → ℕ
digest [] = 1
digest (c ∷ m) = c + 257 * digest m

abbrev toy : Bytes → Bytes
unfolding digest
toy m = put_le 32 (digest m)

toy_size : (m : Bytes) → length (toy m) ≡ 32
unfolding digest
toy_size m = refl

abbrev replica_a : List (Bytes × Bytes)
replica_a = (98 ∷ [], 20 ∷ []) ∷ (97 ∷ [], 10 ∷ []) ∷ []

abbrev replica_b : List (Bytes × Bytes)
replica_b = (97 ∷ [], 10 ∷ []) ∷ (98 ∷ [], 21 ∷ []) ∷ []

abbrev first : Plan
first = item (97 ∷ []) (10 ∷ [])

abbrev plan_a : Plan
plan_a = join first (item (98 ∷ []) (20 ∷ []))

abbrev plan_b : Plan
plan_b = join first (item (98 ∷ []) (21 ∷ []))

differ : (xs ys : Bytes) → equal_hash xs ys ≡ false → xs ≢ ys
differ xs ys e same = cc (sym e ∙ ap (equal_hash xs) (sym same) ∙ equal_hash_refl xs)

free : NoCollision toy plan_a plan_b
unfolding program digest
free _ _ (whole _) (whole _) e = absurd (differ _ _ refl e)
free _ _ (whole _) (in_left _ _ _ (whole _)) e = absurd (differ _ _ refl e)
free _ _ (whole _) (in_right _ _ _ (whole _)) e = absurd (differ _ _ refl e)
free _ _ (in_left _ _ _ (whole _)) (whole _) e = absurd (differ _ _ refl e)
free _ _ (in_left _ _ _ (whole _)) (in_left _ _ _ (whole _)) e = refl
free _ _ (in_left _ _ _ (whole _)) (in_right _ _ _ (whole _)) e = absurd (differ _ _ refl e)
free _ _ (in_right _ _ _ (whole _)) (whole _) e = absurd (differ _ _ refl e)
free _ _ (in_right _ _ _ (whole _)) (in_left _ _ _ (whole _)) e = absurd (differ _ _ refl e)
free _ _ (in_right _ _ _ (whole _)) (in_right _ _ _ (whole _)) e = absurd (differ _ _ refl e)

free_plans :
    (p q : Plan) → plan_of replica_a ≡ some p → plan_of replica_b ≡ some q → NoCollision toy p q
unfolding program
free_plans p q e f =
    let left : plan_a ≡ p = cc in let right : plan_b ≡ q = cc in rw (← left, ← right) free

letter : (c : ℕ) → c ≢ 0x1f → (k : Bytes) → c ∷ [] ≡ k → IsClean k
letter c h k e = subst (λ (j : Bytes). IsClean j) e (h, tt)

clean_a : KeysClean replica_a
clean_a k (inl e) = letter 98 (λ h. absurd (omega arith)) k e
clean_a k (inr (inl e)) = letter 97 (λ h. absurd (omega arith)) k e
clean_a k (inr (inr h)) = elim h [ ]

clean_b : KeysClean replica_b
clean_b k (inl e) = letter 97 (λ h. absurd (omega arith)) k e
clean_b k (inr (inl e)) = letter 98 (λ h. absurd (omega arith)) k e
clean_b k (inr (inr h)) = elim h [ ]

diff_found : diff (build toy replica_a) (build toy replica_b) ≡ (98 ∷ []) ∷ []
unfolding program digest
diff_found = refl

diff_complete_example : Holds (98 ∷ []) (diff (build toy replica_a) (build toy replica_b))
unfolding program
diff_complete_example =
    diff_complete toy toy_size replica_a replica_b clean_a clean_b free_plans (98 ∷ []) (λ e. cc e)

compare_cost-le_example :
    compare_cost (build toy replica_a) (build toy replica_b)
    ≤ 1 + 2 * (1 * changed_keys ((97 ∷ []) ∷ (98 ∷ []) ∷ []) replica_a replica_b)
unfolding program
compare_cost-le_example = compare_cost-le toy 1 replica_a replica_b refl (omega arith)

separator_confused_example :
    let a = build toy ((97 ∷ 0x1f ∷ 98 ∷ [], 99 ∷ []) ∷ []) in
    let b = build toy ((97 ∷ [], 98 ∷ 0x1f ∷ 99 ∷ []) ∷ []) in
    ◌≢◌ {A = Bytes} (97 ∷ 0x1f ∷ 98 ∷ []) (97 ∷ []) × (root_hash a ≡ root_hash b) × (diff a b ≡ [])
separator_confused_example = separator_confused toy (97 ∷ []) (98 ∷ []) (99 ∷ [])

-- With one key missing the trees have other shapes, and keys that agree are returned, too.
shifted :
    diff
      (build toy ((97 ∷ [], []) ∷ (98 ∷ [], []) ∷ (99 ∷ [], []) ∷ (100 ∷ [], []) ∷ []))
      (build toy ((98 ∷ [], []) ∷ (99 ∷ [], []) ∷ (100 ∷ [], []) ∷ []))
    ≡ (97 ∷ []) ∷ (98 ∷ []) ∷ (99 ∷ []) ∷ (100 ∷ []) ∷ []
unfolding program digest
shifted = refl
