-- ===== src/Lsm/Search.antt =====
-- code/lsm_memtable/lsm.go: the skip list as a sorted map. Whatever levels were drawn, `Get` finds the
-- cell of a key at level 0, and `insert` links a new key there in order.
use system_design_handbook.Base.{
  ℕ, zero, suc, ◌-◌, ◌≤◌, ◌<◌, ◌≡◌, refl, Option, none, some, List, [], Holds, ℕ_discrete, arith,
}
use system_design_handbook.Bytes.{Bytes}
use system_design_handbook.Lsm.Memtable.{after, walk, descend}
use system_design_handbook.Lsm.Links.{IsSorted, IsBefore, Stops, walk-Stops}

-- Every level is sorted and holds keys of the one below only, and from `level` on they are empty.
pub record IsSkipList (levels : ℕ → List Bytes) (level : ℕ) : Type 0 where
  pub sorted : (i : ℕ) → IsSorted (levels i)
  pub nested : (i : ℕ) (k : Bytes) → Holds k (levels (suc i)) → Holds k (levels i)
  pub bottom : 0 < level
  pub top : (i : ℕ) → level ≤ i → levels i ≡ []

module _ (key : Bytes) (levels : ℕ → List Bytes) (level : ℕ) (s : IsSkipList levels level) where
  IsBefore-nested :
      (i : ℕ) (x : Option Bytes) → IsBefore key (levels (suc i)) x → IsBefore key (levels i) x
  IsBefore-nested i none before = tt
  IsBefore-nested i (some p) before = (s.nested i p before.0, before.1)

  -- One round of the outer loop.
  round :
      (i : ℕ) (x : Option Bytes)
      → IsBefore key (levels (suc i)) x
      → Stops key (levels i) (walk key x (after x (levels i)))
        × IsBefore key (levels i) (walk key x (after x (levels i)))
  round i x before = walk-Stops key (levels i) x (s.sorted i) (IsBefore-nested i x before)

  descend_each :
      (n : ℕ) (x : Option Bytes)
      → IsBefore key (levels n) x
      → (i : ℕ) → i < n
      → Stops key (levels i) ((descend key levels n x).0 i)
  unfolding descend
  descend_each zero x before i less = absurd (omega arith)
  descend_each (suc n) x before i less =
      let y = walk key x (after x (levels n)) in
      let now = round n x before in
      elim (ℕ_discrete i n) [
        | yes same ↦ rw same (ground (arith, now.0))
        | no other ↦ ground (arith, descend_each n y now.1 i (omega arith))
      ]

  descend_last :
      (n : ℕ) (x : Option Bytes)
      → IsBefore key (levels (suc n)) x
      → Stops key (levels 0) (descend key levels (suc n) x).1
  unfolding descend
  descend_last zero x before = (round zero x before).0
  descend_last (suc n) x before =
      descend_last n (walk key x (after x (levels (suc n)))) (round (suc n) x before).1

  -- The search from the head.
  pub search-Stops : Stops key (levels 0) (descend key levels level none).1
  search-Stops =
      let e : level ≡ suc (level - 1) = omega (arith, s.bottom) in
      rw e (descend_last (level - 1) none tt)

  pub update-Stops :
      (i : ℕ) → i < level → Stops key (levels i) ((descend key levels level none).0 i)
  update-Stops i less = descend_each level none tt i less

-- The positions that the search leaves unset are the head.
pub descend_unset :
    (key : Bytes) (levels : ℕ → List Bytes) (n : ℕ) (x : Option Bytes) (i : ℕ)
    → n ≤ i
    → (descend key levels n x).0 i ≡ none
unfolding descend
descend_unset key levels zero x i h = refl
descend_unset key levels (suc n) x i h =
    ground (arith, descend_unset key levels n (walk key x (after x (levels n))) i (omega arith))
