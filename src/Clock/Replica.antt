-- ===== src/Clock/Replica.antt =====
-- code/vector_clock/clock.go: `Version`, `Replica`, `Write`, `Receive` and `Siblings`.
use system_design_handbook.Base.{Bool, Option, none, some, List, [], ◌∷◌, ◌++◌, length, ltb}
use system_design_handbook.Clock.Vector.{
  Ordering, equal, before, after, concurrent, VectorClock, increment, merge, compare_clocks,
}

pub record Version (K V : Type 0) : Type 0 where
  pub value : V
  pub clock : VectorClock K

pub record Replica (K V : Type 0) : Type 0 where
  pub id : K
  pub versions : List (Version K V)

unfoldable pub new_replica : {K V : Type 0} → K → Replica K V
new_replica id = record { id = id; versions = [] }

-- `Siblings()`
unfoldable pub siblings : {K V : Type 0} → Replica K V → Bool
siblings r = ltb 1 (length r.versions)

-- the `switch` of `Receive`, over what its `continue` and its `append` lead to
unfoldable pub choose : {A : Type 0} → Ordering → Option A → Option A → Option A
choose equal drop keep = none
choose before drop keep = drop
choose after drop keep = none
choose concurrent drop keep = keep

-- the last line of `Receive`
unfoldable pub settle :
    {K V : Type 0} → Version K V → Replica K V → Option (List (Version K V)) → Replica K V
settle incoming r none = r
settle incoming r (some kept) = record r { versions = kept ++ (incoming ∷ []) }

module _ {K V : Type 0} (dec : Discrete K) where
  -- the loop of `Write`
  unfoldable pub merge_all : VectorClock K → List (Version K V) → VectorClock K
  merge_all clock [] = clock
  merge_all clock (v ∷ vs) = merge_all (merge dec clock v.clock) vs

  unfoldable pub write : V → Replica K V → Replica K V
  write value r =
      let clock = increment dec r.id (merge_all [] r.versions) in
      record r { versions = record { value = value; clock = clock } ∷ [] }

  -- the loop of `Receive`: `none` is the early return, which leaves the replica as it was
  unfoldable pub keep_versions :
      Version K V → List (Version K V) → List (Version K V) → Option (List (Version K V))
  unfolding choose
  keep_versions incoming kept [] = some kept
  keep_versions incoming kept (v ∷ vs) =
      let drop = keep_versions incoming kept vs in
      let keep = keep_versions incoming (kept ++ (v ∷ [])) vs in
      choose (compare_clocks dec v.clock incoming.clock) drop keep

  unfoldable pub receive : Version K V → Replica K V → Replica K V
  unfolding settle
  receive incoming r = settle incoming r (keep_versions incoming [] r.versions)
