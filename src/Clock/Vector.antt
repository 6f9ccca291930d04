-- ===== src/Clock/Vector.antt =====
-- code/vector_clock/clock.go: `Increment`, `Copy`, `Merge`, `Compare`, `HappensBefore` and
-- `ConcurrentWith`. A map is a value here, so `Copy` is the identity. `Compare` walks a set of nodes
-- in an order that Go leaves open; it only joins Booleans, so the order and repetitions do not show.
use system_design_handbook.Base.{
  ℕ, ◌+◌, ◌%◌, ◌^◌, Bool, true, false, ◌||◌, List, [], ◌∷◌, ◌++◌, ltb, if◌then◌else◌,
}
use system_design_handbook.Clock.Maps.{keys, get, put}

pub data Ordering : Type 0 where
  equal before after concurrent : Ordering

abbrev pub VectorClock : Type 0 → Type 0
VectorClock K = List (K × ℕ)

abbrev pub u64_mod : ℕ
u64_mod = 2 ^ 64

-- the `switch` of `Compare`
unfoldable pub verdict : Bool → Bool → Ordering
verdict false false = equal
verdict true false = before
verdict false true = after
verdict true true = concurrent

module _ {K : Type 0} (dec : Discrete K) where
  -- `out[node]++` on a uint64
  unfoldable pub increment : K → VectorClock K → VectorClock K
  increment node vc = put dec node ((get dec node vc + 1) % u64_mod) vc

  unfoldable pub merge : VectorClock K → VectorClock K → VectorClock K
  merge out [] = out
  merge out ((node, count) ∷ other) =
      merge (if ltb (get dec node out) count then put dec node count out else out) other

  -- Whether some node of the list reads less in the first clock.
  unfoldable pub some_less : List K → VectorClock K → VectorClock K → Bool
  some_less [] a b = false
  some_less (n ∷ ns) a b = ltb (get dec n a) (get dec n b) || some_less ns a b

  unfoldable pub compare_clocks : VectorClock K → VectorClock K → Ordering
  compare_clocks a b =
      let nodes = keys a ++ keys b in verdict (some_less nodes a b) (some_less nodes b a)

  unfoldable pub happens_before : VectorClock K → VectorClock K → Bool
  happens_before a b = elim (compare_clocks a b) [ before ↦ true | _ ↦ false ]

  unfoldable pub concurrent_with : VectorClock K → VectorClock K → Bool
  concurrent_with a b = elim (compare_clocks a b) [ concurrent ↦ true | _ ↦ false ]
