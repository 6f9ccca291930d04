-- ===== src/Clock/Examples.antt =====
-- code/vector_clock/clock.go: a conflict and its resolution, and the theorems at concrete inputs.
use system_design_handbook.Base.{ℕ, ◌↔◌, ◌≡◌, refl, arith, inl, inr, true, [], ◌∷◌, ℕ_discrete}
use system_design_handbook.Clock.Maps.{IsMap, get, put}
use system_design_handbook.Clock.Vector.{
  concurrent, VectorClock, verdict, increment, merge, some_less, compare_clocks,
}
use system_design_handbook.Clock.Order.{Means, compare_clocks_iff}
use system_design_handbook.Clock.Replica.{
  Version, Replica, merge_all, write, choose, settle, keep_versions, receive, siblings, new_replica,
}
use system_design_handbook.Clock.Kept.{Antichain, Covered}
use system_design_handbook.Clock.Siblings.{receive-lossless}

program : Unit {0}
unfolding ℕ_discrete get put verdict increment merge some_less compare_clocks merge_all write choose
    settle keep_versions receive siblings new_replica
program = tt

-- Node 1 wrote twice, node 2 once; the second clock has not seen node 1's second write.
abbrev one : VectorClock ℕ
one = (1, 2) ∷ []

abbrev two : VectorClock ℕ
two = (1, 1) ∷ (2, 1) ∷ []

compare_clocks_iff_example :
    (compare_clocks ℕ_discrete one two ≡ concurrent) ↔ Means ℕ_discrete one two concurrent
compare_clocks_iff_example = compare_clocks_iff ℕ_discrete one two concurrent

two-IsMap : IsMap two
two-IsMap = (λ i. elim i [ inl e ↦ absurd (omega arith) | inr j ↦ j ], (λ i. i, tt))

abbrev from_one : Version ℕ ℕ
from_one = record { value = 10; clock = one }

abbrev from_two : Version ℕ ℕ
from_two = record { value = 20; clock = two }

abbrev holds_one : Replica ℕ ℕ
holds_one = record { id = 1; versions = from_one ∷ [] }

-- The concurrent version becomes a sibling.
conflict : siblings (receive ℕ_discrete from_two holds_one) ≡ true
unfolding program
conflict = refl

receive-lossless_example :
    Antichain ℕ_discrete (receive ℕ_discrete from_two holds_one).versions
    × Covered ℕ_discrete from_one (receive ℕ_discrete from_two holds_one).versions
receive-lossless_example =
    receive-lossless ℕ_discrete from_two from_one holds_one (tt, tt) (inr (inl (λ n. omega arith)))

abbrev both : Replica ℕ ℕ
both = record { id = 1; versions = from_one ∷ from_two ∷ [] }
