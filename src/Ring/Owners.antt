-- ===== src/Ring/Owners.antt =====
-- code/consistent_hashing/ring.go: the owner of a position is what the map holds for it.
use system_design_handbook.Base.{ℕ, ◌≡◌, some, List, ℕ_discrete, arith}
use system_design_handbook.Base.Dict.{find}
use system_design_handbook.Ring.Positions.{owner_of}

module _ {K : Type 0} (dec : Discrete K) (blank : K) where
  pub owner_of-same :
      (owners owners' : List (ℕ × K)) (q : ℕ)
      → find ℕ_discrete q owners' ≡ find ℕ_discrete q owners
      → owner_of dec blank q owners' ≡ owner_of dec blank q owners
  unfolding owner_of
  owner_of-same owners owners' q e = ground arith

  pub owner_of-found :
      (owners : List (ℕ × K)) (q : ℕ) (o : K)
      → find ℕ_discrete q owners ≡ some o
      → owner_of dec blank q owners ≡ o
  unfolding owner_of
  owner_of-found owners q o e = ground arith
