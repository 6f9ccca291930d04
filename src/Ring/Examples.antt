-- ===== src/Ring/Examples.antt =====
-- code/consistent_hashing/ring.go: small rings, and the theorems at concrete inputs.
use system_design_handbook.Base.{
  ℕ, ◌+◌, ◌*◌, ◌≤◌, ◌≡◌, ◌⊎◌, ◌⊎◌, refl, some, [], ◌∷◌, length, arith, ℕ_discrete,
}
use system_design_handbook.Base.Dict.{find, insert, erase}
use system_design_handbook.Int.{pos}
use system_design_handbook.Ring.Positions.{
  Ring, new_ring, insert_sorted, sort_into, first_from, first, locate, below, from, is_member,
  forget, place_all, add, owner_of, owns, keep_others, remove, owner_at, get, same_owner, seen,
  pick, get_n,
}
use system_design_handbook.Ring.Joining.{add_moves_to_node}
use system_design_handbook.Ring.Leaving.{remove_keeps_others}
use system_design_handbook.Ring.Replicas.{AllDistinct, AllSeen, get_n-AllDistinct}

program : Unit {0}
unfolding ℕ_discrete find insert erase new_ring insert_sorted sort_into first_from first locate
    below from is_member forget place_all add owner_of owns keep_others remove owner_at get
    same_owner seen pick get_n
program = tt

-- Node k has the positions 10 k and 10 k + 100; 0 stands for the empty string.
abbrev place : ℕ → ℕ → ℕ
place k i = 10 * k + 100 * i

abbrev pair : Ring ℕ
pair = record {
  virtual_nodes = 2;
  positions = 10 ∷ 20 ∷ 110 ∷ 120 ∷ [];
  owners = (10, 1) ∷ (110, 1) ∷ (20, 2) ∷ (120, 2) ∷ [];
  nodes = 2 ∷ 1 ∷ [];
}

built : add ℕ_discrete place 2 (add ℕ_discrete place 1 (new_ring (pos 2))) ≡ pair
unfolding program
built = refl

add_moves_to_node_example :
    (get ℕ_discrete 0 25 (add ℕ_discrete place 3 pair) ≡ some 3)
    ⊎ (get ℕ_discrete 0 25 (add ℕ_discrete place 3 pair) ≡ get ℕ_discrete 0 25 pair)
add_moves_to_node_example =
    add_moves_to_node ℕ_discrete place 0 3 pair 25
      (omega arith, (omega arith, (omega arith, (omega arith, tt))))

remove_keeps_others_example : get ℕ_discrete 0 15 (remove ℕ_discrete 0 1 pair) ≡ some 2
unfolding program
remove_keeps_others_example = remove_keeps_others ℕ_discrete 0 1 2 pair 15 refl (omega arith)

get_n-AllDistinct_example :
    let out = get_n ℕ_discrete 0 15 3 pair in
    AllDistinct ℕ_discrete out
    × (length out ≤ 3)
    × (length out ≤ 2)
    × ((length out ≡ 2) ⊎ AllSeen ℕ_discrete 0 pair.positions pair.owners out)
get_n-AllDistinct_example = get_n-AllDistinct ℕ_discrete 0 15 3 pair

-- Two virtual nodes with one hash: when the node that came last leaves, the position stays on the
-- ring, and a key that lands on it is given the zero string as its node.
ghost :
    get ℕ_discrete 0 5 (
      remove ℕ_discrete 0 2
        (add ℕ_discrete (λ _ _. 7) 2 (add ℕ_discrete (λ _ _. 7) 1 (new_ring (pos 1)))))
    ≡ some 0
unfolding program
ghost = refl
