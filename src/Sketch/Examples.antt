-- ===== src/Sketch/Examples.antt =====
-- code/count_min_sketch/cms.go: a small sketch, and the theorems at concrete inputs.
use system_design_handbook.Base.{
  ℕ, ◌+◌, ◌*◌, ◌≤◌, ◌≡◌, refl, List, [], ◌∷◌, for_below, arith, ℕ_discrete,
}
use system_design_handbook.Bytes.{Bytes, bytes_discrete}
use system_design_handbook.Sketch.Counters.{
  new_sketch, set_cell, hashes, column, add_row, add, min_row, estimate, above, insert_by_estimate,
  sort_by_estimate, heavy_hitters,
}
use system_design_handbook.Sketch.Bounds.{weight, anything, is, add_all, estimate-bounds}

program : Unit {0}
unfolding ℕ_discrete for_below bytes_discrete new_sketch set_cell hashes column add_row add min_row
    estimate above insert_by_estimate sort_by_estimate heavy_hitters weight add_all
program = tt

-- A toy sum in place of FNV-1a.
fnv : Bytes → ℕ
fnv [] = 0
fnv (c ∷ bytes) = c + 2 * fnv bytes

-- The second byte string shares a counter of the first row with the first one, the third of the
-- second row.
abbrev stream : List (Bytes × ℕ)
stream = (1 ∷ [], 5) ∷ (4 ∷ [], 2) ∷ (2 ∷ [], 1) ∷ (1 ∷ [], 3) ∷ []

one_estimate : estimate fnv (1 ∷ []) (add_all fnv stream (new_sketch 3 2)) ≡ 9
unfolding program fnv
one_estimate = refl

estimate-bounds_example :
    let c = add_all fnv stream (new_sketch 3 2) in
    (weight fnv (is fnv bytes_discrete (4 ∷ [])) stream ≤ estimate fnv (4 ∷ []) c)
    × (estimate fnv (4 ∷ []) c ≤ weight fnv (anything fnv) stream)
unfolding program fnv
estimate-bounds_example =
    estimate-bounds fnv bytes_discrete (4 ∷ []) 3 2 stream (omega arith) (omega arith)
