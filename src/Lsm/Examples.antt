-- ===== src/Lsm/Examples.antt =====
-- code/lsm_memtable/lsm.go: a small tree, and the theorems at concrete inputs.
use mathlib.Core.Logic.{ite}
use system_design_handbook.Base.{
  ℕ, ◌%◌, ◌≡◌, refl, Bool, true, false, none, some, List, [], ◌∷◌, ◌==◌, ℕ_discrete, arith,
}
use system_design_handbook.Bytes.{Bytes, read_full, bytes_discrete}
use system_design_handbook.Bytes.Order.{compare_bytes}
use system_design_handbook.Int.{pos}
use system_design_handbook.Lsm.Memtable.{
  Memtable, new_memtable, after, walk, descend, first, insert_after, set_cell, found, answer,
  entry_at, entries, get_next, get, draw_level, random_level, replace, link, insert_next, insert,
  put, delete,
}
use system_design_handbook.Lsm.Map.{IsValid, new_memtable-IsValid}
use system_design_handbook.Lsm.Inserts.{get-insert}
use system_design_handbook.Lsm.Table.{
  SsTable, encode_entry, write_entries, last_key, flush_entries, flush, start_of, compare_record,
  settle, scan_body, scan_header, scan, table_get,
}
use system_design_handbook.Lsm.Tree.{
  new_lsm_tree, add_table, flush_locked, maybe_flush, tree_put, tree_delete, force_flush,
  newest_first, search_tables, value_found, tree_get, table_count,
}
use system_design_handbook.Lsm.Flushing.{new_memtable-IsGood, table_get-flush}
use system_design_handbook.Lsm.Operations.{Operation, put_op, delete_op, flush_op, last_value}
use system_design_handbook.Lsm.Refinement.{do_one, do_all, insert-IsGood, tree_get-do_all}

program : Unit {0}
unfolding read_full bytes_discrete ℕ_discrete compare_bytes new_memtable after walk descend first
    insert_after set_cell answer entry_at entries get_next get draw_level random_level replace link
    insert_next insert put delete encode_entry write_entries last_key flush_entries flush start_of
    compare_record settle scan_body scan_header scan table_get new_lsm_tree add_table flush_locked
    maybe_flush tree_put tree_delete force_flush newest_first search_tables value_found tree_get
    table_count last_value do_one do_all
program = tt

-- Every third number is below `probability`.
abbrev draws : ℕ → Bool
draws n = n % 3 == 1

abbrev key : ℕ → Bytes
key n = 107 ∷ n ∷ []

-- With a limit of 8 bytes every other write flushes.
abbrev ops : List Operation
ops =
    put_op (key 5) (1 ∷ [])
    ∷ put_op (key 2) (2 ∷ [])
    ∷ put_op (key 9) (3 ∷ 3 ∷ [])
    ∷ put_op (key 5) (4 ∷ [])
    ∷ delete_op (key 2)
    ∷ flush_op
    ∷ put_op (key 7) (5 ∷ [])
    ∷ []

run_five : tree_get (key 5) (do_all draws ops (new_lsm_tree (pos 6))).0 ≡ some (some (4 ∷ []))
unfolding program
run_five = refl

run_two : tree_get (key 2) (do_all draws ops (new_lsm_tree (pos 6))).0 ≡ some none
unfolding program
run_two = refl

run_tables : table_count (do_all draws ops (new_lsm_tree (pos 6))).0 ≡ 3
unfolding program
run_tables = refl

tree_get-do_all_example :
    ((do_all draws ops (new_lsm_tree (pos 6))).1 ≡ true)
    × (tree_get (key 9) (do_all draws ops (new_lsm_tree (pos 6))).0 ≡ some (some (3 ∷ 3 ∷ [])))
unfolding program
tree_get-do_all_example = tree_get-do_all draws (pos 6) ops (key 9) (omega arith)

abbrev one_key : Memtable
one_key = insert draws (key 5) (1 ∷ []) false new_memtable

table_get-flush_example :
    (t : SsTable) × (flush one_key ≡ some t) × ((k : Bytes) → table_get k t ≡ some (get k one_key))
unfolding program
table_get-flush_example =
    table_get-flush one_key
      (insert-IsGood draws (key 5) (1 ∷ []) false new_memtable new_memtable-IsGood (omega arith))
      (omega arith)

get-insert_example :
    IsValid one_key
    × ((j : Bytes)
        → get j one_key ≡ ite (bytes_discrete j (key 5)) (found (1 ∷ [])) (get j new_memtable))
unfolding program
get-insert_example = get-insert draws (key 5) (1 ∷ []) false new_memtable new_memtable-IsValid
