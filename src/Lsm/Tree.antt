-- ===== src/Lsm/Tree.antt =====
-- code/lsm_memtable/lsm.go: `LSMTree` with `Put`, `Delete`, `Flush`, `Get` and `Tables`. The names of
-- the files do not show, since no table is ever opened under another's name.
use system_design_handbook.Base.{
  ℕ, ◌+◌, Bool, true, false, Option, none, some, ◌>>=◌, List, [], ◌∷◌, ◌++◌, length, ◌==◌,
  if◌then◌else◌,
}
use system_design_handbook.Bytes.{Bytes}
use system_design_handbook.Int.{ℤ, pos, ltb_ℤ}
use system_design_handbook.Lsm.Memtable.{
  Memtable, new_memtable, Answer, absent, erased, found, get, put, delete,
}
use system_design_handbook.Lsm.Table.{SsTable, flush, table_get}

-- `tables` has the newest last.
pub record LsmTree : Type 0 where
  pub mem : Memtable
  pub tables : List SsTable
  pub flush_bytes : ℤ
  pub flush_counter : ℕ

unfoldable pub new_lsm_tree : ℤ → LsmTree
new_lsm_tree flush_bytes = record {
  mem = new_memtable;
  tables = [];
  flush_bytes = flush_bytes;
  flush_counter = 0;
}

-- The tree, and whether the error is nil.
unfoldable pub add_table : Option SsTable → LsmTree → LsmTree × Bool
add_table none l = (l, false)
add_table (some t) l = (
  record l {
    flush_counter = l.flush_counter + 1;
    tables = l.tables ++ (t ∷ []);
    mem = new_memtable;
  },
  true,
)

unfoldable pub flush_locked : LsmTree → LsmTree × Bool
unfolding add_table
flush_locked l = if l.mem.count == 0 then (l, true) else add_table (flush l.mem) l

unfoldable pub maybe_flush : LsmTree → LsmTree × Bool
unfolding flush_locked
maybe_flush l = if ltb_ℤ (pos l.mem.bytes) l.flush_bytes then (l, true) else flush_locked l

module _ (draws : ℕ → Bool) where
  unfoldable pub tree_put : Bytes → Bytes → LsmTree → LsmTree × Bool
  unfolding maybe_flush
  tree_put key value l = maybe_flush (record l { mem = put draws key value l.mem })

  unfoldable pub tree_delete : Bytes → LsmTree → LsmTree × Bool
  unfolding maybe_flush
  tree_delete key l = maybe_flush (record l { mem = delete draws key l.mem })

-- `Flush`
unfoldable pub force_flush : LsmTree → LsmTree × Bool
unfolding flush_locked
force_flush l = flush_locked l

-- The first answer of a newer part, or else the older parts' one; `none` is a panic.
unfoldable pub newest_first : Option Answer → Option Answer → Option Answer
newest_first none older = none
newest_first (some absent) older = older
newest_first (some erased) older = some erased
newest_first (some (found v)) older = some (found v)

-- The loop over the tables, from the last one.
unfoldable pub search_tables : Bytes → List SsTable → Option Answer
unfolding newest_first
search_tables key [] = some absent
search_tables key (t ∷ ts) = newest_first (search_tables key ts) (table_get key t)

-- The value and whether it was found.
unfoldable pub value_found : Answer → Option Bytes
value_found absent = none
value_found erased = none
value_found (found v) = some v

unfoldable pub tree_get : Bytes → LsmTree → Option (Option Bytes)
unfolding newest_first search_tables value_found
tree_get key l =
    newest_first (some (get key l.mem)) (search_tables key l.tables) >>= λ a. some (value_found a)

-- `Tables`
unfoldable pub table_count : LsmTree → ℕ
table_count l = length l.tables
