-- ===== src/Lsm/Flushing.antt =====
-- code/lsm_memtable/lsm.go: a flush moves the memtable to a table that answers as it did.
use system_design_handbook.Base.{
  ◌+◌, ◌^◌, ◌<◌, ◌≡◌, ◌≢◌, refl, sym, ap, ◌∙◌, inl, inr, Bool, true, Bool-cases, Option, some, List,
  [], ◌∷◌, ◌++◌, map, length, Holds, ◌==◌, if◌then◌else◌, arith,
}
use system_design_handbook.Bytes.{Bytes}
use system_design_handbook.Bytes.Order.{compare_bytes_refl, compare_bytes-cases, gt_of_lt, lt_trans}
use system_design_handbook.Int.{ltb_ℤ, pos}
use system_design_handbook.Lsm.Memtable.{
  Memtable, Cell, entry_at, entries, new_memtable, Answer, absent, erased, found, answer, get,
}
use system_design_handbook.Lsm.Links.{IsSorted}
use system_design_handbook.Lsm.Sorted.{has, has-Above}
use system_design_handbook.Lsm.Map.{IsValid, get-has, new_memtable-IsValid}
use system_design_handbook.Lsm.Table.{SsTable, flush, flush_entries, compare_record, table_get}
use system_design_handbook.Lsm.Scans.{AllShort, lookup}
use system_design_handbook.Lsm.Offsets.{entry_keys}
use system_design_handbook.Lsm.Index.{table_of, table_get-table_of}
use system_design_handbook.Lsm.Tree.{
  LsmTree, add_table, flush_locked, maybe_flush, newest_first, search_tables,
}

-- The keys of a valid memtable and their values have lengths that fit a uint32 together.
pub record IsGood (m : Memtable) : Type 0 where
  pub valid : IsValid m
  pub short : (k : Bytes) → Holds k (m.levels 0) → length k + length (m.cells k).value < 2 ^ 32

pub new_memtable-IsGood : IsGood new_memtable
unfolding new_memtable
new_memtable-IsGood = record { valid = new_memtable-IsValid; short = λ k gone. absurd gone }

lookup-entry_at :
    (key : Bytes) (cells : Bytes → Cell) (l : List Bytes)
    → IsSorted l
    → lookup key (map (entry_at cells) l) ≡ (if has key l then answer (cells key) else absent)
unfolding lookup entry_at has compare_record answer
lookup-entry_at key cells [] sorted = refl
lookup-entry_at key cells (j ∷ l) sorted = elim (compare_bytes-cases j key) [
  | inl low ↦ ground (arith, low, gt_of_lt j key low, lookup-entry_at key cells l sorted.1)
  | inr (inl same) ↦ rw same (ground (arith, compare_bytes_refl key))
  | inr (inr high) ↦
      let gone = has-Above key l (λ i h. lt_trans key j i high (sorted.0 i h)) in
      ground (arith, high, gt_of_lt key j high, gone)
]

entry_keys-map : (cells : Bytes → Cell) (l : List Bytes) → entry_keys (map (entry_at cells) l) ≡ l
unfolding entry_at
entry_keys-map cells [] = refl
entry_keys-map cells (k ∷ l) = ap (◌∷◌ k) (entry_keys-map cells l)

entry_keys-IsSorted :
    (cells : Bytes → Cell) (l : List Bytes)
    → IsSorted l
    → IsSorted (entry_keys (map (entry_at cells) l))
entry_keys-IsSorted cells l sorted = rw (entry_keys-map cells l) sorted

AllShort-map :
    (cells : Bytes → Cell) (l : List Bytes)
    → ((k : Bytes) → Holds k l → length k + length (cells k).value < 2 ^ 32)
    → AllShort (map (entry_at cells) l)
unfolding entry_at
AllShort-map cells [] short = tt
AllShort-map cells (k ∷ l) short =
    (short k (inl refl), AllShort-map cells l (λ j held. short j (inr held)))

flushed_keys :
    (cells : Bytes → Cell) (l : List Bytes)
    → IsSorted l
    → ((k : Bytes) → Holds k l → length k + length (cells k).value < 2 ^ 32)
    → 0 < length l
    → (t : SsTable) × (flush_entries (map (entry_at cells) l) ≡ some t)
      × ((key : Bytes) → table_get key t ≡ some (if has key l then answer (cells key) else absent))
unfolding flush_entries
flushed_keys cells [] sorted short h = absurd (omega arith)
flushed_keys cells (k ∷ l) sorted short h =
    let sorted' = entry_keys-IsSorted cells (k ∷ l) sorted in
    (
      table_of (entry_at cells k) (map (entry_at cells) l),
      refl,
      λ key.
          table_get-table_of (entry_at cells k) (map (entry_at cells) l) key
            (AllShort-map cells (k ∷ l) short) sorted'
          ∙ ap some (lookup-entry_at key cells (k ∷ l) sorted),
    )

-- A valid memtable that has entries, each with a key and a value whose lengths fit a uint32 together,
-- is flushed, and the table answers every key as the memtable does.
pub table_get-flush :
    (m : Memtable)
    → IsGood m
    → m.count ≢ 0
    → (t : SsTable) × (flush m ≡ some t) × ((key : Bytes) → table_get key t ≡ some (get key m))
unfolding flush entries
table_get-flush m g some_entries =
    let (t, wrote, reads) =
      flushed_keys m.cells (m.levels 0) (g.valid.skips.sorted 0) g.short
        (omega (arith, g.valid.counted)) in
    (t, wrote, λ key. reads key ∙ ap some (sym (get-has key m g.valid)))

newest_first_assoc :
    (a : Answer) (o p : Option Answer)
    → newest_first (newest_first (some a) o) p ≡ newest_first (some a) (newest_first o p)
unfolding newest_first
newest_first_assoc absent o p = refl
newest_first_assoc erased o p = refl
newest_first_assoc (found v) o p = refl

search_tables-append :
    (key : Bytes) (ts : List SsTable) (t : SsTable) (a : Answer)
    → table_get key t ≡ some a
    → search_tables key (ts ++ (t ∷ [])) ≡ newest_first (some a) (search_tables key ts)
unfolding search_tables newest_first
search_tables-append key [] t absent e = e
search_tables-append key [] t erased e = e
search_tables-append key [] t (found v) e = e
search_tables-append key (s ∷ ts) t a e =
    rw (search_tables-append key ts t a e)
      (newest_first_assoc a (search_tables key ts) (table_get key s))

-- What the tree answers, a tombstone included.
abbrev pub answer_of : Bytes → LsmTree → Option Answer
answer_of key l = newest_first (some (get key l.mem)) (search_tables key l.tables)

-- A step that reports no error, keeps the memtable good and changes no answer.
pub record Keeps (l : LsmTree) (r : LsmTree × Bool) : Type 0 where
  pub no_error : r.1 ≡ true
  pub good : IsGood r.0.mem
  pub answers : (key : Bytes) → answer_of key r.0 ≡ answer_of key l

pub get-new_memtable : (key : Bytes) → get key new_memtable ≡ absent
unfolding new_memtable has
get-new_memtable key = get-has key new_memtable new_memtable-IsValid

pub flush_locked-Keeps : (l : LsmTree) → IsGood l.mem → Keeps l (flush_locked l)
unfolding flush_locked add_table newest_first search_tables
flush_locked-Keeps l g = elim (Bool-cases (l.mem.count == 0)) [
  | inl empty ↦ rw empty (record { no_error = refl; good = g; answers = λ key. refl })
  | inr full ↦
      let some_entries : l.mem.count ≢ 0 = ground arith in
      let (t, wrote, reads) = table_get-flush l.mem g some_entries in
      rw (full, wrote)
        (record {
          no_error = refl;
          good = new_memtable-IsGood;
          answers = λ key.
              rw (get-new_memtable key)
                (search_tables-append key l.tables t (get key l.mem) (reads key));
        })
]

pub maybe_flush-Keeps : (l : LsmTree) → IsGood l.mem → Keeps l (maybe_flush l)
unfolding maybe_flush
maybe_flush-Keeps l g = elim (Bool-cases (ltb_ℤ (pos l.mem.bytes) l.flush_bytes)) [
  | inl room ↦ rw room (record { no_error = refl; good = g; answers = λ key. refl })
  | inr over ↦ rw over (flush_locked-Keeps l g)
]
