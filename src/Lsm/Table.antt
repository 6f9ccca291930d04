-- ===== src/Lsm/Table.antt =====
-- code/lsm_memtable/lsm.go: `SSTable`, `Flush` and its `Get`. The file of a table is its list of bytes:
-- writing it and opening it again succeed.
use system_design_handbook.Base.{
  ℕ, zero, suc, ◌+◌, ◌%◌, ◌^◌, Bool, ◌||◌, Option, none, some, List, [], ◌∷◌, ◌++◌, length, take,
  ltb, ◌==◌, if◌then◌else◌,
}
use system_design_handbook.Bytes.{Bytes, put_le, get_le, drop, read_full}
use system_design_handbook.Bytes.Order.{ltb_bytes, eqb_bytes}
use system_design_handbook.Lsm.Memtable.{Memtable, Entry, entries, Answer, absent, erased, found}

abbrev pub index_interval : ℕ
index_interval = 16

abbrev pub header_size : ℕ
header_size = 9

pub record IndexEntry : Type 0 where
  pub key : Bytes
  pub offset : ℕ

pub record SsTable : Type 0 where
  pub file : Bytes
  pub index : List IndexEntry
  pub min_key : Bytes
  pub max_key : Bytes
  pub count : ℕ
  pub interval : ℕ

-- The two lengths as uint32, and the byte for a tombstone.
abbrev pub header : Entry → Bytes
header e =
    put_le 4 (length e.key % 2 ^ 32)
    ++ put_le 4 (length e.value % 2 ^ 32)
    ++ ((if e.deleted then 1 else 0) ∷ [])

unfoldable pub encode_entry : Entry → Bytes
encode_entry e = header e ++ (e.key ++ e.value)

-- The loop of `Flush`, from entry number i at this offset: the index, and the bytes.
unfoldable pub write_entries : ℕ → ℕ → List Entry → List IndexEntry × Bytes
unfolding encode_entry
write_entries i offset [] = ([], [])
write_entries i offset (e ∷ es) =
    let (index, bs) =
      write_entries (i + 1) (offset + (header_size + length e.key + length e.value)) es in
    (
      if i % index_interval == 0 then record { key = e.key; offset = offset } ∷ index else index,
      encode_entry e ++ bs,
    )

-- `entries[len(entries)-1].Key`
unfoldable pub last_key : Entry → List Entry → Bytes
last_key e [] = e.key
last_key e (f ∷ es) = last_key f es

unfoldable pub flush_entries : List Entry → Option SsTable
unfolding write_entries last_key
flush_entries [] = none
flush_entries (e ∷ es) =
    let (index, bs) = write_entries 0 0 (e ∷ es) in
    some (record {
      file = bs;
      index = index;
      min_key = e.key;
      max_key = last_key e es;
      count = length (e ∷ es);
      interval = index_interval;
    })

-- `Flush`; `none` is the error for an empty memtable.
unfoldable pub flush : Memtable → Option SsTable
unfolding flush_entries
flush m = flush_entries (entries m)

-- The offset of the last index entry that is not above the key: `sort.Search` finds the first one
-- that is.
unfoldable pub start_of : Bytes → List IndexEntry → ℕ → ℕ
start_of key [] start = start
start_of key (e ∷ index) start =
    let next = start_of key index e.offset in if ltb_bytes key e.key then start else next

-- The `switch` of the loop of `Get`: the answer, or `none` to go on.
unfoldable pub compare_record : Bytes → Bytes → Bytes → Bool → Option Answer
compare_record key k value deleted =
    if eqb_bytes k key
    then some (if deleted then erased else found value)
    else if ltb_bytes key k
    then some absent
    else none

-- Where a record has been read: go on unless it settles the answer.
unfoldable pub settle : Option Answer → Option Answer → Option Answer
settle none more = more
settle (some a) more = some a

-- The body of a record was read, or not; `none` is a panic, of the slice `body[:keyLen]`.
unfoldable pub scan_body :
    Bytes → Bytes → Option (Bytes × Bytes) → (Bytes → Option Answer) → Option Answer
unfolding compare_record settle
scan_body key header none more = some absent
scan_body key header (some (body, rest)) more =
    let key_len = get_le (take 4 header) in
    if ltb (length body) key_len
    then none
    else settle
        (compare_record key (take key_len body) (drop key_len body)
          (get_le (take 1 (drop 8 header)) == 1))
        (more rest)

unfoldable pub scan_header :
    Bytes → Option (Bytes × Bytes) → (Bytes → Option Answer) → Option Answer
unfolding scan_body
scan_header key none more = some absent
scan_header key (some (header, rest)) more =
    let size = (get_le (take 4 header) + get_le (take 4 (drop 4 header))) % 2 ^ 32 in
    scan_body key header (read_full size rest) more

-- The loop of `Get`, for the rounds that are left.
unfoldable pub scan : Bytes → ℕ → Bytes → Option Answer
unfolding scan_header
scan key zero bs = some absent
scan key (suc n) bs = scan_header key (read_full header_size bs) (scan key n)

unfoldable pub table_get : Bytes → SsTable → Option Answer
unfolding start_of scan
table_get key t =
    if ltb_bytes key t.min_key || ltb_bytes t.max_key key
    then some absent
    else scan key (t.interval + 1) (drop (start_of key t.index 0) t.file)
