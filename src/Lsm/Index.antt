-- ===== src/Lsm/Index.antt =====
-- code/lsm_memtable/lsm.go: the sparse index of a table sends `Get` to a record from which the key is
-- at most `indexInterval` records away.
use mathlib.Core.List.{append_assoc, append-nil}
use system_design_handbook.Base.{
  ℕ, ◌+◌, ◌%◌, ◌≤◌, ◌≡◌, ◌≢◌, refl, sym, ap, ◌∙◌, inl, inr, false, Bool-cases, some, List, [], ◌∷◌,
  ◌++◌, length, length-append, Holds, ◌==◌, arith,
}
use system_design_handbook.Bytes.{Bytes, drop, drop-append}
use system_design_handbook.Bytes.Order.{
  ltb_bytes, ◌≺◌, compare_bytes_refl, compare_bytes-eq, gt_of_lt, lt_trans, ne_of_lt,
}
use system_design_handbook.Lsm.Memtable.{Entry, absent}
use system_design_handbook.Lsm.Links.{IsSorted}
use system_design_handbook.Lsm.Table.{
  SsTable, header, encode_entry, write_entries, last_key, start_of, compare_record, scan, table_get,
}
use system_design_handbook.Lsm.Scans.{AllShort, encode_all, lookup, Ends, scan-lookup}
use system_design_handbook.Lsm.Offsets.{
  entry_keys, AllShort-append_right, IsSorted-append_right, lookup_skip, Ends-append, Ends-short,
  drop-add,
}

-- The bytes from the start on are those of the last of the entries, and searching these ends in time
-- and finds what searching all of them does.
record Reaches (key file : Bytes) (es : List Entry) (start : ℕ) : Type 0 where
  suffix : List Entry
  bytes : drop start file ≡ encode_all suffix
  short : AllShort suffix
  ends : Ends key 17 suffix
  same : lookup key suffix ≡ lookup key es

module _ (key file : Bytes) where
  next_offset :
      (offset : ℕ) (e : Entry) (es : List Entry)
      → drop offset file ≡ encode_all (e ∷ es)
      → drop (offset + (9 + length e.key + length e.value)) file ≡ encode_all es
  unfolding encode_all encode_entry
  next_offset offset e es here =
      let size : 9 + length e.key + length e.value ≡ length (header e ++ (e.key ++ e.value)) =
        omega (arith, length-append (header e) (e.key ++ e.value), length-append e.key e.value) in
      drop-add offset (9 + length e.key + length e.value) file
      ∙ rw (here, size) (drop-append (header e ++ (e.key ++ e.value)) (encode_all es))

  -- From entry number i on, with the entries `mid` since the start.
  start-Reaches :
      (i offset start : ℕ) (mid es : List Entry)
      → length mid ≤ (i + 15) % 16 + 1
      → drop start file ≡ encode_all (mid ++ es)
      → drop offset file ≡ encode_all es
      → AllShort (mid ++ es)
      → IsSorted (entry_keys (mid ++ es))
      → Reaches key file (mid ++ es) (start_of key (write_entries i offset es).0 start)
  unfolding start_of write_entries
  start-Reaches i offset start mid [] gap from here short sorted = record {
    suffix = mid ++ [];
    bytes = from;
    short = short;
    ends = rw (append-nil mid) (Ends-short key 17 mid (omega (arith, gap)));
    same = refl;
  }
  start-Reaches i offset start mid (e ∷ es) gap from here short sorted =
      let next = next_offset offset e es here in
      elim (Bool-cases (i % 16 == 0)) [
        | inr between ↦
            let apart : i % 16 ≢ 0 = ground arith in
            let again =
              start-Reaches (i + 1) (offset + (9 + length e.key + length e.value)) start
                (mid ++ (e ∷ [])) es (omega (arith, gap, length-append mid (e ∷ []), apart))
                (rw (append_assoc mid (e ∷ []) es) from) next
                (rw (append_assoc mid (e ∷ []) es) short)
                (rw (append_assoc mid (e ∷ []) es) sorted) in
            rw between (rw (append_assoc mid (e ∷ []) es) at again)
        | inl indexed ↦ rw indexed (elim (Bool-cases (ltb_bytes key e.key)) [
          | inl above ↦ rw above (record {
            suffix = mid ++ e ∷ es;
            bytes = from;
            short = short;
            ends =
                Ends-append key 17 mid e es (omega (arith, gap))
                  (ground (arith, gt_of_lt key e.key));
            same = refl;
          })
          | inr low ↦
              let again =
                start-Reaches (i + 1) (offset + (9 + length e.key + length e.value)) offset (e ∷ [])
                  es (omega arith) here next (AllShort-append_right mid (e ∷ es) short)
                  (IsSorted-append_right mid (e ∷ es) sorted) in
              rw low (record {
                suffix = again.suffix;
                bytes = again.bytes;
                short = again.short;
                ends = again.ends;
                same = again.same ∙ sym (lookup_skip key mid e es sorted low);
              })
        ])
      ]

last_key-Holds : (e : Entry) (es : List Entry) → Holds (last_key e es) (entry_keys (e ∷ es))
unfolding last_key
last_key-Holds e [] = inl refl
last_key-Holds e (f ∷ es) = inr (last_key-Holds f es)

-- No key is above the last one.
last_key-above :
    (e : Entry) (es : List Entry) (k : Bytes)
    → IsSorted (entry_keys (e ∷ es))
    → Holds k (entry_keys (e ∷ es))
    → ltb_bytes (last_key e es) k ≡ false
unfolding last_key
last_key-above e [] k sorted (inl same) = rw same (ground (arith, compare_bytes_refl k))
last_key-above e [] k sorted (inr gone) = absurd gone
last_key-above e (f ∷ es) k sorted (inl same) =
    let up = sorted.0 (last_key f es) (last_key-Holds f es) in
    rw⁻¹ same (ground (arith, gt_of_lt e.key (last_key f es) up))
last_key-above e (f ∷ es) k sorted (inr there) = last_key-above f es k sorted.1 there

lookup_gone :
    (key : Bytes) (es : List Entry)
    → ((k : Bytes) → Holds k (entry_keys es) → k ≢ key)
    → lookup key es ≡ absent
unfolding lookup compare_record
lookup_gone key [] other = refl
lookup_gone key (e ∷ es) other = ground (
  arith,
  compare_bytes-eq e.key key,
  other e.key (inl refl),
  lookup_gone key es (λ k held. other k (inr held)),
)

lookup_under :
    (key : Bytes) (e : Entry) (es : List Entry)
    → IsSorted (entry_keys (e ∷ es))
    → key ≺ e.key
    → lookup key (e ∷ es) ≡ absent
lookup_under key e es sorted low = lookup_gone key (e ∷ es) (λ k held. elim held [
  | inl same ↦ λ at. ne_of_lt key e.key low (sym (same ∙ at))
  | inr there ↦ λ at. ne_of_lt key k (lt_trans key e.key k low (sorted.0 k there)) (sym at)
])

lookup_over :
    (key : Bytes) (e : Entry) (es : List Entry)
    → IsSorted (entry_keys (e ∷ es))
    → last_key e es ≺ key
    → lookup key (e ∷ es) ≡ absent
lookup_over key e es sorted high = lookup_gone key (e ∷ es) (λ k held at.
    let least = last_key-above e es k sorted held in
    let under : last_key e es ≺ k = rw at high in ground arith)

-- The table that `Flush` makes.
abbrev pub table_of : Entry → List Entry → SsTable
table_of e es =
    let (index, bs) = write_entries 0 0 (e ∷ es) in
    record {
      file = bs;
      index = index;
      min_key = e.key;
      max_key = last_key e es;
      count = length (e ∷ es);
      interval = 16;
    }

file_of : (i offset : ℕ) (es : List Entry) → (write_entries i offset es).1 ≡ encode_all es
unfolding write_entries encode_all
file_of i offset [] = refl
file_of i offset (e ∷ es) =
    rw (file_of (i + 1) (offset + (9 + length e.key + length e.value)) es) refl

-- `Get` of a table that was written from sorted entries finds what searching the entries does.
pub table_get-table_of :
    (e : Entry) (es : List Entry) (key : Bytes)
    → AllShort (e ∷ es)
    → IsSorted (entry_keys (e ∷ es))
    → table_get key (table_of e es) ≡ some (lookup key (e ∷ es))
unfolding table_get
table_get-table_of e es key short sorted = elim (Bool-cases (ltb_bytes key e.key)) [
  | inl low ↦ rw low (ap some (sym (lookup_under key e es sorted (ground arith))))
  | inr from ↦ elim (Bool-cases (ltb_bytes (last_key e es) key)) [
    | inl high ↦ rw (from, high) (ap some (sym (lookup_over key e es sorted (ground arith))))
    | inr to ↦
        let here = file_of 0 0 (e ∷ es) in
        let r =
          start-Reaches key (write_entries 0 0 (e ∷ es)).1 0 0 0 [] (e ∷ es) (omega arith) here here
            short sorted in
        rw (from, to)
          (ap (scan key 17) r.bytes ∙ scan-lookup key 17 r.suffix r.short r.ends ∙ ap some r.same)
  ]
]
