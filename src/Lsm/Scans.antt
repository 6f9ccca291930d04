-- ===== src/Lsm/Scans.antt =====
-- code/lsm_memtable/lsm.go: the loop of `SSTable.Get` reads the records that `Flush` writes.
use mathlib.Core.List.{append_assoc}
use system_design_handbook.Base.{
  ℕ, zero, suc, ◌+◌, ◌%◌, ◌^◌, ◌<◌, ◌≡◌, refl, ◌∙◌, ◌⊎◌, inl, inr, false, Option, none, some, List,
  [], ◌∷◌, ◌++◌, length, length-append, take, ltb, ◌==◌, arith,
}
use system_design_handbook.Bytes.{
  Bytes, get_le, get_le-put_le, drop, read_full, read_full-append, take-append, drop-append,
}
use system_design_handbook.Bytes.Order.{ltb_bytes, compare_bytes-eq, lt_of_gt}
use system_design_handbook.Lsm.Memtable.{Entry, Answer, absent}
use system_design_handbook.Lsm.Table.{
  header, encode_entry, compare_record, settle, scan_body, scan_header, scan,
}

-- Key and value together have a length that fits a uint32.
abbrev pub IsShort : Entry → Type 0
IsShort e = length e.key + length e.value < 2 ^ 32

abbrev pub AllShort : List Entry → Type 0
AllShort [] = Unit
AllShort (e ∷ es) = IsShort e × AllShort es

unfoldable pub encode_all : List Entry → Bytes
encode_all [] = []
encode_all (e ∷ es) = encode_entry e ++ encode_all es

-- What a search through sorted entries finds.
unfoldable pub lookup : Bytes → List Entry → Answer
lookup key [] = absent
lookup key (e ∷ es) =
    let rest = lookup key es in
    elim (compare_record key e.key e.value e.deleted) [ none ↦ rest | some a ↦ a ]

module _ (e : Entry) (short : IsShort e) where
  key_length : get_le (take 4 (header e)) ≡ length e.key
  key_length = get_le-put_le 4 (length e.key % 2 ^ 32) (omega arith) ∙ omega (arith, short)

  value_length : get_le (take 4 (drop 4 (header e))) ≡ length e.value
  value_length = get_le-put_le 4 (length e.value % 2 ^ 32) (omega arith) ∙ omega (arith, short)

  tombstone : (get_le (take 1 (drop 8 (header e))) == 1) ≡ e.deleted
  tombstone = ground arith

  scan_body-own :
      (key : Bytes) (rest : Bytes) (more : Bytes → Option Answer)
      → scan_body key (header e) (some (e.key ++ e.value, rest)) more
        ≡ settle (compare_record key e.key e.value e.deleted) (more rest)
  unfolding scan_body
  scan_body-own key rest more =
      let long : ltb (length (e.key ++ e.value)) (length e.key) ≡ false =
        ground (arith, length-append e.key e.value) in
      rw (key_length, long, take-append e.key e.value, drop-append e.key e.value, tombstone) refl

  pub scan-encode_entry :
      (key : Bytes) (n : ℕ) (rest : Bytes)
      → scan key (suc n) (encode_entry e ++ rest)
        ≡ settle (compare_record key e.key e.value e.deleted) (scan key n rest)
  unfolding scan scan_header encode_entry
  scan-encode_entry key n rest =
      let body = e.key ++ e.value in
      let split = append_assoc (header e) body rest in
      let size : (length e.key + length e.value) % 2 ^ 32 ≡ length body =
        omega (arith, length-append e.key e.value, short) in
      rw
        (
          split,
          read_full-append (header e) (body ++ rest),
          key_length,
          value_length,
          size,
          read_full-append body rest,
        )
        (scan_body-own key rest (scan key n))

-- The search ends within n records.
abbrev pub Ends : Bytes → ℕ → List Entry → Type 0
Ends key zero es = ⊥
Ends key (suc n) [] = Unit
Ends key (suc n) (e ∷ es) = (ltb_bytes e.key key ≡ false) ⊎ Ends key n es

scan_end : (key : Bytes) (n : ℕ) → scan key (suc n) [] ≡ some absent
unfolding scan scan_header read_full
scan_end key n = refl

-- An entry that is not below the key settles the answer.
settles :
    (key : Bytes) (e : Entry) (rest : Option Answer) (later : Answer)
    → ltb_bytes e.key key ≡ false
    → settle (compare_record key e.key e.value e.deleted) rest
      ≡ some (elim (compare_record key e.key e.value e.deleted) [ none ↦ later | some a ↦ a ])
unfolding settle compare_record
settles key e rest later stop = ground (arith, compare_bytes-eq e.key key, lt_of_gt e.key key)

settle-some :
    (o : Option Answer) (later : Answer)
    → settle o (some later) ≡ some (elim o [ none ↦ later | some a ↦ a ])
unfolding settle
settle-some none later = refl
settle-some (some a) later = refl

pub scan-lookup :
    (key : Bytes) (n : ℕ) (es : List Entry)
    → AllShort es
    → Ends key n es
    → scan key n (encode_all es) ≡ some (lookup key es)
unfolding lookup encode_all
scan-lookup key zero es short ends = absurd ends
scan-lookup key (suc n) [] short ends = scan_end key n
scan-lookup key (suc n) (e ∷ es) short (inl stop) =
    rw (scan-encode_entry e short.0 key n (encode_all es))
      (settles key e (scan key n (encode_all es)) (lookup key es) stop)
scan-lookup key (suc n) (e ∷ es) short (inr more) =
    rw (scan-encode_entry e short.0 key n (encode_all es), scan-lookup key n es short.1 more)
      (settle-some (compare_record key e.key e.value e.deleted) (lookup key es))
