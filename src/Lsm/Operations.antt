-- ===== src/Lsm/Operations.antt =====
-- code/lsm_memtable/lsm.go: the operations on a tree, and the last value that they leave for a key.
use mathlib.Core.Logic.{ite}
use system_design_handbook.Base.{
  ◌+◌, ◌^◌, ◌<◌, ◌≡◌, refl, Option, none, some, List, [], ◌∷◌, length, arith,
}
use system_design_handbook.Bytes.{Bytes, bytes_discrete}
use system_design_handbook.Int.{ℤ}
use system_design_handbook.Lsm.Memtable.{Cell, Answer, absent, answer}
use system_design_handbook.Lsm.Tree.{new_lsm_tree, newest_first, search_tables, value_found}
use system_design_handbook.Lsm.Flushing.{IsGood, new_memtable-IsGood, get-new_memtable, answer_of}

pub data Operation : Type 0 where
  put_op : Bytes → Bytes → Operation
  delete_op : Bytes → Operation
  flush_op : Operation

-- The value that the last of the writes to a key left, from the value before them.
unfoldable pub last_value : Bytes → List Operation → Option Bytes → Option Bytes
last_value key [] v = v
last_value key (put_op k w ∷ ops) v = last_value key ops (ite (bytes_discrete key k) (some w) v)
last_value key (delete_op k ∷ ops) v = last_value key ops (ite (bytes_discrete key k) none v)
last_value key (flush_op ∷ ops) v = last_value key ops v

-- Every key and value written have lengths that fit a uint32 together.
abbrev pub AllFit : List Operation → Type 0
AllFit [] = Unit
AllFit (put_op k w ∷ ops) = (length k + length w < 2 ^ 32) × AllFit ops
AllFit (delete_op k ∷ ops) = (length k < 2 ^ 32) × AllFit ops
AllFit (flush_op ∷ ops) = AllFit ops

pub newest_first-answer :
    (c : Cell) (older : Option Answer) → newest_first (some (answer c)) older ≡ some (answer c)
unfolding newest_first answer
newest_first-answer c older = ground arith

pub ite-some : {P : Type 0} (d : Dec P) (a b : Answer) → ite d (some a) (some b) ≡ some (ite d a b)
ite-some (yes p) a b = refl
ite-some (no p) a b = refl

pub value_found-ite :
    {P : Type 0} (d : Dec P) (a b : Answer)
    → value_found (ite d a b) ≡ ite d (value_found a) (value_found b)
value_found-ite (yes p) a b = refl
value_found-ite (no p) a b = refl

pub AllFit-split :
    (op : Operation) (ops : List Operation) → AllFit (op ∷ ops) → AllFit (op ∷ []) × AllFit ops
AllFit-split (put_op k w) ops h = ((h.0, tt), h.1)
AllFit-split (delete_op k) ops h = ((h.0, tt), h.1)
AllFit-split flush_op ops h = (tt, h)

pub last_value-cons :
    (key : Bytes) (op : Operation) (ops : List Operation) (v : Option Bytes)
    → last_value key (op ∷ ops) v ≡ last_value key ops (last_value key (op ∷ []) v)
unfolding last_value
last_value-cons key (put_op k w) ops v = refl
last_value-cons key (delete_op k) ops v = refl
last_value-cons key flush_op ops v = refl

pub new_lsm_tree-IsGood : (flush_bytes : ℤ) → IsGood (new_lsm_tree flush_bytes).mem
unfolding new_lsm_tree
new_lsm_tree-IsGood flush_bytes = new_memtable-IsGood

pub answer_of-new :
    (flush_bytes : ℤ) (key : Bytes) → answer_of key (new_lsm_tree flush_bytes) ≡ some absent
unfolding new_lsm_tree newest_first search_tables
answer_of-new flush_bytes key = rw (get-new_memtable key) refl
