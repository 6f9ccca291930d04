-- ===== src/Wal/Writes.antt =====
-- code/wal/wal.go: sequences of writes, their records, and where the buffered writer puts the bytes.
use mathlib.Core.List.{append_assoc, append-nil}
use system_design_handbook.Base.{
  ℕ, zero, suc, ◌+◌, ◌-◌, ◌%◌, ◌^◌, ◌≤◌, ◌≡◌, refl, ap, sym, ◌∙◌, inl, inr, Bool-cases, List, [],
  ◌∷◌, ◌++◌, length, take, ltb, leb, ◌==◌, arith,
}
use system_design_handbook.Bytes.{Bytes, drop}
use system_design_handbook.Wal.Log.{
  Record, Wal, max_part, op_put, op_delete, buffer_size, buffered_write, flush_and_sync,
}
use system_design_handbook.Wal.Crash.{AllValid}

pub data Write : Type 0 where
  put_write : Bytes → Bytes → Write
  delete_write : Bytes → Write
  sync_write : Write

-- The keys and values are short enough for `readAll`.
abbrev pub IsShort : Write → Type 0
IsShort (put_write key value) = (length key ≤ max_part) × (length value ≤ max_part)
IsShort (delete_write key) = length key ≤ max_part
IsShort sync_write = Unit

abbrev pub AllShort : List Write → Type 0
AllShort [] = Unit
AllShort (x ∷ xs) = IsShort x × AllShort xs

-- The records of a sequence of writes, from the sequence number before them on.
unfoldable pub history : List Write → ℕ → List Record
history [] seq = []
history (put_write key value ∷ xs) seq =
    let next = (seq + 1) % 2 ^ 64 in
    record { seq = next; op = op_put; key = key; value = value } ∷ history xs next
history (delete_write key ∷ xs) seq =
    let next = (seq + 1) % 2 ^ 64 in
    record { seq = next; op = op_delete; key = key; value = [] } ∷ history xs next
history (sync_write ∷ xs) seq = history xs seq

pub history-AllValid : (xs : List Write) (seq : ℕ) → AllShort xs → AllValid (history xs seq)
unfolding history
history-AllValid [] seq h = tt
history-AllValid (put_write key value ∷ xs) seq h = (
  record { seq_range = omega arith; key_range = h.0.0; value_range = h.0.1 },
  history-AllValid xs ((seq + 1) % 2 ^ 64) h.1,
)
history-AllValid (delete_write key ∷ xs) seq h = (
  record { seq_range = omega arith; key_range = h.0; value_range = omega arith },
  history-AllValid xs ((seq + 1) % 2 ^ 64) h.1,
)
history-AllValid (sync_write ∷ xs) seq h = history-AllValid xs seq h.1

take-drop : (n : ℕ) (xs : Bytes) → take n xs ++ drop n xs ≡ xs
take-drop zero xs = refl
take-drop (suc n) [] = refl
take-drop (suc n) (x ∷ xs) = ap (◌∷◌ x) (take-drop n xs)

-- Everything written, whether it is in the file yet or not.
abbrev pub written : Wal → Bytes
written w = w.file ++ w.buffer

pub buffered_write-frame :
    (p : Bytes) (w : Wal)
    → ((buffered_write p w).seq ≡ w.seq) × ((buffered_write p w).sync_on_write ≡ w.sync_on_write)
unfolding buffered_write
buffered_write-frame p w = ground arith

no_length : (xs : Bytes) → length xs ≡ 0 → xs ≡ []
no_length [] h = refl
no_length (x ∷ xs) h = absurd (omega arith)

pub buffered_write-written : (p : Bytes) (w : Wal) → written (buffered_write p w) ≡ written w ++ p
unfolding buffered_write
buffered_write-written p w =
    let room = buffer_size - length w.buffer in
    let front = w.file ++ (w.buffer ++ take room p) in
    let joined : front ++ drop room p ≡ written w ++ p =
      append_assoc w.file (w.buffer ++ take room p) (drop room p)
      ∙ ap (λ (t : Bytes). w.file ++ t)
          (append_assoc w.buffer (take room p) (drop room p)
            ∙ ap (λ (t : Bytes). w.buffer ++ t) (take-drop room p))
      ∙ sym (append_assoc w.file w.buffer p) in
    elim (Bool-cases (leb (length p) room)) [
      | inl fits ↦ rw fits (sym (append_assoc w.file w.buffer p))
      | inr long ↦ elim (Bool-cases (length w.buffer == 0)) [
        | inl empty ↦
            let none_left : w.buffer ≡ [] = no_length w.buffer (ground arith) in
            elim (Bool-cases (ltb buffer_size (length p))) [
              | inl direct ↦
                  rw (long, empty, direct, none_left, append-nil w.file, append-nil (w.file ++ p))
                    refl
              | inr small ↦ rw (long, empty, small, none_left, append-nil w.file) refl
            ]
        | inr held ↦ elim (Bool-cases (ltb buffer_size (length (drop room p)))) [
          | inl direct ↦ rw (long, held, direct, append-nil (front ++ drop room p)) joined
          | inr small ↦ rw (long, held, small) joined
        ]
      ]
    ]

pub flush-written : (w : Wal) → written (flush_and_sync w) ≡ written w
unfolding flush_and_sync
flush-written w = append-nil (w.file ++ w.buffer)
