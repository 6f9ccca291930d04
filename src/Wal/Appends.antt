-- ===== src/Wal/Appends.antt =====
-- code/wal/wal.go: sequences of `Put`, `Delete` and `Sync`, and the bytes that they have written.
use mathlib.Core.List.{append_assoc, append-nil}
use system_design_handbook.Base.{
  ℕ, ◌+◌, ◌%◌, ◌^◌, ◌≡◌, refl, ap, sym, ◌∙◌, inl, inr, true, Bool-cases, List, [], ◌∷◌, ◌++◌,
}
use system_design_handbook.Bytes.{Bytes}
use system_design_handbook.Wal.Log.{
  Record, Wal, op_put, op_delete, encode, buffered_write, flush_and_sync, append, put, delete,
}
use system_design_handbook.Wal.Crash.{encode_all}
use system_design_handbook.Wal.Writes.{
  Write, put_write, delete_write, sync_write, history, written, buffered_write-frame,
  buffered_write-written, flush-written,
}

module _ (crc : Bytes → ℕ) where
  unfoldable pub write_one : Write → Wal → Wal
  write_one (put_write key value) w = (put crc key value w).0
  write_one (delete_write key) w = (delete crc key w).0
  write_one sync_write w = flush_and_sync w

  unfoldable pub write_all : List Write → Wal → Wal
  write_all [] w = w
  write_all (x ∷ xs) w = write_all xs (write_one x w)

  -- One `append`: what it adds to the bytes written, and the rest of the state.
  pub record Appends (r : Record) (w w' : Wal) : Type 0 where
    pub bytes : written w' ≡ written w ++ encode crc r
    pub next : w'.seq ≡ r.seq
    pub same_sync : w'.sync_on_write ≡ w.sync_on_write
    pub synced : w.sync_on_write ≡ true → w'.buffer ≡ []

  pub append-Appends :
      (op : ℕ) (key value : Bytes) (w : Wal)
      → Appends
          (record { seq = (w.seq + 1) % 2 ^ 64; op = op; key = key; value = value })
          w
          (append crc op key value w).0
  unfolding append flush_and_sync
  append-Appends op key value w =
      let r : Record = record { seq = (w.seq + 1) % 2 ^ 64; op = op; key = key; value = value } in
      let w1 = record w { seq = (w.seq + 1) % 2 ^ 64 } in
      let w' = buffered_write (encode crc r) w1 in
      let (seq, sync) = buffered_write-frame (encode crc r) w1 in
      let bytes = buffered_write-written (encode crc r) w1 in
      elim (Bool-cases w'.sync_on_write) [
        | inl on ↦ rw on (record {
          bytes = flush-written w' ∙ bytes;
          next = seq;
          same_sync = sym on ∙ sync;
          synced = λ _. refl;
        })
        | inr off ↦ rw off (record {
          bytes = bytes;
          next = seq;
          same_sync = sync;
          synced = λ h. cc (h, off, sync);
        })
      ]

  encode_all-cons-written :
      (r : Record) (rs : List Record) (w w' : Wal)
      → written w' ≡ written w ++ encode crc r
      → written w' ++ encode_all crc rs ≡ written w ++ encode_all crc (r ∷ rs)
  unfolding encode_all
  encode_all-cons-written r rs w w' h =
      rw h (append_assoc (written w) (encode crc r) (encode_all crc rs))

  -- The bytes written are those before and the encoded records.
  pub write_all-written :
      (xs : List Write) (w : Wal)
      → written (write_all xs w) ≡ written w ++ encode_all crc (history xs w.seq)
  unfolding write_all write_one history put delete
  write_all-written [] w = unfold encode_all in sym (append-nil (written w))
  write_all-written (put_write key value ∷ xs) w =
      let w' = (append crc op_put key value w).0 in
      let a = append-Appends op_put key value w in
      write_all-written xs w'
      ∙ rw a.next (encode_all-cons-written _ (history xs ((w.seq + 1) % 2 ^ 64)) w w' a.bytes)
  write_all-written (delete_write key ∷ xs) w =
      let w' = (append crc op_delete key [] w).0 in
      let a = append-Appends op_delete key [] w in
      write_all-written xs w'
      ∙ rw a.next (encode_all-cons-written _ (history xs ((w.seq + 1) % 2 ^ 64)) w w' a.bytes)
  write_all-written (sync_write ∷ xs) w =
      write_all-written xs (flush_and_sync w)
      ∙ unfold flush_and_sync in
        ap (λ (t : Bytes). t ++ encode_all crc (history xs w.seq)) (flush-written w)

  pub write_all-synced :
      (xs : List Write) (w : Wal)
      → w.sync_on_write ≡ true
      → w.buffer ≡ []
      → (write_all xs w).buffer ≡ []
  unfolding write_all write_one put delete flush_and_sync
  write_all-synced [] w on empty = empty
  write_all-synced (put_write key value ∷ xs) w on empty =
      let a = append-Appends op_put key value w in
      write_all-synced xs _ (a.same_sync ∙ on) (a.synced on)
  write_all-synced (delete_write key ∷ xs) w on empty =
      let a = append-Appends op_delete key [] w in
      write_all-synced xs _ (a.same_sync ∙ on) (a.synced on)
  write_all-synced (sync_write ∷ xs) w on empty = write_all-synced xs _ on refl
