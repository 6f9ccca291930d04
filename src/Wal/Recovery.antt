-- ===== src/Wal/Recovery.antt =====
-- code/wal/wal.go: what `Replay`, `Recover` and `Open` find in the file after any sequence of writes,
-- syncs and a crash.
use mathlib.Core.List.{append-nil}
use mathlib.Core.Logic.{ite}
use system_design_handbook.Base.{
  ℕ, ◌≤◌, ◌≡◌, refl, ap, sym, ◌∙◌, Bool, true, Option, none, some, List, [], ◌∷◌, ◌++◌, length,
  take, arith,
}
use system_design_handbook.Base.Dict.{find, insert, erase, find-insert, find-erase}
use system_design_handbook.Bytes.{Bytes, bytes_discrete}
use system_design_handbook.Wal.Log.{
  Record, Wal, op_put, op_delete, encode, append, flush_and_sync, put, delete, replay, open_wal,
  last_seq, recover, apply_record, apply_all,
}
use system_design_handbook.Wal.Frames.{IsChecksum, read_one-encode}
use system_design_handbook.Wal.Crash.{
  AllValid, encode_all, whole, take-within, replay-next, replay-stop, torn_header, replay-cut,
}
use system_design_handbook.Wal.Writes.{
  Write, put_write, delete_write, sync_write, AllShort, history, history-AllValid, written,
}
use system_design_handbook.Wal.Appends.{
  append-Appends, write_one, write_all, write_all-written, write_all-synced,
}

-- The value that the last write of a key gave it.
unfoldable pub last_value : Bytes → List Write → Option Bytes → Option Bytes
last_value j [] v = v
last_value j (put_write key value ∷ xs) v =
    last_value j xs (ite (bytes_discrete key j) (some value) v)
last_value j (delete_write key ∷ xs) v = last_value j xs (ite (bytes_discrete key j) none v)
last_value j (sync_write ∷ xs) v = last_value j xs v

find-apply_all :
    (xs : List Write) (seq : ℕ) (j : Bytes) (state : List (Bytes × Bytes))
    → find bytes_discrete j (apply_all (history xs seq) state)
      ≡ last_value j xs (find bytes_discrete j state)
unfolding apply_all apply_record history last_value
find-apply_all [] seq j state = refl
find-apply_all (put_write key value ∷ xs) seq j state =
    find-apply_all xs _ j (insert bytes_discrete key value state)
    ∙ ap (last_value j xs) (find-insert bytes_discrete key j value state)
find-apply_all (delete_write key ∷ xs) seq j state =
    find-apply_all xs _ j (erase bytes_discrete key state)
    ∙ ap (last_value j xs) (find-erase bytes_discrete key j state)
find-apply_all (sync_write ∷ xs) seq j state = find-apply_all xs seq j state

module _ (crc : Bytes → ℕ) where
  -- A log after these writes to an empty file.
  abbrev pub log_of : List Write → Bool → Wal
  log_of xs sync_on_write =
      write_all crc xs (record { file = []; buffer = []; seq = 0; sync_on_write = sync_on_write })

  log_of-written :
      (xs : List Write) (sync : Bool) → written (log_of xs sync) ≡ encode_all crc (history xs 0)
  log_of-written xs sync =
      write_all-written crc xs (record { file = []; buffer = []; seq = 0; sync_on_write = sync })

  write_all-seq :
      (xs : List Write) (w : Wal) → (write_all crc xs w).seq ≡ last_seq (history xs w.seq) w.seq
  unfolding write_all write_one history last_seq put delete flush_and_sync
  write_all-seq [] w = refl
  write_all-seq (put_write key value ∷ xs) w =
      let next = (append-Appends crc op_put key value w).next in
      write_all-seq xs (append crc op_put key value w).0 ∙ rw next refl
  write_all-seq (delete_write key ∷ xs) w =
      let next = (append-Appends crc op_delete key [] w).next in
      write_all-seq xs (append crc op_delete key [] w).0 ∙ rw next refl
  write_all-seq (sync_write ∷ xs) w = write_all-seq xs _

  module _ (fits : IsChecksum crc) where
    replay-encode_all : (rs : List Record) → AllValid rs → replay crc (encode_all crc rs) ≡ rs
    unfolding encode_all
    replay-encode_all [] v = replay-stop crc [] (torn_header crc fits [] (omega arith))
    replay-encode_all (r ∷ rs) v =
        replay-next crc (encode crc r ++ encode_all crc rs) (encode_all crc rs) r
          (read_one-encode crc fits r v.0 (encode_all crc rs))
        ∙ ap (◌∷◌ r) (replay-encode_all rs v.1)

    -- Whatever has been written and synced, and wherever the file is cut by a crash: `Replay` returns
    -- exactly the records, numbered from 1, of the first writes, as many as are whole in what is left.
    -- (Keys and values are at most 2^24 bytes long.)
    pub crash-replay :
        (xs : List Write) (sync : Bool) (n : ℕ)
        → AllShort xs
        → n ≤ length (log_of xs sync).file
        → replay crc (take n (log_of xs sync).file) ≡ whole crc n (history xs 0)
    crash-replay xs sync n short le =
        let w = log_of xs sync in
        let front : take n (encode_all crc (history xs 0)) ≡ take n w.file =
          sym (ap (take n) (log_of-written xs sync)) ∙ take-within w.file w.buffer n le in
        rw front at (replay-cut crc fits (history xs 0) n (history-AllValid xs 0 short))

    -- With `syncOnWrite` everything written is in the file.
    pub synced-file : (xs : List Write) → (log_of xs true).file ≡ encode_all crc (history xs 0)
    synced-file xs =
        let w = log_of xs true in
        let empty : w.buffer ≡ [] = write_all-synced crc xs _ refl refl in
        sym (append-nil w.file) ∙ rw empty at (log_of-written xs true)

    -- Durability: with `syncOnWrite` every record is in the file when its write returns, so `Replay`
    -- returns all of them, in order. (Keys and values are at most 2^24 bytes long.)
    pub synced-replay :
        (xs : List Write) → AllShort xs → replay crc (log_of xs true).file ≡ history xs 0
    synced-replay xs short =
        rw (synced-file xs) (replay-encode_all (history xs 0) (history-AllValid xs 0 short))

    -- `Recover` of a synced log gives every key the value of its last write, and none to a key that was
    -- never written or was deleted since. (Keys and values are at most 2^24 bytes long.)
    pub recover-last :
        (xs : List Write) (j : Bytes)
        → AllShort xs
        → find bytes_discrete j (recover crc (log_of xs true).file).0 ≡ last_value j xs none
    unfolding recover find
    recover-last xs j short = rw (synced-replay xs short) (find-apply_all xs 0 j [])

    -- A log that is opened again goes on counting where it was: its sequence number is that of the last
    -- write, and the bytes are those that were there. (Keys and values are at most 2^24 bytes long.)
    pub open_wal-continues :
        (xs : List Write) (sync : Bool)
        → AllShort xs
        → let w = open_wal crc (log_of xs true).file sync in
          (w.seq ≡ (log_of xs true).seq) × (written w ≡ written (log_of xs true))
    unfolding open_wal
    open_wal-continues xs sync short =
        let empty : (log_of xs true).buffer ≡ [] = write_all-synced crc xs _ refl refl in
        (
          rw (synced-replay xs short) (
              sym (
                write_all-seq xs
                  (record { file = []; buffer = []; seq = 0; sync_on_write = true }))),
          rw empty refl,
        )
