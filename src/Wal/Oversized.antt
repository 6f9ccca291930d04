-- ===== src/Wal/Oversized.antt =====
-- code/wal/wal.go: what a record with a key that `readAll` does not accept does to the log.
use mathlib.Core.List.{append_assoc}
use system_design_handbook.Base.{
  ℕ, ◌+◌, ◌%◌, ◌<◌, ◌^◌, ◌≡◌, refl, ap, sym, ◌∙◌, true, none, List, [], ◌∷◌, ◌++◌, length,
}
use system_design_handbook.Bytes.{Bytes}
use system_design_handbook.Wal.Log.{
  Record, max_part, op_put, op_delete, encode, read_one, replay, last_seq,
}
use system_design_handbook.Wal.Frames.{IsChecksum, read_one-encode, read_one-oversized}
use system_design_handbook.Wal.Crash.{AllValid, encode_all, replay-next, replay-stop}
use system_design_handbook.Wal.Writes.{
  Write, put_write, delete_write, sync_write, AllShort, history, history-AllValid,
}
use system_design_handbook.Wal.Recovery.{log_of, synced-file}

history-append :
    (xs ys : List Write) (seq : ℕ)
    → history (xs ++ ys) seq ≡ history xs seq ++ history ys (last_seq (history xs seq) seq)
unfolding history last_seq
history-append [] ys seq = refl
history-append (put_write key value ∷ xs) ys seq =
    ap (◌∷◌ (record { seq = (seq + 1) % 2 ^ 64; op = op_put; key = key; value = value }))
      (history-append xs ys ((seq + 1) % 2 ^ 64))
history-append (delete_write key ∷ xs) ys seq =
    ap (◌∷◌ (record { seq = (seq + 1) % 2 ^ 64; op = op_delete; key = key; value = [] }))
      (history-append xs ys ((seq + 1) % 2 ^ 64))
history-append (sync_write ∷ xs) ys seq = history-append xs ys seq

module _ (crc : Bytes → ℕ) where
  encode_all-append :
      (rs qs : List Record) → encode_all crc (rs ++ qs) ≡ encode_all crc rs ++ encode_all crc qs
  unfolding encode_all
  encode_all-append [] qs = refl
  encode_all-append (r ∷ rs) qs =
      ap (◌++◌ (encode crc r)) (encode_all-append rs qs)
      ∙ sym (append_assoc (encode crc r) (encode_all crc rs) (encode_all crc qs))

  module _ (fits : IsChecksum crc) where
    -- The records before the first one that is not read.
    replay-until :
        (rs : List Record) (bs : Bytes)
        → AllValid rs
        → read_one crc bs ≡ none
        → replay crc (encode_all crc rs ++ bs) ≡ rs
    unfolding encode_all
    replay-until [] bs v stop = replay-stop crc bs stop
    replay-until (r ∷ rs) bs v stop =
        let rest = encode_all crc rs ++ bs in
        rw (append_assoc (encode crc r) (encode_all crc rs) bs) (
          replay-next crc (encode crc r ++ rest) rest r (read_one-encode crc fits r v.0 rest)
          ∙ ap (◌∷◌ r) (replay-until rs bs v.1 stop))

    -- With `syncOnWrite`, writes of keys and values of at most 2^24 bytes, then a put whose key is
    -- longer than that but shorter than 2^32 bytes, then any writes: the file has the records of all of
    -- them, and `Replay` returns only those before the long one.
    pub oversized_ends_log :
        (xs ys : List Write) (key value : Bytes)
        → AllShort xs
        → max_part < length key
        → length key < 2 ^ 32
        → let all = xs ++ put_write key value ∷ ys in
          ((log_of crc all true).file ≡ encode_all crc (history all 0))
          × (replay crc (log_of crc all true).file ≡ history xs 0)
    unfolding history encode_all
    oversized_ends_log xs ys key value short long fits' =
        let all = xs ++ put_write key value ∷ ys in
        let before = last_seq (history xs 0) 0 in
        let r : Record = record {
          seq = (before + 1) % 2 ^ 64;
          op = op_put;
          key = key;
          value = value;
        } in
        let later = encode_all crc (history ys ((before + 1) % 2 ^ 64)) in
        let file = synced-file crc fits all in
        let stop = read_one-oversized crc r later long fits' in
        let split : encode_all crc (history all 0)
            ≡ encode_all crc (history xs 0) ++ (encode crc r ++ later) =
          ap (encode_all crc) (history-append xs (put_write key value ∷ ys) 0)
          ∙ encode_all-append (history xs 0) (history (put_write key value ∷ ys) before) in
        (
          file,
          rw (file, split)
              (replay-until (history xs 0) (encode crc r ++ later) (history-AllValid xs 0 short)
                stop),
        )
