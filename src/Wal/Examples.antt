-- ===== src/Wal/Examples.antt =====
-- code/wal/wal.go: logs of a few records, and the theorems at concrete inputs.
use system_design_handbook.Base.{
  ℕ, zero, suc, ◌+◌, ◌%◌, ◌^◌, ◌≡◌, refl, true, none, List, [], ◌∷◌, ◌++◌, length, take, arith,
  ℕ_discrete,
}
use system_design_handbook.Base.Dict.{find, insert, erase}
use system_design_handbook.Bytes.{Bytes, bytes_discrete, read_full}
use system_design_handbook.Wal.Log.{
  encode, buffered_write, flush_and_sync, append, put, delete, check, read_body, read_one,
  read_loop, replay, open_wal, last_seq, recover, apply_record, apply_all,
}
use system_design_handbook.Wal.Frames.{IsChecksum}
use system_design_handbook.Wal.Crash.{encode_all, whole}
use system_design_handbook.Wal.Writes.{Write, put_write, delete_write, AllShort, history}
use system_design_handbook.Wal.Appends.{write_one, write_all}
use system_design_handbook.Wal.Oversized.{oversized_ends_log}
use system_design_handbook.Wal.Recovery.{
  log_of, last_value, crash-replay, synced-replay, recover-last,
}

-- A checksum that adds the bytes up.
abbrev checksum : Bytes → ℕ
checksum [] = 0
checksum (b ∷ bs) = (b + checksum bs) % 2 ^ 32

checksum-IsChecksum : IsChecksum checksum
checksum-IsChecksum [] = omega arith
checksum-IsChecksum (b ∷ bs) = omega arith

program : Unit {0}
unfolding ℕ_discrete bytes_discrete find insert erase read_full encode buffered_write flush_and_sync
    append put delete check read_body read_one read_loop replay open_wal last_seq recover
    apply_record apply_all encode_all whole history write_one write_all last_value
program = tt

abbrev writes : List Write
writes = put_write (1 ∷ []) (7 ∷ 8 ∷ []) ∷ delete_write (1 ∷ []) ∷ put_write (2 ∷ []) (9 ∷ []) ∷ []

writes-AllShort : AllShort writes
writes-AllShort = ((omega arith, omega arith), (omega arith, ((omega arith, omega arith), tt)))

-- The first record takes 24 bytes, the second 22.
two_records :
    whole checksum 50 (history writes 0)
    ≡ record { seq = 1; op = 1; key = 1 ∷ []; value = 7 ∷ 8 ∷ [] }
      ∷ record { seq = 2; op = 2; key = 1 ∷ []; value = [] }
      ∷ []
unfolding program
two_records = refl

crash-replay_example :
    replay checksum (take 50 (log_of checksum writes true).file)
    ≡ whole checksum 50 (history writes 0)
unfolding program
crash-replay_example =
    crash-replay checksum checksum-IsChecksum writes true 50 writes-AllShort (omega arith)

synced-replay_example : replay checksum (log_of checksum writes true).file ≡ history writes 0
synced-replay_example = synced-replay checksum checksum-IsChecksum writes writes-AllShort

recover-last_example :
    find bytes_discrete (2 ∷ []) (recover checksum (log_of checksum writes true).file).0
    ≡ last_value (2 ∷ []) writes none
recover-last_example = recover-last checksum checksum-IsChecksum writes (2 ∷ []) writes-AllShort

zeros : ℕ → Bytes
zeros zero = []
zeros (suc n) = 0 ∷ zeros n

length-zeros : (n : ℕ) → length (zeros n) ≡ n
unfolding zeros
length-zeros zero = refl
length-zeros (suc n) = omega (arith, length-zeros n)

abbrev long_key : Bytes
long_key = zeros 16_777_217

oversized_ends_log_example :
    let all = writes ++ put_write long_key [] ∷ writes in
    ((log_of checksum all true).file ≡ encode_all checksum (history all 0))
    × (replay checksum (log_of checksum all true).file ≡ history writes 0)
oversized_ends_log_example =
    oversized_ends_log checksum checksum-IsChecksum writes writes long_key [] writes-AllShort
      (omega (arith, length-zeros 16_777_217)) (omega (arith, length-zeros 16_777_217))
