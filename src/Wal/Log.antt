-- ===== src/Wal/Log.antt =====
-- code/wal/wal.go: `WAL` with `append`, `Put`, `Delete`, `Sync`, `Truncate`, `Open`, and `readAll`,
-- `Replay` and `Recover`. CRC-32 is the parameter `crc`. The operations of the file itself succeed:
-- a step that the operating system refuses is not modelled.
use system_design_handbook.Base.{
  ℕ, zero, suc, ◌+◌, ◌-◌, ◌%◌, ◌^◌, Bool, ◌||◌, Option, none, some, ◌>>=◌, List, [], ◌∷◌, ◌++◌,
  length, take, ltb, leb, ◌==◌, if◌then◌else◌,
}
use system_design_handbook.Base.Dict.{insert, erase}
use system_design_handbook.Bytes.{Bytes, put_le, get_le, drop, read_full, bytes_discrete}

abbrev pub header_size : ℕ
header_size = 21

-- The largest length of a key or value that `readAll` accepts, `1<<24`.
abbrev pub max_part : ℕ
max_part = 16_777_216

abbrev pub op_put : ℕ
op_put = 1

abbrev pub op_delete : ℕ
op_delete = 2

pub record Record : Type 0 where
  pub seq : ℕ
  pub op : ℕ
  pub key : Bytes
  pub value : Bytes

-- `file` is what has been written to it, `buffer` what the buffered writer still holds.
pub record Wal : Type 0 where
  pub file : Bytes
  pub buffer : Bytes
  pub seq : ℕ
  pub sync_on_write : Bool

-- The size of the buffer of `bufio.NewWriter`.
abbrev pub buffer_size : ℕ
buffer_size = 4096

-- `bufio.Writer.Write`, once the buffer is empty: what is longer than the buffer goes to the file.
buffer_rest : Bytes → Wal → Wal
buffer_rest p w =
    if ltb buffer_size (length p)
    then record w { file = w.file ++ p; buffer = [] }
    else record w { buffer = p }

-- `bufio.Writer.Write`: fills the buffer, and writes it out when it is full.
unfoldable pub buffered_write : Bytes → Wal → Wal
unfolding buffer_rest
buffered_write p w =
    let room = buffer_size - length w.buffer in
    if leb (length p) room
    then record w { buffer = w.buffer ++ p }
    else (if length w.buffer == 0
        then buffer_rest p w
        else buffer_rest (drop room p)
            (record w { file = w.file ++ (w.buffer ++ take room p); buffer = [] }))

unfoldable pub flush_and_sync : Wal → Wal
flush_and_sync w = record w { file = w.file ++ w.buffer; buffer = [] }

-- `Truncate`
unfoldable pub truncate : Wal → Wal
truncate w = record w { file = []; buffer = [] }

-- `records[n-1].Seq`
unfoldable pub last_seq : List Record → ℕ → ℕ
last_seq [] seq = seq
last_seq (r ∷ rs) seq = last_seq rs r.seq

-- The `switch` of `Recover`; another operation changes nothing.
unfoldable pub apply_record : Record → List (Bytes × Bytes) → List (Bytes × Bytes)
apply_record r state =
    if r.op == op_put
    then insert bytes_discrete r.key r.value state
    else if r.op == op_delete
    then erase bytes_discrete r.key state
    else state

unfoldable pub apply_all : List Record → List (Bytes × Bytes) → List (Bytes × Bytes)
apply_all [] state = state
apply_all (r ∷ rs) state = apply_all rs (apply_record r state)

module _ (crc : Bytes → ℕ) where
  -- What the checksum covers, from byte 4 of the record on.
  abbrev pub payload : Record → Bytes
  payload r =
      put_le 8 r.seq
      ++ (r.op ∷ put_le 4 (length r.key % 2 ^ 32))
      ++ put_le 4 (length r.value % 2 ^ 32)
      ++ r.key
      ++ r.value

  -- The buffer that `append` makes.
  unfoldable pub encode : Record → Bytes
  encode r = put_le 4 (crc (payload r)) ++ payload r

  unfoldable pub append : ℕ → Bytes → Bytes → Wal → Wal × ℕ
  unfolding encode buffered_write flush_and_sync
  append op key value w =
      let seq = (w.seq + 1) % 2 ^ 64 in
      let r : Record = record { seq = seq; op = op; key = key; value = value } in
      let w' = buffered_write (encode r) (record w { seq = seq }) in
      (if w'.sync_on_write then flush_and_sync w' else w', seq)

  unfoldable pub put : Bytes → Bytes → Wal → Wal × ℕ
  put key value w = append op_put key value w

  unfoldable pub delete : Bytes → Wal → Wal × ℕ
  delete key w = append op_delete key [] w

  -- A record once its header and body are read: `none` ends the log.
  unfoldable pub check : Bytes → Bytes → Bytes → Option (Record × Bytes)
  check header body rest =
      let key_len = get_le (take 4 (drop 13 header)) in
      if crc (drop 4 header ++ body) == get_le (take 4 header)
      then some (
        record {
          seq = get_le (take 8 (drop 4 header));
          op = get_le (take 1 (drop 12 header));
          key = take key_len body;
          value = drop key_len body;
        },
        rest,
      )
      else none

  unfoldable pub read_body : Bytes → Bytes → Option (Record × Bytes)
  read_body header bs =
      let key_len = get_le (take 4 (drop 13 header)) in
      let val_len = get_le (take 4 (drop 17 header)) in
      if ltb max_part key_len || ltb max_part val_len
      then none
      else (do (body, rest) ← read_full ((key_len + val_len) % 2 ^ 32) bs; check header body rest)

  -- One round of the loop of `readAll`.
  unfoldable pub read_one : Bytes → Option (Record × Bytes)
  read_one bs = do (header, bs') ← read_full header_size bs; read_body header bs'

  collect : Option (Record × Bytes) → (Bytes → List Record) → List Record
  collect none more = []
  collect (some (r, rest)) more = r ∷ more rest

  -- The loop, on fuel: every round but the last reads at least the header.
  unfoldable pub read_loop : ℕ → Bytes → List Record
  unfolding collect
  read_loop zero bs = []
  read_loop (suc n) bs = collect (read_one bs) (read_loop n)

  -- `readAll` and `Replay`, of the bytes of the file.
  unfoldable pub replay : Bytes → List Record
  replay bs = read_loop (length bs) bs

  -- `Open`, of a file with these bytes.
  unfoldable pub open_wal : Bytes → Bool → Wal
  unfolding last_seq
  open_wal bs sync_on_write = record {
    file = bs;
    buffer = [];
    seq = last_seq (replay bs) 0;
    sync_on_write = sync_on_write;
  }

  -- `Recover`
  unfoldable pub recover : Bytes → List (Bytes × Bytes) × ℕ
  recover bs = let rs = replay bs in (apply_all rs [], last_seq rs 0)
