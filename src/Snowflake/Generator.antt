-- ===== src/Snowflake/Generator.antt =====
-- code/snowflake_id/snowflake.go: `NewGenerator`, `Next` and `Parse`.
-- The clock is any sequence of readings, in milliseconds: reading number k is `clock k`, and
-- `reads` counts those taken. The loops that wait for the clock have no bound in the source, so
-- they run on fuel, and `none` says that the generator is still waiting.
use Prim.Native.Nat.{bit_and, bit_or}
use system_design_handbook.Base.{
  ℕ, zero, suc, ◌+◌, ◌-◌, ◌*◌, ◌/◌, ◌%◌, ◌^◌, Bool, ◌&&◌, Option, none, some, ◌>>=◌, ltb, ◌==◌,
  if◌then◌else◌,
}
use system_design_handbook.Int.{ℤ, pos, negsuc, pos_part, ◌+ℤ◌, ◌-ℤ◌, ltb_ℤ, leb_ℤ}

abbrev pub max_machine_id : ℕ
max_machine_id = 1023

abbrev pub max_sequence : ℕ
max_sequence = 4095

-- 1 January 2020, in Unix milliseconds.
abbrev pub epoch : ℤ
epoch = pos 1_577_836_800_000

pub record Generator : Type 0 where
  pub machine_id : ℕ
  pub sequence : ℕ
  pub last_milli : ℤ
  pub max_backward_wait : ℤ  -- nanoseconds
  pub reads : ℕ

-- An error is `none`.
unfoldable pub new_generator : ℤ → Option Generator
new_generator id =
    if ltb_ℤ id (pos 0)
    then none
    else if ltb_ℤ (pos max_machine_id) id
    then none
    else some (record {
      machine_id = pos_part id;
      sequence = 0;
      last_milli = negsuc 0;
      max_backward_wait = pos 5_000_000;
      reads = 0;
    })

pub data Answer : Type 0 where
  issued : ℕ → Answer
  clock_backwards : Answer
  before_epoch : Answer
  timestamp_overflow : Answer

-- An int64 from its residue modulo 2 ^ 64.
unfoldable pub to_int64 : ℕ → ℤ
to_int64 n = let r = n % 2 ^ 64 in if ltb r (2 ^ 63) then pos r else negsuc (2 ^ 64 - r - 1)

-- `time.Duration(last - now) * time.Millisecond`, for a clock that reads `last - now` too early.
unfoldable pub drift : ℤ → ℤ → ℤ
unfolding to_int64
drift last now = to_int64 (pos_part (last -ℤ now) * 1_000_000)

-- Reads the clock again while the test holds: the reading that ends the loop, and the count of
-- readings.
unfoldable pub wait_while : (ℤ → Bool) → ℕ → (ℕ → ℤ) → ℤ → ℕ → Option (ℤ × ℕ)
wait_while busy zero clock now reads = if busy now then none else some (now, reads)
wait_while busy (suc fuel) clock now reads =
    let again = wait_while busy fuel clock (clock reads) (suc reads) in
    if busy now then again else some (now, reads)

-- The layout of an ID.
unfoldable pub make_id : ℕ → ℕ → ℕ → ℕ
make_id elapsed machine sequence = bit_or (bit_or (elapsed * 2 ^ 22) (machine * 2 ^ 12)) sequence

-- The end of `Next`, once the sequence number and the millisecond are settled.
unfoldable pub issue : ℤ → ℕ → ℕ → Generator → Generator × Answer
issue now sequence reads g =
    let g' = record g { sequence = sequence; last_milli = now; reads = reads } in
    let elapsed = now -ℤ epoch in
    if ltb_ℤ elapsed (pos 0)
    then (g', before_epoch)
    else if leb_ℤ (pos (2 ^ 41)) elapsed
    then (g', timestamp_overflow)
    else (g', issued (make_id (pos_part elapsed) g.machine_id sequence))

-- The middle of `Next`, with the clock no longer behind.
unfoldable pub advance : ℕ → (ℕ → ℤ) → ℤ → ℕ → Generator → Option (Generator × Answer)
advance fuel clock now reads g =
    if leb_ℤ now g.last_milli && leb_ℤ g.last_milli now
    then (let sequence = bit_and (g.sequence + 1) max_sequence in
        if sequence == 0
        then (do
          (t, r) ← wait_while (λ t. leb_ℤ t g.last_milli) fuel clock now reads
          some (issue t sequence r g))
        else some (issue now sequence reads g))
    else some (issue now 0 reads g)

unfoldable pub next : ℕ → (ℕ → ℤ) → Generator → Option (Generator × Answer)
next fuel clock g =
    let now = clock g.reads in
    if ltb_ℤ now g.last_milli && ltb_ℤ g.max_backward_wait (drift g.last_milli now)
    then some (record g { reads = suc g.reads }, clock_backwards)
    else (do
      (t, r) ← wait_while (λ t. ltb_ℤ t g.last_milli) fuel clock now (suc g.reads)
      advance fuel clock t r g)

-- `Parse`: the Unix milliseconds, the machine and the sequence number of a non-negative ID.
unfoldable pub parse : ℕ → ℤ × ℕ × ℕ
parse id =
    (pos (id / 2 ^ 22) +ℤ epoch, bit_and (id / 2 ^ 12) max_machine_id, bit_and id max_sequence)
