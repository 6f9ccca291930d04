-- ===== src/Snowflake/Examples.antt =====
-- code/snowflake_id/snowflake.go: generators at work, and the theorems at concrete inputs.
use system_design_handbook.Base.{ℕ, zero, suc, ◌+◌, ◌≤◌, ◌≡◌, refl, arith, true, some, [], ◌∷◌}
use system_design_handbook.Int.{ℤ, pos, negsuc, ◌+ℤ◌, ◌-ℤ◌, ltb_ℤ}
use system_design_handbook.Snowflake.Generator.{
  Generator, Answer, make_id, parse, new_generator, next, advance, issue, wait_while, drift,
  to_int64,
}
use system_design_handbook.Snowflake.Monotone.{IsValid}
use system_design_handbook.Snowflake.Ids.{generate, IsIncreasing, ids_increase}
use system_design_handbook.Snowflake.Waiting.{next-answers}

program : Unit {0}
unfolding make_id parse new_generator next advance issue wait_while drift to_int64 generate ◌+ℤ◌
    ◌-ℤ◌
program = tt

abbrev fresh : ℕ → Generator
fresh m = record {
  machine_id = m;
  sequence = 0;
  last_milli = negsuc 0;
  max_backward_wait = pos 5_000_000;
  reads = 0;
}

fresh-IsValid : (m : ℕ) → m ≤ 1023 → IsValid (fresh m)
fresh-IsValid m h = record { machine_range = h; sequence_range = omega arith }

-- A clock that stands still for two readings.
abbrev clock : ℕ → ℤ
clock zero = pos 1_577_836_800_007
clock (suc zero) = pos 1_577_836_800_007
clock (suc (suc k)) = pos (1_577_836_800_008 + k)

three_ids : generate 3 10 clock (fresh 5) ≡ 29_380_608 ∷ 29_380_609 ∷ 33_574_912 ∷ []
unfolding program
three_ids = refl

ids_increase_example : IsIncreasing (generate 3 10 clock (fresh 5))
unfolding program
ids_increase_example = ids_increase (pos 5) (fresh 5) 3 10 clock refl

abbrev after : ℕ → Generator
after m = record (fresh m) { last_milli = clock 0; reads = 1 }

-- All sequence numbers of the millisecond are used up: the next call waits.
abbrev full : Generator
full = record (after 5) { sequence = 4095 }

clock_moves : (j : ℕ) → 2 ≤ j → ltb_ℤ (pos 1_577_836_800_007) (clock j) ≡ true
clock_moves zero h = absurd (omega arith)
clock_moves (suc zero) h = absurd (omega arith)
clock_moves (suc (suc k)) h = ground arith

next-answers_example : (out : Generator × Answer) × (next 10 clock full ≡ some out)
next-answers_example = next-answers 10 clock full 0 (omega arith) clock_moves

-- The clock reads 8 ms early.
abbrev ahead : Generator
ahead = record (fresh 5) { last_milli = pos 1_577_836_800_015 }
