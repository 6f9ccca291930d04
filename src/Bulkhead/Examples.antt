-- ===== src/Bulkhead/Examples.antt =====
-- code/bulkhead_semaphore/bulkhead.go: three calls of a bulkhead of two, and the theorems there.
use system_design_handbook.Base.{
  ℕ, zero, suc, ◌+◌, ◌≤◌, ◌<◌, ◌≡◌, refl, true, none, List, [], ◌∷◌, count_below, arith,
}
use system_design_handbook.Int.{pos, negsuc}
use system_design_handbook.Bulkhead.Slots.{
  arriving, Bulkhead, new_bulkhead, set_phase, Choice, send, default_branch, arrive, advance_call,
  step, run,
}
use system_design_handbook.Bulkhead.Counts.{is_running, calls_in}
use system_design_handbook.Bulkhead.Capacity.{has_ended, running_within_capacity, no_slot_leaks}

program : Unit {0}
unfolding count_below new_bulkhead set_phase arrive advance_call step run is_running has_ended
program = tt

abbrev two : Bulkhead
two = record {
  capacity = 2;
  slots = 0;
  active = 0;
  accepted = 0;
  rejected = 0;
  size = 3;
  calls = λ _. arriving;
}

-- Calls 0 and 1 run; call 2 is shed.
abbrev busy : List (ℕ × Choice)
busy =
    (0, send) ∷ (1, send) ∷ (2, default_branch) ∷ (0, send) ∷ (0, send) ∷ (1, send) ∷ (1, send) ∷ []

pair_runs : (run busy two).active ≡ 2
unfolding program
pair_runs = refl

running_within_capacity_example :
    (calls_in is_running (run busy two) ≡ (run busy two).active) × ((run busy two).active ≤ 2)
unfolding program
running_within_capacity_example = running_within_capacity (pos 2) 3 two busy refl

negative_capacity : new_bulkhead (negsuc 0) 3 ≡ none
unfolding program
negative_capacity = refl

-- Both return.
abbrev done : List (ℕ × Choice)
done =
    (0, send)
    ∷ (1, send)
    ∷ (2, default_branch)
    ∷ (0, send)
    ∷ (0, send)
    ∷ (1, send)
    ∷ (1, send)
    ∷ (0, send)
    ∷ (0, send)
    ∷ (1, send)
    ∷ (1, send)
    ∷ []

all_ended : (k : ℕ) → k < 3 → has_ended ((run done two).calls k) ≡ true
unfolding program
all_ended zero h = refl
all_ended (suc zero) h = refl
all_ended (suc (suc zero)) h = refl
all_ended (suc (suc (suc k))) h = absurd (omega arith)

no_slot_leaks_example :
    let c = run done two in (c.slots ≡ 0) × (c.active ≡ 0) × (c.accepted + c.rejected ≡ 3)
unfolding program
no_slot_leaks_example = no_slot_leaks (pos 2) 3 two done refl all_ended
