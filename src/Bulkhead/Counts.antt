-- ===== src/Bulkhead/Counts.antt =====
-- code/bulkhead_semaphore/bulkhead.go: what the counters count, and a call that goes to its next phase.
use system_design_handbook.Base.{
  ℕ, ◌+◌, ◌≤◌, ◌<◌, ◌≡◌, ap, Bool, true, false, ◌==◌, if◌then◌else◌, bit, count_below,
  count_below-update, count_below-ext, arith,
}
use system_design_handbook.Bulkhead.Slots.{
  Phase, holding, counted, running, leaving, returned, refused, Bulkhead,
}

-- Which phases hold a slot, have been accepted, and so on.
unfoldable pub holds_slot : Phase → Bool
holds_slot holding = true
holds_slot counted = true
holds_slot running = true
holds_slot leaving = true
holds_slot _ = false

unfoldable pub is_running : Phase → Bool
is_running running = true
is_running _ = false

unfoldable pub was_accepted : Phase → Bool
was_accepted counted = true
was_accepted running = true
was_accepted leaving = true
was_accepted returned = true
was_accepted _ = false

unfoldable pub was_refused : Phase → Bool
was_refused refused = true
was_refused _ = false

-- How many calls are in such a phase.
abbrev pub calls_in : (Phase → Bool) → Bulkhead → ℕ
calls_in p b = count_below b.size (λ i. p (b.calls i))

pub record IsValid (b : Bulkhead) : Type 0 where
  pub slots_held : b.slots ≡ calls_in holds_slot b
  pub active_calls : b.active ≡ calls_in is_running b
  pub accepted_calls : b.accepted ≡ calls_in was_accepted b
  pub rejected_calls : b.rejected ≡ calls_in was_refused b
  pub within : b.slots ≤ b.capacity

moved :
    (p : Phase → Bool) (k : ℕ) (x : Phase) (b : Bulkhead)
    → k < b.size
    → count_below b.size (λ i. p (if i == k then x else b.calls i)) + bit (p (b.calls k))
      ≡ calls_in p b + bit (p x)
moved p k x b lt = count_below-update b.size k p b.calls x lt

-- Call k goes from phase p to phase y, and the counters with it.
pub record Follows (k : ℕ) (p y : Phase) (b c : Bulkhead) : Type 0 where
  pub from_phase : b.calls k ≡ p
  pub calls_moved : (i : ℕ) → c.calls i ≡ (if i == k then y else b.calls i)
  pub same_size : c.size ≡ b.size
  pub same_capacity : c.capacity ≡ b.capacity
  pub slots_moved : c.slots + bit (holds_slot p) ≡ b.slots + bit (holds_slot y)
  pub active_moved : c.active + bit (is_running p) ≡ b.active + bit (is_running y)
  pub accepted_moved : c.accepted + bit (was_accepted p) ≡ b.accepted + bit (was_accepted y)
  pub rejected_moved : c.rejected + bit (was_refused p) ≡ b.rejected + bit (was_refused y)
  pub still_within : c.slots ≤ b.capacity

module _ (k : ℕ) (p y : Phase) (b c : Bulkhead) (f : Follows k p y b c) (lt : k < b.size) where
  counts_moved :
      (test : Phase → Bool) → calls_in test c + bit (test p) ≡ calls_in test b + bit (test y)
  counts_moved test =
      let new =
        count_below-ext b.size (λ i. test (c.calls i)) (λ i. test (if i == k then y else b.calls i))
          (λ i _. ap test (f.calls_moved i)) in
      rw f.same_size (omega (arith, new, rw f.from_phase at (moved test k y b lt)))

  pub Follows-IsValid : IsValid b → IsValid c
  Follows-IsValid v = record {
    slots_held = omega (arith, counts_moved holds_slot, f.slots_moved, v.slots_held);
    active_calls = omega (arith, counts_moved is_running, f.active_moved, v.active_calls);
    accepted_calls = omega (arith, counts_moved was_accepted, f.accepted_moved, v.accepted_calls);
    rejected_calls = omega (arith, counts_moved was_refused, f.rejected_moved, v.rejected_calls);
    within = omega (arith, f.still_within, f.same_capacity);
  }

-- A call that runs is counted as active, and one that has left its function still holds a slot.
module _ (k : ℕ) (b : Bulkhead) (lt : k < b.size) (v : IsValid b) where
  pub active_pos : b.calls k ≡ running → 0 < b.active
  unfolding is_running
  active_pos e = omega (arith, rw e at (moved is_running k leaving b lt), v.active_calls)

  pub slots_pos : b.calls k ≡ leaving → 0 < b.slots
  unfolding holds_slot
  slots_pos e = omega (arith, rw e at (moved holds_slot k returned b lt), v.slots_held)
