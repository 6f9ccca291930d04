-- ===== src/Bulkhead/Capacity.antt =====
-- code/bulkhead_semaphore/bulkhead.go: what the bulkhead promises to its dependency and its callers.
use system_design_handbook.Base.{
  ℕ, zero, suc, ◌+◌, ◌≤◌, ◌<◌, ◌≡◌, refl, ◌∙◌, Bool, true, false, some, List, [], ◌∷◌, count_below,
  count_below_mono, arith,
}
use system_design_handbook.Int.{ℤ, pos_part}
use system_design_handbook.Bulkhead.Slots.{
  Phase, returned, refused, Bulkhead, new_bulkhead, Choice, advance_call, step, run,
}
use system_design_handbook.Bulkhead.Counts.{
  holds_slot, is_running, was_accepted, was_refused, calls_in, IsValid,
}
use system_design_handbook.Bulkhead.Safety.{run-IsValid}

none_below : (n : ℕ) → count_below n (λ i. false) ≡ 0
unfolding count_below
none_below zero = refl
none_below (suc n) = omega (arith, none_below n)

new_bulkhead-IsValid :
    (capacity : ℤ) (size : ℕ) (b : Bulkhead) → new_bulkhead capacity size ≡ some b → IsValid b
unfolding new_bulkhead holds_slot is_running was_accepted was_refused
new_bulkhead-IsValid capacity size b e = ground (arith, none_below size)

step-frame :
    (m : ℕ × Choice) (b : Bulkhead)
    → ((step m b).capacity ≡ b.capacity) × ((step m b).size ≡ b.size)
unfolding step advance_call
step-frame (k, x) b = ground arith

run-frame :
    (ms : List (ℕ × Choice)) (b : Bulkhead)
    → ((run ms b).capacity ≡ b.capacity) × ((run ms b).size ≡ b.size)
unfolding run
run-frame [] b = (refl, refl)
run-frame (m ∷ ms) b =
    let s = step-frame m b in let r = run-frame ms (step m b) in (r.0 ∙ s.0, r.1 ∙ s.1)

new_bulkhead-frame :
    (capacity : ℤ) (size : ℕ) (b : Bulkhead)
    → new_bulkhead capacity size ≡ some b
    → (b.capacity ≡ pos_part capacity) × (b.size ≡ size)
unfolding new_bulkhead
new_bulkhead-frame capacity size b e = ground arith

running-holds_slot : (p : Phase) → is_running p ≡ true → holds_slot p ≡ true
unfolding is_running holds_slot
running-holds_slot p h = ground arith

-- At most `capacity` functions run at once, under every schedule of any number of calls of `Do` and
-- `TryDo`: that is the number of calls whose function has started and not returned, which is also
-- what `Active` reports.
pub running_within_capacity :
    (capacity : ℤ) (size : ℕ) (b : Bulkhead) (ms : List (ℕ × Choice))
    → new_bulkhead capacity size ≡ some b
    → (calls_in is_running (run ms b) ≡ (run ms b).active) × ((run ms b).active ≤ pos_part capacity)
running_within_capacity capacity size b ms made =
    let v = run-IsValid ms b (new_bulkhead-IsValid capacity size b made) in
    let c = run ms b in
    let fewer =
      count_below_mono c.size (λ i. is_running (c.calls i)) (λ i. holds_slot (c.calls i))
        (λ i lt. running-holds_slot (c.calls i)) in
    (
      omega (arith, v.active_calls),
      omega (
        arith,
        v.active_calls,
        v.slots_held,
        v.within,
        fewer,
        (run-frame ms b).0,
        (new_bulkhead-frame capacity size b made).0,
      ),
    )

unfoldable pub has_ended : Phase → Bool
has_ended returned = true
has_ended refused = true
has_ended _ = false

-- Once it has ended, a call counts as nothing but accepted or refused.
ended_counts :
    (n : ℕ) (calls : ℕ → Phase)
    → ((i : ℕ) → i < n → has_ended (calls i) ≡ true)
    → (count_below n (λ i. holds_slot (calls i)) ≡ 0)
      × (count_below n (λ i. is_running (calls i)) ≡ 0)
      × (count_below n (λ i. was_accepted (calls i)) + count_below n (λ i. was_refused (calls i))
          ≡ n)
unfolding count_below has_ended holds_slot is_running was_accepted was_refused
ended_counts zero calls h = (refl, refl, refl)
ended_counts (suc n) calls h =
    ground (arith, ended_counts n calls (λ i lt. h i (omega arith)), h n (omega arith))

-- No slot leaks: when every call has returned or been refused, the channel is empty, `Active` is 0, and
-- `Accepted` and `Rejected` add up to the number of calls, under every schedule.
pub no_slot_leaks :
    (capacity : ℤ) (size : ℕ) (b : Bulkhead) (ms : List (ℕ × Choice))
    → new_bulkhead capacity size ≡ some b
    → ((k : ℕ) → k < size → has_ended ((run ms b).calls k) ≡ true)
    → let c = run ms b in (c.slots ≡ 0) × (c.active ≡ 0) × (c.accepted + c.rejected ≡ size)
no_slot_leaks capacity size b ms made ended =
    let v = run-IsValid ms b (new_bulkhead-IsValid capacity size b made) in
    let c = run ms b in
    let same : c.size ≡ size = (run-frame ms b).1 ∙ (new_bulkhead-frame capacity size b made).1 in
    let counts = ended_counts c.size c.calls (λ i lt. ended i (omega (arith, same))) in
    (
      omega (arith, v.slots_held, counts.0),
      omega (arith, v.active_calls, counts.1),
      omega (arith, v.accepted_calls, v.rejected_calls, counts.2, same),
    )
