-- ===== src/Bulkhead/Slots.antt =====
-- code/bulkhead_semaphore/bulkhead.go: `Bulkhead`, `Do` and `TryDo`, called by any number of
-- goroutines. The channel `slots` is the number of its elements. Each call is a small program whose
-- atomic steps (a send or receive on the channel, an atomic addition) interleave with those of the
-- others; `calls k` says how far call number k has come.
use system_design_handbook.Base.{
  ℕ, ◌+◌, ◌-◌, Option, none, some, List, [], ◌∷◌, ltb, ◌==◌, if◌then◌else◌,
}
use system_design_handbook.Int.{ℤ, pos, leb_ℤ, pos_part}

-- Where a call stands: before its `select`; after its send; after `accepted.Add(1)`; after
-- `active.Add(1)`, while `fn` runs; after `active.Add(-1)`; after the receive; or refused.
pub data Phase : Type 0 where
  arriving holding counted running leaving returned refused : Phase

pub record Bulkhead : Type 0 where
  pub capacity : ℕ
  pub slots : ℕ
  pub active : ℕ
  pub accepted : ℕ
  pub rejected : ℕ
  pub size : ℕ
  pub calls : ℕ → Phase

-- `none` is the panic on a capacity that is not positive; `size` calls are going to be made.
unfoldable pub new_bulkhead : ℤ → ℕ → Option Bulkhead
new_bulkhead capacity size =
    if leb_ℤ capacity (pos 0)
    then none
    else some (record {
      capacity = pos_part capacity;
      slots = 0;
      active = 0;
      accepted = 0;
      rejected = 0;
      size = size;
      calls = λ _. arriving;
    })

unfoldable pub set_phase : ℕ → Phase → Bulkhead → Bulkhead
set_phase k p b = record b { calls = λ i. if i == k then p else b.calls i }

-- What a call that arrives can do: send on the channel; give up because the context has ended (`Do`);
-- or take the `default` branch (`TryDo`), which Go does only when the send would block.
pub data Choice : Type 0 where
  send give_up default_branch : Choice

-- The `select` of `Do` and `TryDo`; a choice that is not possible now changes nothing.
unfoldable pub arrive : Choice → ℕ → Bulkhead → Bulkhead
unfolding set_phase
arrive send k b =
    if ltb b.slots b.capacity then set_phase k holding (record b { slots = b.slots + 1 }) else b
arrive give_up k b = set_phase k refused (record b { rejected = b.rejected + 1 })
arrive default_branch k b =
    if ltb b.slots b.capacity
    then b
    else set_phase k refused (record b { rejected = b.rejected + 1 })

-- The next atomic step of call k, from its phase; the choice matters only at the `select`.
unfoldable pub advance_call : Phase → Choice → ℕ → Bulkhead → Bulkhead
unfolding set_phase arrive
advance_call arriving x k b = arrive x k b
advance_call holding x k b = set_phase k counted (record b { accepted = b.accepted + 1 })
advance_call counted x k b = set_phase k running (record b { active = b.active + 1 })
advance_call running x k b = set_phase k leaving (record b { active = b.active - 1 })
advance_call leaving x k b = set_phase k returned (record b { slots = b.slots - 1 })
advance_call returned x k b = b
advance_call refused x k b = b

unfoldable pub step : ℕ × Choice → Bulkhead → Bulkhead
unfolding advance_call
step (k, x) b = if ltb k b.size then advance_call (b.calls k) x k b else b

-- A schedule: which call takes the next step.
unfoldable pub run : List (ℕ × Choice) → Bulkhead → Bulkhead
run [] b = b
run (m ∷ ms) b = run ms (step m b)
