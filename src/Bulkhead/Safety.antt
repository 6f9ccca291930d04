-- ===== src/Bulkhead/Safety.antt =====
-- code/bulkhead_semaphore/bulkhead.go: the counters are right under every schedule, and the capacity
-- is kept.
use system_design_handbook.Base.{
  ℕ, ◌+◌, ◌<◌, ◌≡◌, refl, inl, inr, Bool-cases, List, [], ◌∷◌, ltb, arith,
}
use system_design_handbook.Bulkhead.Slots.{
  Phase, arriving, holding, counted, running, leaving, returned, refused, Bulkhead, set_phase,
  Choice, send, give_up, default_branch, advance_call, step, run,
}
use system_design_handbook.Bulkhead.Counts.{
  holds_slot, is_running, was_accepted, was_refused, IsValid, Follows-IsValid, active_pos,
  slots_pos,
}

refuse-IsValid :
    (k : ℕ) (b : Bulkhead)
    → b.calls k ≡ arriving
    → k < b.size
    → IsValid b
    → IsValid (set_phase k refused (record b { rejected = b.rejected + 1 }))
unfolding set_phase holds_slot is_running was_accepted was_refused
refuse-IsValid k b e lt v =
    Follows-IsValid k arriving refused b _
      (record {
        from_phase = e;
        calls_moved = λ i. refl;
        same_size = refl;
        same_capacity = refl;
        slots_moved = omega arith;
        active_moved = omega arith;
        accepted_moved = omega arith;
        rejected_moved = omega arith;
        still_within = omega (arith, v.within);
      })
      lt v

advance_call-IsValid :
    (p : Phase) (x : Choice) (k : ℕ) (b : Bulkhead)
    → b.calls k ≡ p
    → k < b.size
    → IsValid b
    → IsValid (advance_call p x k b)
unfolding advance_call holds_slot is_running was_accepted was_refused
advance_call-IsValid arriving send k b e lt v = elim (Bool-cases (ltb b.slots b.capacity)) [
  | inl room ↦ rw room (
      Follows-IsValid k arriving holding b _
        (record {
          from_phase = e;
          calls_moved = λ i. refl;
          same_size = refl;
          same_capacity = refl;
          slots_moved = omega arith;
          active_moved = refl;
          accepted_moved = refl;
          rejected_moved = refl;
          still_within = ground arith;
        })
        lt v)
  | inr full ↦ rw full v
]
advance_call-IsValid arriving give_up k b e lt v = refuse-IsValid k b e lt v
advance_call-IsValid arriving default_branch k b e lt v =
    elim (Bool-cases (ltb b.slots b.capacity)) [
      | inl room ↦ rw room v
      | inr full ↦ rw full (refuse-IsValid k b e lt v)
    ]
advance_call-IsValid holding x k b e lt v =
    Follows-IsValid k holding counted b _
      (record {
        from_phase = e;
        calls_moved = λ i. refl;
        same_size = refl;
        same_capacity = refl;
        slots_moved = omega arith;
        active_moved = omega arith;
        accepted_moved = omega arith;
        rejected_moved = omega arith;
        still_within = omega (arith, v.within);
      })
      lt v
advance_call-IsValid counted x k b e lt v =
    Follows-IsValid k counted running b _
      (record {
        from_phase = e;
        calls_moved = λ i. refl;
        same_size = refl;
        same_capacity = refl;
        slots_moved = omega arith;
        active_moved = omega arith;
        accepted_moved = omega arith;
        rejected_moved = omega arith;
        still_within = omega (arith, v.within);
      })
      lt v
advance_call-IsValid running x k b e lt v =
    Follows-IsValid k running leaving b _
      (record {
        from_phase = e;
        calls_moved = λ i. refl;
        same_size = refl;
        same_capacity = refl;
        slots_moved = omega arith;
        active_moved = omega (arith, active_pos k b lt v e);
        accepted_moved = omega arith;
        rejected_moved = omega arith;
        still_within = omega (arith, v.within);
      })
      lt v
advance_call-IsValid leaving x k b e lt v =
    Follows-IsValid k leaving returned b _
      (record {
        from_phase = e;
        calls_moved = λ i. refl;
        same_size = refl;
        same_capacity = refl;
        slots_moved = omega (arith, slots_pos k b lt v e);
        active_moved = omega arith;
        accepted_moved = omega arith;
        rejected_moved = omega arith;
        still_within = omega (arith, v.within);
      })
      lt v
advance_call-IsValid returned x k b e lt v = v
advance_call-IsValid refused x k b e lt v = v

pub run-IsValid : (ms : List (ℕ × Choice)) (b : Bulkhead) → IsValid b → IsValid (run ms b)
unfolding run step
run-IsValid [] b v = v
run-IsValid ((k, x) ∷ ms) b v = elim (Bool-cases (ltb k b.size)) [
  | inl lt ↦ rw lt (run-IsValid ms _ (advance_call-IsValid (b.calls k) x k b refl (ground arith) v))
  | inr out ↦ rw out (run-IsValid ms b v)
]
