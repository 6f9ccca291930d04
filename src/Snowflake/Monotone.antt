-- ===== src/Snowflake/Monotone.antt =====
-- code/snowflake_id/snowflake.go: the IDs of one generator strictly increase, whatever its clock does.
use Prim.Native.Nat.{bit_and}
use system_design_handbook.Base.{
  ℕ, zero, suc, ◌+◌, ◌/◌, ◌%◌, ◌^◌, ◌≤◌, ◌<◌, ◌≡◌, ◌⊎◌, arith, Bool, true, false, Bool-cases, inl,
  inr, some, >>=-eq-some, ◌==◌, ◌&&◌,
}
use system_design_handbook.Int.{ℤ, pos, ◌-ℤ◌, ltb_ℤ, leb_ℤ, pos_part}
use system_design_handbook.Snowflake.Generator.{
  Generator, Answer, issued, max_machine_id, max_sequence, epoch, wait_while, issue, advance,
}
use system_design_handbook.Snowflake.Layout.{make_id-sum, sequence_mask}

pub record IsValid (g : Generator) : Type 0 where
  pub machine_range : g.machine_id ≤ max_machine_id
  pub sequence_range : g.sequence ≤ max_sequence

-- The Unix millisecond of an ID.
abbrev pub stamp : ℕ → ℕ
stamp id = 1_577_836_800_000 + id / 4_194_304

-- The ID is later than anything that the generator has issued.
abbrev pub Exceeds : Generator → ℕ → Type 0
Exceeds g id =
    (ltb_ℤ g.last_milli (pos (stamp id)) ≡ true)
    ⊎ ((g.last_milli ≡ pos (stamp id)) × (g.sequence < id % 4096))

-- The ID is the last one that the generator issued.
abbrev pub IsLast : Generator → ℕ → Type 0
IsLast g id =
    (g.last_milli ≡ pos (stamp id)) × (g.sequence ≡ id % 4096) × (g.machine_id ≡ id / 4096 % 1024)

-- The millisecond has moved on, or the sequence number within it.
abbrev Moves : Generator → ℤ → ℕ → Type 0
Moves g now sequence =
    (ltb_ℤ g.last_milli now ≡ true) ⊎ ((g.last_milli ≡ now) × (g.sequence < sequence))

-- A generator after `g`: what exceeds it exceeds `g`.
pub record Follows (g h : Generator) : Type 0 where
  pub valid : IsValid h
  pub same_machine : h.machine_id ≡ g.machine_id
  pub later : (id : ℕ) → Exceeds h id → Exceeds g id

-- What an issued ID is.
abbrev pub Issues : Generator → Generator → ℕ → Type 0
Issues g h id = Exceeds g id × IsLast h id × (id < 2 ^ 63)

abbrev pub Outcome : Generator → Generator × Answer → Type 0
Outcome g (h, a) = Follows g h × ((id : ℕ) → a ≡ issued id → Issues g h id)

issue-state :
    (now : ℤ) (sequence reads : ℕ) (g : Generator)
    → (issue now sequence reads g).0
      ≡ record g { sequence = sequence; last_milli = now; reads = reads }
unfolding issue
issue-state now sequence reads g = ground arith

module _ (now : ℤ) (sequence reads : ℕ) (g : Generator) (v : IsValid g)
    (range : sequence ≤ max_sequence) (moves : Moves g now sequence) where
  issue_later : (id : ℕ) → Exceeds (issue now sequence reads g).0 id → Exceeds g id
  issue_later id h = ground (arith, issue-state now sequence reads g)

  issue_id :
      (id : ℕ)
      → (issue now sequence reads g).1 ≡ issued id
      → Issues g (issue now sequence reads g).0 id
  unfolding issue ◌-ℤ◌
  issue_id id e =
      ground
        (arith, make_id-sum (pos_part (now -ℤ epoch)) g.machine_id sequence v.machine_range range)

  issue-Outcome : Outcome g (issue now sequence reads g)
  issue-Outcome = (
    record {
      valid = ground (arith, issue-state now sequence reads g);
      same_machine = ground (arith, issue-state now sequence reads g);
      later = issue_later;
    },
    issue_id,
  )

pub wait_while-done :
    (busy : ℤ → Bool) (fuel : ℕ) (clock : ℕ → ℤ) (now : ℤ) (reads : ℕ) (t : ℤ) (r : ℕ)
    → wait_while busy fuel clock now reads ≡ some (t, r)
    → busy t ≡ false
unfolding wait_while
wait_while-done busy zero clock now reads t r h = ground arith
wait_while-done busy (suc fuel) clock now reads t r h =
    ground (arith, wait_while-done busy fuel clock (clock reads) (suc reads) t r)

-- The clock is not behind: the next sequence number, a later millisecond, or still waiting.
pub advance-Outcome :
    (fuel : ℕ) (clock : ℕ → ℤ) (now : ℤ) (reads : ℕ) (g : Generator)
    → IsValid g
    → ltb_ℤ now g.last_milli ≡ false
    → (out : Generator × Answer) → advance fuel clock now reads g ≡ some out
    → Outcome g out
unfolding advance
advance-Outcome fuel clock now reads g v caught_up out e =
    elim (Bool-cases (leb_ℤ now g.last_milli && leb_ℤ g.last_milli now)) [
      | inr moved ↦
          let e' : issue now 0 reads g ≡ out = ground arith in
          rw (← e') (issue-Outcome now 0 reads g v (omega arith) (inl (ground arith)))
      | inl same ↦ elim (Bool-cases (bit_and (g.sequence + 1) max_sequence == 0)) [
        | inr room ↦
            let s = bit_and (g.sequence + 1) max_sequence in
            let up : (s ≤ max_sequence) × (g.sequence < s) =
              ground (arith, sequence_mask (g.sequence + 1), v.sequence_range) in
            let e' : issue now s reads g ≡ out = ground arith in
            rw (← e') (issue-Outcome now s reads g v up.0 (inr (ground arith, up.1)))
        | inl full ↦
            let (p, waited, e') =
              >>=-eq-some (wait_while (λ t. leb_ℤ t g.last_milli) fuel clock now reads)
                (λ (t, r). some (issue t (bit_and (g.sequence + 1) max_sequence) r g)) {b = out}
                (ground arith) in
            let done = wait_while-done _ fuel clock now reads p.0 p.1 waited in
            let s = bit_and (g.sequence + 1) max_sequence in
            let e'' : issue p.0 s p.1 g ≡ out = ground arith in
            rw (← e'') (issue-Outcome p.0 s p.1 g v (ground arith) (inl (ground arith)))
      ]
    ]
