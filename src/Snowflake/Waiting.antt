-- ===== src/Snowflake/Waiting.antt =====
-- code/snowflake_id/snowflake.go: when `Next` answers: the refusal of a clock far behind, and the
-- waiting loops, which end once the clock has moved on.
use Prim.Native.Nat.{bit_and}
use native.Mathlib.Nat.{add-zero}
use system_design_handbook.Base.{
  ℕ, zero, suc, ◌+◌, ◌≤◌, ◌<◌, ◌≡◌, ◌∙◌, ◌↔◌, lt→ltb, ltb→lt, >>=-eq-some, arith, Bool, true, false,
  Bool-cases, inl, inr, some, ltb, ◌==◌, ◌&&◌,
}
use system_design_handbook.Int.{ℤ, pos, ◌+ℤ◌, ◌-ℤ◌, ltb_ℤ, leb_ℤ}
use system_design_handbook.Snowflake.Generator.{
  Generator, Answer, max_sequence, to_int64, clock_backwards, wait_while, drift, issue, advance,
  next,
}

wait_while-idle :
    (busy : ℤ → Bool) (fuel : ℕ) (clock : ℕ → ℤ) (now : ℤ) (reads : ℕ)
    → busy now ≡ false
    → wait_while busy fuel clock now reads ≡ some (now, reads)
unfolding wait_while
wait_while-idle busy zero clock now reads idle = rw idle
wait_while-idle busy (suc fuel) clock now reads idle = rw idle

-- A loop that waits returns once a reading within its fuel ends the wait.
wait_while-ends :
    (busy : ℤ → Bool) (fuel : ℕ) (clock : ℕ → ℤ) (now : ℤ) (reads k : ℕ)
    → k < fuel
    → busy (clock (reads + k)) ≡ false
    → (p : ℤ × ℕ) × (wait_while busy fuel clock now reads ≡ some p) × (reads ≤ p.1)
unfolding wait_while
wait_while-ends busy zero clock now reads k lt ends = elim lt [ ]
wait_while-ends busy (suc fuel) clock now reads zero lt ends = elim (Bool-cases (busy now)) [
  | inr idle ↦ ((now, reads), rw idle, omega arith)
  | inl on ↦
      let first : busy (clock reads) ≡ false = rw add-zero at ends in
      (
        (clock reads, suc reads),
        rw (on, wait_while-idle busy fuel clock (clock reads) (suc reads) first),
        omega arith,
      )
]
wait_while-ends busy (suc fuel) clock now reads (suc k) lt ends = elim (Bool-cases (busy now)) [
  | inr idle ↦ ((now, reads), rw idle, omega arith)
  | inl on ↦
      let shift : suc reads + k ≡ reads + suc k = omega arith in
      let (p, e, le) =
        wait_while-ends busy fuel clock (clock reads) (suc reads) k (omega arith) (rw shift ends) in
      (p, rw (on, e), omega arith)
]

not_yet : (last t : ℤ) → ltb_ℤ last t ≡ true → leb_ℤ t last ≡ false
not_yet last t h = ground arith

caught_up : (last t : ℤ) → ltb_ℤ last t ≡ true → ltb_ℤ t last ≡ false
caught_up last t h = ground arith

module _ (fuel : ℕ) (clock : ℕ → ℤ) (g : Generator) (k : ℕ) (lt : k < fuel)
    (moved : (j : ℕ) → suc g.reads + k ≤ j → ltb_ℤ g.last_milli (clock j) ≡ true) where
  advance-answers :
      (now : ℤ) (reads : ℕ)
      → suc g.reads ≤ reads
      → (out : Generator × Answer) × (advance fuel clock now reads g ≡ some out)
  unfolding advance
  advance-answers now reads after =
      let (p, e, _) =
        wait_while-ends (λ t. leb_ℤ t g.last_milli) fuel clock now reads k lt
          (not_yet g.last_milli (clock (reads + k)) (moved (reads + k) (omega arith))) in
      elim (Bool-cases (leb_ℤ now g.last_milli && leb_ℤ g.last_milli now)) [
        | inr later ↦ (issue now 0 reads g, rw later)
        | inl same ↦ elim (Bool-cases (bit_and (g.sequence + 1) max_sequence == 0)) [
          | inr room ↦ (issue now (bit_and (g.sequence + 1) max_sequence) reads g, rw (same, room))
          | inl full ↦ (issue p.0 (bit_and (g.sequence + 1) max_sequence) p.1 g, rw (same, full, e))
        ]
      ]

  -- `Next` does not wait for ever: if from some reading on the clock is past the last millisecond
  -- used, it answers, within fuel for the readings up to there.
  pub next-answers : (out : Generator × Answer) × (next fuel clock g ≡ some out)
  unfolding next
  next-answers =
      let now = clock g.reads in
      let (p, e, le) =
        wait_while-ends (λ t. ltb_ℤ t g.last_milli) fuel clock now (suc g.reads) k lt
          (caught_up g.last_milli (clock (suc g.reads + k))
            (moved (suc g.reads + k) (omega arith))) in
      let (out, e') = advance-answers p.0 p.1 le in
      elim (Bool-cases
        (ltb_ℤ now g.last_milli && ltb_ℤ g.max_backward_wait (drift g.last_milli now))) [
          | inl behind ↦ ((record g { reads = suc g.reads }, clock_backwards), rw behind)
          | inr waits ↦ (out, rw (waits, e) e')
        ]

issue-not_refused :
    (now : ℤ) (sequence reads : ℕ) (g h : Generator)
    → issue now sequence reads g ≡ (h, clock_backwards)
    → ⊥
unfolding issue
issue-not_refused now sequence reads g h e = ground arith

advance-not_refused :
    (fuel : ℕ) (clock : ℕ → ℤ) (now : ℤ) (reads : ℕ) (g h : Generator)
    → advance fuel clock now reads g ≡ some (h, clock_backwards)
    → ⊥
unfolding advance
advance-not_refused fuel clock now reads g h e =
    let s = bit_and (g.sequence + 1) max_sequence in
    elim (Bool-cases (leb_ℤ now g.last_milli && leb_ℤ g.last_milli now)) [
      | inr later ↦ issue-not_refused now 0 reads g h (ground arith)
      | inl same ↦ elim (Bool-cases (s == 0)) [
        | inr room ↦ issue-not_refused now s reads g h (ground arith)
        | inl full ↦
            let (p, _, e') =
              >>=-eq-some (wait_while (λ t. leb_ℤ t g.last_milli) fuel clock now reads)
                (λ (t, r). some (issue t s r g)) {b = (h, clock_backwards)} (ground arith) in
            issue-not_refused p.0 s p.1 g h (ground arith)
      ]
    ]

drift-test :
    (last now limit : ℤ) (behind : ℕ)
    → limit ≡ pos 5_000_000
    → last ≡ now +ℤ pos behind
    → 0 < behind
    → behind < 9_000_000_000_000
    → (ltb_ℤ now last && ltb_ℤ limit (drift last now)) ≡ ltb 5 behind
unfolding drift ◌-ℤ◌ ◌+ℤ◌ to_int64
drift-test last now limit behind e f h k = ground arith

-- A clock that reads earlier than the last millisecond used is refused exactly if it is more than
-- 5 ms behind (for drifts that stay in the int64 range): then nothing is issued and only the reading
-- is counted. One that is 1 to 5 ms behind is not refused.
pub next_refuses :
    (fuel : ℕ) (clock : ℕ → ℤ) (g : Generator) (behind : ℕ)
    → g.max_backward_wait ≡ pos 5_000_000
    → g.last_milli ≡ clock g.reads +ℤ pos behind
    → 0 < behind
    → behind < 9_000_000_000_000
    → (next fuel clock g ≡ some (record g { reads = suc g.reads }, clock_backwards)) ↔ (5 < behind)
unfolding next
next_refuses fuel clock g behind limit e some_behind small =
    let now = clock g.reads in
    let h = record g { reads = suc g.reads } in
    let test = drift-test g.last_milli now g.max_backward_wait behind limit e some_behind small in
    (
      λ refused. elim (Bool-cases (ltb 5 behind)) [
        | inl far ↦ ltb→lt 5 behind far
        | inr near ↦
            let waits = test ∙ near in
            let (p, _, e') =
              >>=-eq-some (wait_while (λ t. ltb_ℤ t g.last_milli) fuel clock now (suc g.reads))
                (λ (t, r). advance fuel clock t r g) {b = (h, clock_backwards)}
                (rw waits at refused) in
            absurd (advance-not_refused fuel clock p.0 p.1 g h e')
      ],
      λ far. rw (test, lt→ltb 5 behind far),
    )
