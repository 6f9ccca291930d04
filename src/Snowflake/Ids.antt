-- ===== src/Snowflake/Ids.antt =====
-- code/snowflake_id/snowflake.go: `Next` as a whole, and sequences of calls of it.
use system_design_handbook.Base.{
  ℕ, zero, suc, ◌/◌, ◌%◌, ◌<◌, ◌≡◌, ◌≢◌, refl, arith, Bool-cases, inl, inr, Option, none, some,
  >>=-eq-some, List, [], ◌∷◌, ◌&&◌,
}
use system_design_handbook.Int.{ℤ, ltb_ℤ}
use system_design_handbook.Snowflake.Generator.{
  Generator, Answer, issued, clock_backwards, before_epoch, timestamp_overflow, wait_while, drift,
  advance, next, new_generator,
}
use system_design_handbook.Snowflake.Monotone.{
  IsValid, Exceeds, Follows, Issues, Outcome, wait_while-done, advance-Outcome,
}

Follows-refused :
    (g : Generator) → IsValid g → Outcome g (record g { reads = suc g.reads }, clock_backwards)
Follows-refused g v = (
  record {
    valid = record { machine_range = v.machine_range; sequence_range = v.sequence_range };
    same_machine = refl;
    later = λ id h. h;
  },
  λ id e. cc,
)

-- From a valid generator, `Next` leaves a valid one of the same machine, whatever it answers. An
-- issued ID fits 63 bits, is later than every ID issued before, and carries the generator's machine,
-- its new millisecond and its new sequence number.
pub next-Outcome :
    (fuel : ℕ) (clock : ℕ → ℤ) (g : Generator) (out : Generator × Answer)
    → IsValid g
    → next fuel clock g ≡ some out
    → Outcome g out
unfolding next
next-Outcome fuel clock g out v e =
    let now = clock g.reads in
    elim (Bool-cases
      (ltb_ℤ now g.last_milli && ltb_ℤ g.max_backward_wait (drift g.last_milli now))) [
        | inl behind ↦
            let e' : (record g { reads = suc g.reads }, clock_backwards) ≡ out = ground arith in
            rw (← e') (Follows-refused g v)
        | inr waits ↦
            let (p, waited, e') =
              >>=-eq-some (wait_while (λ t. ltb_ℤ t g.last_milli) fuel clock now (suc g.reads))
                (λ (t, r). advance fuel clock t r g) {b = out} (ground arith) in
            advance-Outcome fuel clock p.0 p.1 g v
              (wait_while-done _ fuel clock now (suc g.reads) p.0 p.1 waited) out e'
      ]

-- The IDs of a sequence of calls, one of which answered `o`.
collect : Option (Generator × Answer) → (Generator → List ℕ) → List ℕ
collect none rest = []
collect (some (h, issued id)) rest = id ∷ rest h
collect (some (h, clock_backwards)) rest = rest h
collect (some (h, before_epoch)) rest = rest h
collect (some (h, timestamp_overflow)) rest = rest h

-- The IDs that up to n calls of `Next` issue, until one is still waiting for the clock.
unfoldable pub generate : ℕ → ℕ → (ℕ → ℤ) → Generator → List ℕ
unfolding collect
generate zero fuel clock g = []
generate (suc n) fuel clock g = collect (next fuel clock g) (generate n fuel clock)

abbrev pub IsIncreasing : List ℕ → Type 0
IsIncreasing [] = Unit
IsIncreasing (x ∷ []) = Unit
IsIncreasing (x ∷ y ∷ ys) = (x < y) × IsIncreasing (y ∷ ys)

-- Every ID of the list exceeds what `g` has issued and carries its machine.
abbrev pub From : Generator → List ℕ → Type 0
From g [] = Unit
From g (x ∷ xs) = Exceeds g x × (x / 4096 % 1024 ≡ g.machine_id) × From g xs

From-Follows : (g h : Generator) (ids : List ℕ) → Follows g h → From h ids → From g ids
From-Follows g h [] f p = tt
From-Follows g h (x ∷ xs) f p =
    (f.later x p.0, omega (arith, p.1, f.same_machine), From-Follows g h xs f p.2)

Chain : Generator → List ℕ → Type 0
Chain g ids = IsIncreasing ids × From g ids

Chain-Follows : (g h : Generator) (ids : List ℕ) → Follows g h → Chain h ids → Chain g ids
unfolding Chain
Chain-Follows g h ids f c = (c.0, From-Follows g h ids f c.1)

Chain-cons :
    (g h : Generator) (id : ℕ) (ids : List ℕ)
    → Follows g h
    → Issues g h id
    → Chain h ids
    → Chain g (id ∷ ids)
unfolding Chain
Chain-cons g h id [] f i c = (tt, (i.0, omega (arith, i.1.2, f.same_machine), tt))
Chain-cons g h id (y ∷ ys) f i c = (
  (ground (arith, i.1, c.1.0, c.1.1), c.0),
  (i.0, omega (arith, i.1.2, f.same_machine), From-Follows g h (y ∷ ys) f c.1),
)

collect-Chain :
    (g : Generator) (o : Option (Generator × Answer)) (rest : Generator → List ℕ)
    → ((out : Generator × Answer) → o ≡ some out → Outcome g out)
    → ((h : Generator) → IsValid h → Chain h (rest h))
    → Chain g (collect o rest)
unfolding collect Chain
collect-Chain g none rest one more = (tt, tt)
collect-Chain g (some (h, issued id)) rest one more =
    let (f, i) = one (h, issued id) refl in
    Chain-cons g h id (rest h) f (i id refl) (more h f.valid)
collect-Chain g (some (h, clock_backwards)) rest one more =
    let (f, i) = one (h, clock_backwards) refl in Chain-Follows g h (rest h) f (more h f.valid)
collect-Chain g (some (h, before_epoch)) rest one more =
    let (f, i) = one (h, before_epoch) refl in Chain-Follows g h (rest h) f (more h f.valid)
collect-Chain g (some (h, timestamp_overflow)) rest one more =
    let (f, i) = one (h, timestamp_overflow) refl in Chain-Follows g h (rest h) f (more h f.valid)

generate-Chain :
    (n fuel : ℕ) (clock : ℕ → ℤ) (g : Generator) → IsValid g → Chain g (generate n fuel clock g)
unfolding generate Chain
generate-Chain zero fuel clock g v = (tt, tt)
generate-Chain (suc n) fuel clock g v =
    collect-Chain g (next fuel clock g) (generate n fuel clock)
      (λ out e. next-Outcome fuel clock g out v e) (λ h w. generate-Chain n fuel clock h w)

new_generator-IsValid : (id : ℤ) (g : Generator) → new_generator id ≡ some g → IsValid g
unfolding new_generator
new_generator-IsValid id g e = ground arith

-- However often `Next` is called and whatever the clock reads, jumps back and errors included, the
-- IDs that a generator made by `NewGenerator` issues are strictly increasing: none is issued twice.
pub ids_increase :
    (id : ℤ) (g : Generator) (n fuel : ℕ) (clock : ℕ → ℤ)
    → new_generator id ≡ some g
    → IsIncreasing (generate n fuel clock g)
unfolding Chain
ids_increase id g n fuel clock made =
    (generate-Chain n fuel clock g (new_generator-IsValid id g made)).0

-- Two generators with different machine numbers never issue the same ID, whatever their clocks read.
pub machines_disjoint :
    (g h g' h' : Generator) (fuel : ℕ) (clock clock' : ℕ → ℤ) (x y : ℕ)
    → IsValid g
    → IsValid h
    → g.machine_id ≢ h.machine_id
    → next fuel clock g ≡ some (g', issued x)
    → next fuel clock' h ≡ some (h', issued y)
    → x ≢ y
machines_disjoint g h g' h' fuel clock clock' x y v w differ ex ey =
    let (f, i) = next-Outcome fuel clock g (g', issued x) v ex in
    let (k, j) = next-Outcome fuel clock' h (h', issued y) w ey in
    ground (arith, f.same_machine, k.same_machine, (i x refl).1.2, (j y refl).1.2)
