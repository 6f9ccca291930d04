-- ===== src/Snowflake/Layout.antt =====
-- code/snowflake_id/snowflake.go: the fields of an ID do not overlap, so `Parse` returns them.
use Prim.Native.Nat.{bit_and, bit_or}
use system_design_handbook.Base.{ℕ, ◌+◌, ◌*◌, ◌/◌, ◌%◌, ◌^◌, ◌≤◌, ◌≡◌, ap, ◌∙◌, arith}
use system_design_handbook.Base.Bits.{bit_or_disjoint, bit_and-ones, ones}
use system_design_handbook.Int.{pos, ◌+ℤ◌}
use system_design_handbook.Snowflake.Generator.{max_machine_id, max_sequence, epoch, make_id, parse}

-- The disjoint fields add up.
pub make_id-sum :
    (e m s : ℕ) → m ≤ max_machine_id → s ≤ max_sequence → make_id e m s ≡ (e * 1024 + m) * 4096 + s
unfolding make_id
make_id-sum e m s hm hs =
    let high = bit_or_disjoint 22 e (m * 4096) (omega arith) in
    let low = bit_or_disjoint 12 (e * 1024 + m) s (omega arith) in
    let shape : bit_or (e * 2 ^ 22) (m * 2 ^ 12) ≡ (e * 1024 + m) * 2 ^ 12 = omega (arith, high) in
    ap (λ (t : ℕ). bit_or t s) shape ∙ low

pub sequence_mask : (id : ℕ) → bit_and id max_sequence ≡ id % 4096
unfolding ones
sequence_mask id =
    ap (λ (t : ℕ). bit_and t max_sequence) (omega arith)
    ∙ bit_and-ones 12 (id / 4096) (id % 4096) (omega arith)

pub machine_mask : (id : ℕ) → bit_and id max_machine_id ≡ id % 1024
unfolding ones
machine_mask id =
    ap (λ (t : ℕ). bit_and t max_machine_id) (omega arith)
    ∙ bit_and-ones 10 (id / 1024) (id % 1024) (omega arith)

-- `Parse` takes an ID apart into exactly what it was made of: the time since the epoch, the machine
-- and the sequence number, each in its range.
pub parse-make_id :
    (e m s : ℕ)
    → m ≤ max_machine_id
    → s ≤ max_sequence
    → parse (make_id e m s) ≡ (pos e +ℤ epoch, m, s)
unfolding parse
parse-make_id e m s hm hs =
    let id = make_id e m s in
    let sum = make_id-sum e m s hm hs in
    let time : pos (id / 2 ^ 22) +ℤ epoch ≡ pos e +ℤ epoch =
      ap (λ (t : ℕ). pos t +ℤ epoch) (omega (arith, sum)) in
    let machine : bit_and (id / 4096) max_machine_id ≡ m =
      omega (arith, machine_mask (id / 4096), sum) in
    let sequence : bit_and id max_sequence ≡ s = omega (arith, sequence_mask id, sum) in
    λ i. (time i, machine i, sequence i)
