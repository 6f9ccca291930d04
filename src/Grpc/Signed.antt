-- ===== src/Grpc/Signed.antt =====
-- code/grpc_example/wire.go: int64 values in varints, plain and in the zigzag form.
use Prim.Native.Nat.{bit_and, bit_xor}
use system_design_handbook.Base.{
  ℕ, ◌+◌, ◌-◌, ◌*◌, ◌/◌, ◌%◌, ◌^◌, ◌≤◌, ◌<◌, ◌≡◌, ap, ◌∙◌, ◌==◌, if◌then◌else◌, arith,
}
use system_design_handbook.Base.Bits.{ones, bit_and-ones, bit_xor-ones, bit_xor-zero}
use system_design_handbook.Int.{ℤ, pos, negsuc, pos_part, neg_part}
use system_design_handbook.Grpc.Varint.{u64_mod, all_ones, to_u64, to_i64, zig_zag, un_zig_zag}

-- The values of an int64.
abbrev pub IsI64 : ℤ → Type 0
IsI64 v = (pos_part v < 2 ^ 63) × (neg_part v ≤ 2 ^ 63)

pub to_i64-to_u64 : (v : ℤ) → IsI64 v → to_i64 (to_u64 v) ≡ v
unfolding to_i64 to_u64
to_i64-to_u64 (pos n) h = ground arith
to_i64-to_u64 (negsuc n) h = ground arith

pub to_i64-IsI64 : (v : ℕ) → v < u64_mod → IsI64 (to_i64 v)
unfolding to_i64
to_i64-IsI64 v h = ground arith

pub to_u64-lt : (v : ℤ) → to_u64 v < u64_mod
unfolding to_u64
to_u64-lt (pos n) = omega arith
to_u64-lt (negsuc n) = omega arith

turn_over : (r : ℕ) → r < u64_mod → bit_xor r all_ones ≡ all_ones - r
unfolding ones
turn_over r h = omega (arith, bit_xor-ones 64 r h)

last_bit : (v : ℕ) → bit_and v 1 ≡ v % 2
unfolding ones
last_bit v =
    let parts : v ≡ v / 2 * 2 + v % 2 = omega arith in
    ap (λ (t : ℕ). bit_and t 1) parts ∙ bit_and-ones 1 (v / 2) (v % 2) (omega arith)

-- Small numbers of either sign get small codes: 0, -1, 1, -2, … are 0, 1, 2, 3, …
zig_zag_pos : (n : ℕ) → n < 2 ^ 63 → zig_zag (pos n) ≡ 2 * n
unfolding zig_zag to_u64
zig_zag_pos n h = ground (arith, bit_xor-zero (n % u64_mod * 2 % u64_mod))

zig_zag_neg : (n : ℕ) → n < 2 ^ 63 → zig_zag (negsuc n) ≡ 2 * n + 1
unfolding zig_zag to_u64
zig_zag_neg n h =
    ground (arith, turn_over ((u64_mod - 1 - n % u64_mod) * 2 % u64_mod) (omega arith))

un_zig_zag_lem :
    (v : ℕ) → v < u64_mod → un_zig_zag v ≡ (if v % 2 == 1 then negsuc (v / 2) else pos (v / 2))
unfolding un_zig_zag to_i64
un_zig_zag_lem v h =
    ground (arith, last_bit v, turn_over (v / 2) (omega arith), bit_xor-zero (v / 2))

-- UnZigZag takes back what ZigZag did to an int64, and the code is a uint64 of at most twice the
-- absolute value.
pub un_zig_zag-zig_zag :
    (v : ℤ)
    → IsI64 v
    → (un_zig_zag (zig_zag v) ≡ v)
      × (zig_zag v < u64_mod)
      × (zig_zag v ≤ 2 * (pos_part v + neg_part v))
un_zig_zag-zig_zag (pos n) h =
    rw (zig_zag_pos n (omega arith))
      (ground (arith, un_zig_zag_lem (2 * n) (omega arith)), omega arith, omega arith)
un_zig_zag-zig_zag (negsuc n) h =
    rw (zig_zag_neg n (omega arith))
      (ground (arith, un_zig_zag_lem (2 * n + 1) (omega arith)), omega arith, omega arith)
