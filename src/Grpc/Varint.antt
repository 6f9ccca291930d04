-- ===== src/Grpc/Varint.antt =====
-- code/grpc_example/wire.go: varints, `VarintSize`, and the zigzag form of signed numbers. A uint64
-- is a number below 2^64; the conversions to int64 and back are written out.
use mathlib.Core.Logic.{dite}
use Prim.Native.Nat.{bit_and, bit_or, bit_xor}
use system_design_handbook.Base.{
  ℕ, zero, suc, ◌+◌, ◌-◌, ◌*◌, ◌/◌, ◌%◌, ◌^◌, ◌<◌, [], ◌∷◌, ◌++◌, ltb, ◌==◌, if◌then◌else◌, Acc,
  lt_wf, dec_lt, arith,
}
use system_design_handbook.Bytes.{Bytes}
use system_design_handbook.Int.{ℤ, pos, negsuc, ltb_ℤ}

abbrev pub u64_mod : ℕ
u64_mod = 2 ^ 64

-- `bad_wire_type` carries the type that is not supported.
pub data Error : Type 0 where
  truncated overflow : Error
  bad_wire_type : ℕ → Error

-- Go's value and error.
pub data Result {ℓ} (A : Type ℓ) : Type ℓ where
  ok : A → Result A
  err : Error → Result A

infixl 5 ◌>>=◌
abbrev pub ◌>>=◌ {ℓ κ} : {A : Type ℓ} {B : Type κ} → Result A → (A → Result B) → Result B
ok a >>= f = f a
err e >>= f = err e

-- `byte(v)|0x80`
abbrev pub more_byte : ℕ → ℕ
more_byte v = bit_or (v % 256) 0x80

shift_shrinks : (v : ℕ) → ¬ (v < 0x80) → v / 128 < v
shift_shrinks v h = omega arith

unfoldable pub varint_loop : Bytes → (v : ℕ) → Acc ◌<◌ v → Bytes
unfolding shift_shrinks
varint_loop b v (Acc.intro _ smaller) =
    dite (dec_lt v 0x80) (λ last. b ++ (v % 256 ∷ []))
      (λ more. varint_loop (b ++ (more_byte v ∷ [])) (v / 128) (smaller _ (shift_shrinks v more)))

unfoldable pub append_varint : Bytes → ℕ → Bytes
append_varint b v = varint_loop b v (lt_wf.apply v)

-- `v | uint64(c&0x7f) << shift`
abbrev pub add_bits : ℕ → ℕ → ℕ → ℕ
add_bits v c shift = bit_or v (bit_and c 0x7f * 2 ^ shift % u64_mod)

-- The loop of `ConsumeVarint` from the index `i` on; the bytes are those from there.
unfoldable pub consume_loop : Bytes → ℕ → ℕ → ℕ → Result (ℕ × ℕ)
consume_loop [] i v shift = err truncated
consume_loop (c ∷ b) i v shift =
    let more = consume_loop b (i + 1) (add_bits v c shift) (shift + 7) in
    if ltb 9 i then err overflow else if ltb c 0x80 then ok (add_bits v c shift, i + 1) else more

unfoldable pub consume_varint : Bytes → Result (ℕ × ℕ)
consume_varint b = consume_loop b 0 0 0

-- `bits.Len64`: the digits of a number, at most as many as the first argument.
unfoldable pub digits_within : ℕ → ℕ → ℕ
digits_within zero v = 0
digits_within (suc n) v = let rest = digits_within n (v / 2) in if v == 0 then 0 else 1 + rest

unfoldable pub len64 : ℕ → ℕ
len64 v = digits_within 64 v

unfoldable pub varint_size : ℕ → ℕ
varint_size v = if v == 0 then 1 else (len64 v + 6) / 7

-- `uint64(v)` of an int64, and `int64(v)` of a uint64.
unfoldable pub to_u64 : ℤ → ℕ
to_u64 (pos n) = n % u64_mod
to_u64 (negsuc n) = u64_mod - 1 - n % u64_mod

unfoldable pub to_i64 : ℕ → ℤ
to_i64 v = if ltb v (2 ^ 63) then pos v else negsuc (u64_mod - 1 - v)

abbrev pub all_ones : ℕ
all_ones = u64_mod - 1

-- `uint64(v<<1) ^ uint64(v>>63)`: the second is 0, or -1 for a negative number.
unfoldable pub zig_zag : ℤ → ℕ
zig_zag v = bit_xor (to_u64 v * 2 % u64_mod) (if ltb_ℤ v (pos 0) then all_ones else 0)

-- `int64(v>>1) ^ -int64(v&1)`
unfoldable pub un_zig_zag : ℕ → ℤ
un_zig_zag v = to_i64 (bit_xor (v / 2) (if bit_and v 1 == 1 then all_ones else 0))
