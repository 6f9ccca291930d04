-- ===== src/Grpc/Groups.antt =====
-- code/grpc_example/wire.go: what varints look like, and that they are read back.
use mathlib.Core.List.{append_assoc}
use native.Mathlib.Nat.{div-add-mod}
use native.Mathlib.Numerals.{towards_suc}
use Prim.Native.Nat.{bit_and, bit_or}
use system_design_handbook.Base.{
  ℕ, zero, suc, ◌+◌, ◌*◌, ◌/◌, ◌%◌, ◌^◌, ◌≤◌, ◌<◌, ◌≡◌, refl, ap, ◌∙◌, [], ◌∷◌, ◌++◌, length, Acc,
  lt_wf, dec_lt, arith,
}
use system_design_handbook.Base.Bits.{
  ones, bit_and-ones, bit_or_comm, bit_or_disjoint, agree_below, agree_below_sound,
}
use system_design_handbook.Bytes.{Bytes}
use system_design_handbook.Grpc.Varint.{
  u64_mod, ok, more_byte, varint_loop, append_varint, add_bits, consume_loop, consume_varint,
}

pub more_byte_lem : (v : ℕ) → more_byte v ≡ v % 128 + 128
unfolding agree_below
more_byte_lem v =
    agree_below_sound (λ b. bit_or b 0x80) (λ b. b % 128 + 128) 256 refl (v % 256) (omega arith)
    ∙ omega arith

varint_loop-append :
    (v : ℕ) (w w' : Acc ◌<◌ v) (b : Bytes) → varint_loop b v w ≡ b ++ varint_loop [] v w'
unfolding varint_loop
varint_loop-append v (Acc.intro _ s) (Acc.intro _ s') b = grind (
  arith,
  λ (p : v / 128 < v). varint_loop-append (v / 128) (s _ p) (s' _ p) (b ++ (more_byte v ∷ [])),
  λ (p : v / 128 < v). varint_loop-append (v / 128) (s' _ p) (s' _ p) (more_byte v ∷ []),
  λ (p : v / 128 < v). append_assoc b (more_byte v ∷ []) (varint_loop [] (v / 128) (s' _ p)),
)

-- The bytes of a varint.
pub varint : ℕ → Bytes
unfolding append_varint
varint v = append_varint [] v

pub append_varint-varint : (b : Bytes) (v : ℕ) → append_varint b v ≡ b ++ varint v
unfolding append_varint varint
append_varint-varint b v = varint_loop-append v (lt_wf.apply v) (lt_wf.apply v) b

varint_loop-small : (v : ℕ) (w : Acc ◌<◌ v) → v < 128 → varint_loop [] v w ≡ v ∷ []
unfolding varint_loop
varint_loop-small v (Acc.intro _ s) h = grind arith

varint_loop-large :
    (v : ℕ) (w : Acc ◌<◌ v) (w' : Acc ◌<◌ (v / 128))
    → 128 ≤ v
    → varint_loop [] v w ≡ (v % 128 + 128) ∷ varint_loop [] (v / 128) w'
unfolding varint_loop
varint_loop-large v (Acc.intro _ s) w' h = grind (
  arith,
  λ (p : v / 128 < v). varint_loop-append (v / 128) (s _ p) w' (more_byte v ∷ []),
  more_byte_lem v,
)

pub varint_small : (v : ℕ) → v < 128 → varint v ≡ v ∷ []
unfolding varint append_varint
varint_small v h = varint_loop-small v (lt_wf.apply v) h

pub varint_large : (v : ℕ) → 128 ≤ v → varint v ≡ (v % 128 + 128) ∷ varint (v / 128)
unfolding varint append_varint
varint_large v h = varint_loop-large v (lt_wf.apply v) (lt_wf.apply (v / 128)) h

-- One round of `ConsumeVarint` on each kind of byte.
low_bits : (c : ℕ) → bit_and c 0x7f ≡ c % 128
unfolding ones
low_bits c =
    ap (λ (t : ℕ). bit_and t 0x7f) (omega arith) ∙ bit_and-ones 7 (c / 128) (c % 128) (omega arith)

add_bits_lem :
    (v c g shift : ℕ)
    → c % 128 ≡ g
    → v < 2 ^ shift
    → g * 2 ^ shift < u64_mod
    → add_bits v c shift ≡ v + g * 2 ^ shift
add_bits_lem v c g shift e p q =
    let small : bit_and c 0x7f * 2 ^ shift % u64_mod ≡ g * 2 ^ shift =
      rw (low_bits, e) (omega arith) in
    ap (bit_or v) small ∙ bit_or_comm v (g * 2 ^ shift) ∙ bit_or_disjoint shift g v p ∙ omega arith

shift_on : (s : ℕ) → 2 ^ (s + 7) ≡ 2 ^ s * 128
shift_on s = simp towards_suc (omega arith)

-- A number that starts at digit `s` is its last group there and the others seven digits on.
last_group : (v s : ℕ) → v * 2 ^ s ≡ v % 128 * 2 ^ s + v / 128 * 2 ^ (s + 7)
last_group v s =
    let parts = ap (λ (t : ℕ). t * 2 ^ s) (div-add-mod v 128) in
    let later = ap (λ (t : ℕ). v / 128 * t) (shift_on s) in omega (arith, parts, later)

module _ (i acc s : ℕ) (rest : Bytes) (early : i ≤ 9) (below : acc < 2 ^ s) where
  consume_last :
      (v : ℕ)
      → v < 128
      → acc + v * 2 ^ s < u64_mod
      → consume_loop (v ∷ rest) i acc s ≡ ok (acc + v * 2 ^ s, i + 1)
  unfolding consume_loop
  consume_last v h fits = ground (arith, add_bits_lem acc v v s (omega arith) below (omega arith))

  consume_more :
      (g : ℕ)
      → g < 128
      → acc + g * 2 ^ s < u64_mod
      → consume_loop ((g + 128) ∷ rest) i acc s
        ≡ consume_loop rest (i + 1) (acc + g * 2 ^ s) (s + 7)
  unfolding consume_loop
  consume_more g h fits =
      ground (arith, add_bits_lem acc (g + 128) g s (omega arith) below (omega arith))

group_fits : (g s : ℕ) → g < 128 → g * 2 ^ s + 2 ^ s ≤ 2 ^ (s + 7)
group_fits g s h = rw shift_on (grind arith)

consume_loop-varint :
    (k v i acc s : ℕ) (rest : Bytes)
    → v < 128 ^ suc k
    → i + k ≤ 9
    → acc < 2 ^ s
    → acc + v * 2 ^ s < u64_mod
    → consume_loop (varint v ++ rest) i acc s ≡ ok (acc + v * 2 ^ s, i + length (varint v))
consume_loop-varint zero v i acc s rest h early below fits =
    rw (varint_small v (omega arith))
      (consume_last i acc s rest (omega arith) below v (omega arith) fits)
consume_loop-varint (suc k) v i acc s rest h early below fits = elim (dec_lt v 128) [
  | yes p ↦
      rw (varint_small v (omega arith)) (consume_last i acc s rest (omega arith) below v p fits)
  | no p ↦ rw (varint_large v (omega arith)) (
      consume_more i acc s (varint (v / 128) ++ rest) (omega arith) below (v % 128) (omega arith)
        (omega (arith, last_group v s))
      ∙ consume_loop-varint k (v / 128) (i + 1) (acc + v % 128 * 2 ^ s) (s + 7) rest (omega arith)
          (omega arith) (omega (arith, group_fits (v % 128) s (omega arith)))
          (omega (arith, last_group v s))
      ∙ ground (arith, last_group v s))
]

pub consume_varint-varint :
    (v : ℕ) (rest : Bytes)
    → v < u64_mod
    → consume_varint (varint v ++ rest) ≡ ok (v, length (varint v))
unfolding consume_varint
consume_varint-varint v rest h =
    consume_loop-varint 9 v 0 0 0 rest (omega arith) (omega arith) (omega arith) (omega arith)
    ∙ ground arith
