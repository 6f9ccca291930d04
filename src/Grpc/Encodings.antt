-- ===== src/Grpc/Encodings.antt =====
-- code/grpc_example/wire.go: what the Append functions write is what the Consume functions read.
use mathlib.Core.List.{append_assoc}
use Prim.Native.Nat.{bit_or}
use system_design_handbook.Base.{
  ℕ, zero, suc, ◌+◌, ◌*◌, ◌%◌, ◌^◌, ◌<◌, ◌≡◌, ◌≢◌, refl, ap, ◌∙◌, [], ◌∷◌, ◌++◌, length,
  length-append, arith,
}
use system_design_handbook.Base.Bits.{ones, bit_and-ones, bit_or_disjoint}
use system_design_handbook.Bytes.{Bytes, drop, take-append, drop-append}
use system_design_handbook.Int.{ℤ, pos, negsuc}
use system_design_handbook.Grpc.Varint.{u64_mod, ok, to_u64}
use system_design_handbook.Grpc.Groups.{varint, append_varint-varint, consume_varint-varint}
use system_design_handbook.Grpc.Fields.{
  wire_varint, wire_bytes, append_tag, consume_tag, append_int64, append_string, consume_bytes,
}
use system_design_handbook.Grpc.Message.{Order, store_varint, store_bytes}

-- A tag is the varint of the field number, with three digits for the wire type.
abbrev pub tag : ℕ → ℕ → Bytes
tag f wt = varint (f * 8 + wt)

-- The field numbers of which the tag is a uint64, and the three digits.
abbrev pub IsTag : ℕ → ℕ → Type 0
IsTag f wt = (f < 2 ^ 61) × (wt < 8)

pub append_tag-tag : (b : Bytes) (f wt : ℕ) → IsTag f wt → append_tag b f wt ≡ b ++ tag f wt
unfolding append_tag
append_tag-tag b f wt h =
    let whole : f * 8 % u64_mod ≡ f * 8 = omega arith in
    rw whole (
      append_varint-varint b (bit_or (f * 8) wt)
      ∙ ap (λ (t : ℕ). b ++ varint t) (bit_or_disjoint 3 f wt (omega arith)))

pub consume_tag-tag :
    (f wt : ℕ) (rest : Bytes)
    → IsTag f wt
    → consume_tag (tag f wt ++ rest) ≡ ok (f, wt, length (tag f wt))
unfolding consume_tag ones
consume_tag-tag f wt rest h =
    rw (consume_varint-varint (f * 8 + wt) rest (omega arith))
      (ground (arith, bit_and-ones 3 f wt (omega arith)))

pub store_varint-varint :
    (v : ℕ) (rest : Bytes) (set : ℕ → Order)
    → v < u64_mod
    → store_varint (varint v ++ rest) set ≡ ok (set v, rest)
unfolding store_varint
store_varint-varint v rest set h =
    rw (consume_varint-varint v rest h, drop-append (varint v) rest) refl

drop_more : (n : ℕ) (xs ys : Bytes) → drop (length xs + n) (xs ++ ys) ≡ drop n ys
drop_more n [] ys = let e : 0 + n ≡ n = omega arith in ap (λ (k : ℕ). drop k ys) e
drop_more n (x ∷ xs) ys =
    let e : suc (length xs) + n ≡ suc (length xs + n) = omega arith in
    ap (λ (k : ℕ). drop k (x ∷ xs ++ ys)) e ∙ drop_more n xs ys

-- A value of this length.
abbrev pub sized : Bytes → Bytes
sized s = varint (length s) ++ s

consume_bytes-sized :
    (s rest : Bytes)
    → length s < u64_mod
    → consume_bytes (varint (length s) ++ (s ++ rest))
      ≡ ok (s, length (varint (length s)) + length s)
unfolding consume_bytes
consume_bytes-sized s rest h =
    rw
      (
        consume_varint-varint (length s) (s ++ rest) h,
        drop-append (varint (length s)) (s ++ rest),
        take-append s rest,
      )
      (ground (arith, length-append (varint (length s)) (s ++ rest), length-append s rest))

pub store_bytes-sized :
    (s rest : Bytes) (set : Bytes → Order)
    → length s < u64_mod
    → store_bytes (varint (length s) ++ (s ++ rest)) set ≡ ok (set s, rest)
unfolding store_bytes
store_bytes-sized s rest set h =
    rw
      (
        consume_bytes-sized s rest h,
        drop_more (length s) (varint (length s)) (s ++ rest),
        drop-append s rest,
      )
      refl

-- The Append functions write behind what is there.
pub append_int64_zero : (b : Bytes) (f : ℕ) → append_int64 b f (pos 0) ≡ b
unfolding append_int64
append_int64_zero b f = refl

pub append_int64-tag :
    (b : Bytes) (f : ℕ) (v : ℤ)
    → v ≢ pos 0
    → f < 2 ^ 61
    → append_int64 b f v ≡ b ++ (tag f wire_varint ++ varint (to_u64 v))
unfolding append_int64
append_int64-tag b f (pos zero) h p = absurd (h refl)
append_int64-tag b f (pos (suc n)) h p =
    append_varint-varint _ _
    ∙ ap (λ (t : Bytes). t ++ varint (to_u64 (pos (suc n))))
        (append_tag-tag b f wire_varint (omega arith))
    ∙ append_assoc b (tag f wire_varint) (varint (to_u64 (pos (suc n))))
append_int64-tag b f (negsuc n) h p =
    append_varint-varint _ _
    ∙ ap (λ (t : Bytes). t ++ varint (to_u64 (negsuc n)))
        (append_tag-tag b f wire_varint (omega arith))
    ∙ append_assoc b (tag f wire_varint) (varint (to_u64 (negsuc n)))

pub append_string-tag :
    (b : Bytes) (f : ℕ) (s : Bytes)
    → s ≢ []
    → f < 2 ^ 61
    → length s < u64_mod
    → append_string b f s ≡ b ++ (tag f wire_bytes ++ sized s)
unfolding append_string
append_string-tag b f [] h p q = absurd (h refl)
append_string-tag b f (c ∷ s) h p q =
    let small : suc (length s) % u64_mod ≡ suc (length s) = omega arith in
    rw (small, append_varint-varint (append_tag b f wire_bytes) (suc (length s)))
      (rw (append_tag-tag b f wire_bytes (omega arith)) (simp append_assoc))
