-- ===== src/Grpc/Fields.antt =====
-- code/grpc_example/wire.go: tags and values of fields. Field numbers are not negative. A wire type is
-- an int in the source, of which four values are used.
use Prim.Native.Nat.{bit_and, bit_or}
use system_design_handbook.Base.{
  ℕ, zero, suc, ◌+◌, ◌-◌, ◌*◌, ◌/◌, ◌%◌, [], ◌∷◌, ◌++◌, length, take, ltb, ◌==◌, if◌then◌else◌,
}
use system_design_handbook.Bytes.{Bytes, drop, put_le}
use system_design_handbook.Int.{ℤ, pos, negsuc}
use system_design_handbook.Grpc.Varint.{
  u64_mod, Result, ok, err, truncated, bad_wire_type, ◌>>=◌, append_varint, consume_varint, to_u64,
}

abbrev pub wire_varint : ℕ
wire_varint = 0

abbrev pub wire_fixed64 : ℕ
wire_fixed64 = 1

abbrev pub wire_bytes : ℕ
wire_bytes = 2

abbrev pub wire_fixed32 : ℕ
wire_fixed32 = 5

unfoldable pub append_tag : Bytes → ℕ → ℕ → Bytes
append_tag b field wt = append_varint b (bit_or (field * 8 % u64_mod) wt)

-- The field number, the wire type and the number of bytes.
unfoldable pub consume_tag : Bytes → Result (ℕ × ℕ × ℕ)
consume_tag b = do (v, n) ← consume_varint b; ok (v / 8, bit_and v 7, n)

-- A zero is not written.
unfoldable pub append_int64 : Bytes → ℕ → ℤ → Bytes
append_int64 b field (pos zero) = b
append_int64 b field (pos (suc n)) =
    append_varint (append_tag b field wire_varint) (to_u64 (pos (suc n)))
append_int64 b field (negsuc n) = append_varint (append_tag b field wire_varint) (to_u64 (negsuc n))

-- Nor is an empty string.
unfoldable pub append_string : Bytes → ℕ → Bytes → Bytes
append_string b field [] = b
append_string b field (c ∷ s) =
    append_varint (append_tag b field wire_bytes) (length (c ∷ s) % u64_mod) ++ c ∷ s

unfoldable pub append_bytes : Bytes → ℕ → Bytes → Bytes
append_bytes b field [] = b
append_bytes b field (c ∷ v) =
    append_varint (append_tag b field wire_bytes) (length (c ∷ v) % u64_mod) ++ c ∷ v

unfoldable pub append_fixed64 : Bytes → ℕ → ℕ → Bytes
append_fixed64 b field v = append_tag b field wire_fixed64 ++ put_le 8 v

unfoldable pub append_fixed32 : Bytes → ℕ → ℕ → Bytes
append_fixed32 b field v = append_tag b field wire_fixed32 ++ put_le 4 v

unfoldable pub consume_bytes : Bytes → Result (Bytes × ℕ)
consume_bytes b = do
  (size, n) ← consume_varint b
  if ltb (length b - n) size then err truncated else ok (take size (drop n b), n + size)

-- The number of bytes of a fixed width, if there are as many.
abbrev fixed : ℕ → Bytes → Result ℕ
fixed width b = if ltb (length b) width then err truncated else ok width

unfoldable pub skip_value : Bytes → ℕ → Result ℕ
skip_value b wt =
    if wt == wire_varint
    then (consume_varint b >>= λ r. ok r.1)
    else if wt == wire_fixed64
    then fixed 8 b
    else if wt == wire_bytes
    then (consume_bytes b >>= λ r. ok r.1)
    else if wt == wire_fixed32
    then fixed 4 b
    else err (bad_wire_type wt)
