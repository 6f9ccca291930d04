-- ===== src/Grpc/Parts.antt =====
-- code/grpc_example/wire.go: a field that was written is read back.
use mathlib.Core.List.{append_assoc}
use system_design_handbook.Base.{
  ℕ, zero, suc, ◌<◌, ◌^◌, ◌≡◌, ◌≢◌, sym, ap, ◌∙◌, [], ◌++◌, length, arith,
}
use system_design_handbook.Bytes.{Bytes, drop, drop-append}
use system_design_handbook.Int.{ℤ, pos, negsuc}
use system_design_handbook.Grpc.Varint.{u64_mod, ok, to_u64, to_i64}
use system_design_handbook.Grpc.Groups.{varint}
use system_design_handbook.Grpc.Signed.{IsI64, to_i64-to_u64, to_u64-lt}
use system_design_handbook.Grpc.Fields.{wire_varint, wire_bytes, append_int64, append_string}
use system_design_handbook.Grpc.Message.{
  Order, store_varint, store_bytes, decode_value, decode_field,
}
use system_design_handbook.Grpc.Runs.{unmarshal_loop_round}
use system_design_handbook.Grpc.Unknown.{decode_into}
use system_design_handbook.Grpc.Encodings.{
  tag, IsTag, sized, consume_tag-tag, store_varint-varint, store_bytes-sized, append_int64_zero,
  append_int64-tag, append_string-tag,
}

module _ (f wt : ℕ) (valid : IsTag f wt) (o : Order) where
  field_round :
      (body left : Bytes) (o' : Order)
      → decode_value f wt (length (tag f wt)) (tag f wt ++ body) o ≡ ok (o', left)
      → decode_into o (tag f wt ++ body) ≡ decode_into o' left
  field_round body left o' e =
      unmarshal_loop_round (length (tag f wt ++ body)) (tag f wt ++ body) o o' left (omega arith)
        (unfold decode_field in rw (consume_tag-tag f wt body valid) e)

module _ (f : ℕ) (small : f < 2 ^ 61) (o : Order) where
  -- The field is an int64 that `set` stores.
  module _ (set : ℤ → Order) (none : set (pos 0) ≡ o)
      (means : (n : ℕ) (b : Bytes)
        → decode_value f wire_varint n b o ≡ store_varint (drop n b) (λ u. set (to_i64 u))) where
    int64_written :
        (v : ℤ)
        → v ≢ pos 0
        → IsI64 v
        → (rest : Bytes) → decode_into o (append_int64 [] f v ++ rest) ≡ decode_into (set v) rest
    int64_written v some_value h rest =
        let body = varint (to_u64 v) ++ rest in
        let value : store_varint body (λ u. set (to_i64 u)) ≡ ok (set v, rest) =
          store_varint-varint (to_u64 v) rest (λ u. set (to_i64 u)) (to_u64-lt v)
          ∙ ap (λ (w : ℤ). ok (set w, rest)) (to_i64-to_u64 v h) in
        rw
          (
            append_int64-tag [] f v some_value small,
            append_assoc (tag f wire_varint) (varint (to_u64 v)) rest,
          )
          (field_round f wire_varint (omega arith) o body rest (set v)
            (means _ _ ∙ rw (drop-append (tag f wire_varint) body) value))

    pub int64_round :
        (v : ℤ)
        → IsI64 v
        → (rest : Bytes) → decode_into o (append_int64 [] f v ++ rest) ≡ decode_into (set v) rest
    int64_round (pos zero) h rest =
        rw append_int64_zero (ap (λ (p : Order). decode_into p rest) (sym none))
    int64_round (pos (suc n)) h rest = int64_written (pos (suc n)) (λ e. cc) h rest
    int64_round (negsuc n) h rest = int64_written (negsuc n) (λ e. cc) h rest

  -- The field is a string, not empty, that `set` stores.
  pub string_round :
      (set : Bytes → Order)
      → ((n : ℕ) (b : Bytes) → decode_value f wire_bytes n b o ≡ store_bytes (drop n b) set)
      → (s : Bytes) → s ≢ []
      → length s < u64_mod
      → (rest : Bytes) → decode_into o (append_string [] f s ++ rest) ≡ decode_into (set s) rest
  string_round set means s h fits rest =
      rw
        (
          append_string-tag [] f s h small fits,
          append_assoc (tag f wire_bytes) (sized s) rest,
          append_assoc (varint (length s)) s rest,
        )
        (field_round f wire_bytes (omega arith) o (varint (length s) ++ (s ++ rest)) rest (set s) (
          means _ _
          ∙ rw (drop-append (tag f wire_bytes) (varint (length s) ++ (s ++ rest)))
              (store_bytes-sized s rest set fits)))
