-- ===== src/Grpc/Unknown.antt =====
-- code/grpc_example/wire.go: fields that the decoder does not know, kept as raw bytes.
use mathlib.Core.List.{append_assoc, append-nil}
use system_design_handbook.Base.{
  ℕ, zero, suc, ◌+◌, ◌≡◌, refl, ap, ◌∙◌, Bool, false, ◌&&◌, ◌||◌, [], ◌∷◌, ◌++◌, length, take, ◌==◌,
  arith,
}
use system_design_handbook.Bytes.{Bytes, drop}
use system_design_handbook.Grpc.Varint.{ok}
use system_design_handbook.Grpc.Fields.{wire_varint, wire_bytes, consume_tag, skip_value}
use system_design_handbook.Grpc.Message.{
  Order, order_id, order_customer, order_amount, order_status, order_tags, keep_raw, decode_value,
  decode_field, Decoded, done, unmarshal_loop,
}
use system_design_handbook.Grpc.Reads.{drop-append_le, skip_value_takes, skip_value-append}
use system_design_handbook.Grpc.Rounds.{consume_tag_takes, consume_tag-append}
use system_design_handbook.Grpc.Runs.{unmarshal_loop_round}

-- The field numbers and wire types of an order.
abbrev pub is_known : ℕ → ℕ → Bool
is_known f wt =
    (f == order_id && wt == wire_varint)
    || (f == order_customer && wt == wire_bytes)
    || (f == order_amount && wt == wire_varint)
    || (f == order_status && wt == wire_varint)
    || (f == order_tags && wt == wire_bytes)

-- The loop of `Unmarshal` from an order on, with fuel for every byte.
abbrev pub decode_into : Order → Bytes → Decoded
decode_into o b = unmarshal_loop (length b) b o

-- Whole fields, none of them known.
pub data Unknown : Bytes → Type 0 where
  no_field : Unknown []
  unknown_field :
      (b : Bytes) (f wt n m : ℕ)
      → consume_tag b ≡ ok (f, wt, n)
      → is_known f wt ≡ false
      → skip_value (drop n b) wt ≡ ok m
      → Unknown (drop m (drop n b))
      → Unknown b

decode_value_unknown :
    (f wt n : ℕ) (b : Bytes) (o : Order)
    → is_known f wt ≡ false
    → decode_value f wt n b o ≡ keep_raw wt n b o
unfolding decode_value
decode_value_unknown f wt n b o h = ground arith

take-drop : (k : ℕ) (b : Bytes) → take k b ++ drop k b ≡ b
take-drop zero b = refl
take-drop (suc k) [] = refl
take-drop (suc k) (c ∷ b) = ap (◌∷◌ c) (take-drop k b)

drop_none : (n : ℕ) → drop {A = ℕ} n [] ≡ []
drop_none zero = refl
drop_none (suc n) = refl

drop-drop : (n m : ℕ) (b : Bytes) → drop m (drop n b) ≡ drop (n + m) b
drop-drop zero m b = let e : m ≡ 0 + m = omega arith in ap (λ (k : ℕ). drop k b) e
drop-drop (suc n) m [] =
    let e : suc (n + m) ≡ suc n + m = omega arith in
    drop_none m ∙ ap (λ (k : ℕ). drop {A = ℕ} k []) e
drop-drop (suc n) m (c ∷ b) =
    let e : suc (n + m) ≡ suc n + m = omega arith in
    drop-drop n m b ∙ ap (λ (k : ℕ). drop k (c ∷ b)) e

-- Unknown fields are appended to those that the order has.
pub Unknown-decoded :
    (u : Bytes)
    → Unknown u
    → (o : Order) → decode_into o u ≡ done (record o { unknown_fields = o.unknown_fields ++ u })
Unknown-decoded u no_field o = unfold unmarshal_loop in rw append-nil refl
Unknown-decoded u (unknown_field _ f wt n m tag unknown skip rest) o =
    let left = drop m (drop n u) in
    let o' : Order = record o { unknown_fields = o.unknown_fields ++ take (n + m) u } in
    let kept : keep_raw wt n u o ≡ ok (o', left) = unfold keep_raw in rw skip refl in
    let round : decode_field u o ≡ ok (o', left) =
      unfold decode_field in rw tag (decode_value_unknown f wt n u o unknown ∙ kept) in
    unmarshal_loop_round (length u) u o o' left (omega arith) round
    ∙ Unknown-decoded left rest o'
    ∙ ap (λ (r : Bytes). done (record o { unknown_fields = r }))
        (append_assoc o.unknown_fields (take (n + m) u) left
          ∙ ap (λ (r : Bytes). o.unknown_fields ++ r)
              (ap (λ (r : Bytes). take (n + m) u ++ r) (drop-drop n m u) ∙ take-drop (n + m) u))

pub Unknown-append : (a b : Bytes) → Unknown a → Unknown b → Unknown (a ++ b)
Unknown-append a b no_field y = y
Unknown-append a b (unknown_field _ f wt n m tag unknown skip rest) y =
    let (_, fits) = consume_tag_takes a f wt n tag in
    let first = skip_value-append (drop n a) m b wt skip in
    let size = skip_value_takes (drop n a) m wt skip in
    let after = drop-append_le n a b fits in
    let joined = Unknown-append (drop m (drop n a)) b rest y in
    unknown_field (a ++ b) f wt n m (consume_tag-append a b (f, wt, n) tag) unknown (rw after first)
      (rw (after, drop-append_le m (drop n a) b size) joined)
