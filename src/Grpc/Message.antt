-- ===== src/Grpc/Message.antt =====
-- code/grpc_example/wire.go: `Order` with `Marshal` and `Unmarshal`, and `Describe` without its text.
use system_design_handbook.Base.{
  ℕ, zero, suc, ◌+◌, ◌&&◌, Option, none, some, List, [], ◌∷◌, ◌++◌, length, take, ◌==◌,
  if◌then◌else◌,
}
use system_design_handbook.Bytes.{Bytes, drop}
use system_design_handbook.Int.{ℤ, pos}
use system_design_handbook.Grpc.Varint.{Error, Result, ok, err, ◌>>=◌, consume_varint, to_i64}
use system_design_handbook.Grpc.Fields.{
  wire_varint, wire_bytes, consume_tag, append_int64, append_string, consume_bytes, skip_value,
}

-- A status is an int64 with names for the values 0 to 3.
pub record Order : Type 0 where
  pub id : ℤ
  pub customer : Bytes
  pub amount : ℤ
  pub status : ℤ
  pub tags : List Bytes
  pub unknown_fields : Bytes

abbrev pub empty_order : Order
empty_order = record {
  id = pos 0;
  customer = [];
  amount = pos 0;
  status = pos 0;
  tags = [];
  unknown_fields = [];
}

abbrev pub order_id : ℕ
order_id = 1

abbrev pub order_customer : ℕ
order_customer = 2

abbrev pub order_amount : ℕ
order_amount = 3

abbrev pub order_status : ℕ
order_status = 4

abbrev pub order_tags : ℕ
order_tags = 5

unfoldable pub append_tags : Bytes → List Bytes → Bytes
append_tags b [] = b
append_tags b (t ∷ ts) = append_tags (append_string b order_tags t) ts

unfoldable pub marshal : Order → Bytes
marshal o =
    let b = append_int64 [] order_id o.id in
    let b = append_string b order_customer o.customer in
    let b = append_int64 b order_amount o.amount in
    let b = append_int64 b order_status o.status in append_tags b o.tags ++ o.unknown_fields

-- A varint, or a length-delimited value, is read and stored by `set`.
unfoldable pub store_varint : Bytes → (ℕ → Order) → Result (Order × Bytes)
store_varint rest set = do (v, m) ← consume_varint rest; ok (set v, drop m rest)

unfoldable pub store_bytes : Bytes → (Bytes → Order) → Result (Order × Bytes)
store_bytes rest set = do (v, m) ← consume_bytes rest; ok (set v, drop m rest)

-- An unknown field is skipped, and its raw bytes kept.
unfoldable pub keep_raw : ℕ → ℕ → Bytes → Order → Result (Order × Bytes)
keep_raw wt n b o = do
  m ← skip_value (drop n b) wt
  ok (record o { unknown_fields = o.unknown_fields ++ take (n + m) b }, drop m (drop n b))

-- The `switch` of `Unmarshal`, after a tag of `n` bytes: the order, and the bytes that follow.
unfoldable pub decode_value : ℕ → ℕ → ℕ → Bytes → Order → Result (Order × Bytes)
decode_value field wt n b o =
    let rest = drop n b in
    if field == order_id && wt == wire_varint
    then store_varint rest (λ v. record o { id = to_i64 v })
    else if field == order_customer && wt == wire_bytes
    then store_bytes rest (λ v. record o { customer = v })
    else if field == order_amount && wt == wire_varint
    then store_varint rest (λ v. record o { amount = to_i64 v })
    else if field == order_status && wt == wire_varint
    then store_varint rest (λ v. record o { status = to_i64 v })
    else if field == order_tags && wt == wire_bytes
    then store_bytes rest (λ v. record o { tags = o.tags ++ v ∷ [] })
    else keep_raw wt n b o

-- One round of its loop.
unfoldable pub decode_field : Bytes → Order → Result (Order × Bytes)
decode_field b o = do (field, wt, n) ← consume_tag b; decode_value field wt n b o

-- What `Unmarshal` returns and the order that it leaves. `stuck` is no outcome of Go's: the loop ran
-- out of fuel.
pub data Decoded : Type 0 where
  done : Order → Decoded
  failed : Error → Order → Decoded
  stuck : Decoded

unfoldable pub unmarshal_loop : ℕ → Bytes → Order → Decoded
unmarshal_loop fuel [] o = done o
unmarshal_loop zero (c ∷ b) o = stuck
unmarshal_loop (suc fuel) (c ∷ b) o = elim (decode_field (c ∷ b) o) [
  | ok (o', rest) ↦ unmarshal_loop fuel rest o'
  | err e ↦ failed e o
]

unfoldable pub unmarshal : Bytes → Decoded
unmarshal b = unmarshal_loop (length b) b empty_order

-- A field as `Describe` shows it: `decoded` is what it prints after the bytes of the value.
pub data Shown : Type 0 where
  nothing_shown : Shown
  number_shown : ℕ → Shown
  text_shown : Bytes → Shown

pub record FieldLine : Type 0 where
  pub field : ℕ
  pub wt : ℕ
  pub tag_bytes : Bytes
  pub value : Bytes
  pub decoded : Shown

-- The errors of these reads are ignored; there are none.
unfoldable pub show_value : Bytes → ℕ → Shown
show_value value wt =
    if wt == wire_varint
    then elim (consume_varint value) [ ok (v, n) ↦ number_shown v | err e ↦ number_shown 0 ]
    else if wt == wire_bytes
    then elim (consume_bytes value) [ ok (v, n) ↦ text_shown v | err e ↦ text_shown [] ]
    else nothing_shown

unfoldable pub describe_field : Bytes → Result (FieldLine × Bytes)
unfolding show_value
describe_field b = do
  (field, wt, n) ← consume_tag b
  let rest = drop n b
  m ← skip_value rest wt
  let value = take m rest
  ok (
    record {
      field = field;
      wt = wt;
      tag_bytes = take n b;
      value = value;
      decoded = show_value value wt;
    },
    drop m rest,
  )

-- The lines so far are returned with the error, if there is one.
unfoldable pub describe_loop : ℕ → Bytes → List FieldLine → List FieldLine × Option Error
describe_loop fuel [] out = (out, none)
describe_loop zero (c ∷ b) out = (out, none)
describe_loop (suc fuel) (c ∷ b) out = elim (describe_field (c ∷ b)) [
  | ok (line, rest) ↦ describe_loop fuel rest (out ++ line ∷ [])
  | err e ↦ (out, some e)
]

unfoldable pub describe : Bytes → List FieldLine × Option Error
describe b = describe_loop (length b) b []
