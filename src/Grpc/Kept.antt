-- ===== src/Grpc/Kept.antt =====
-- code/grpc_example/wire.go: what `Unmarshal` leaves in an order can be encoded again; the raw bytes of
-- the fields that it did not know are whole fields.
use system_design_handbook.Base.{
  ℕ, zero, suc, ◌+◌, ◌<◌, ◌≡◌, sym, ◌∙◌, false, Bool-cases, inl, inr, [], ◌∷◌, ◌++◌, length, take,
  ◌==◌, ◌&&◌, arith,
}
use system_design_handbook.Bytes.{Bytes, drop}
use system_design_handbook.Grpc.Varint.{u64_mod, ok, consume_varint, to_i64}
use system_design_handbook.Grpc.Signed.{IsI64, to_i64-IsI64}
use system_design_handbook.Int.{ℤ}
use system_design_handbook.Grpc.Fields.{
  wire_varint, wire_bytes, consume_tag, consume_bytes, skip_value,
}
use system_design_handbook.Grpc.Message.{
  Order, empty_order, order_id, order_customer, order_amount, order_status, order_tags, marshal,
  store_varint, store_bytes, keep_raw, decode_value, decode_field, done, unmarshal_loop, unmarshal,
}
use system_design_handbook.Grpc.Reads.{
  >>=-ok, length-drop, consume_varint_takes, consume_bytes_takes,
}
use system_design_handbook.Grpc.Rounds.{decode_field_left}
use system_design_handbook.Grpc.Runs.{Result-cases, loop_ok, loop_err}
use system_design_handbook.Grpc.Unknown.{is_known, no_field, Unknown-append}
use system_design_handbook.Grpc.RoundTrip.{not_empty, IsEncodable, unmarshal-marshal}
use system_design_handbook.Grpc.Fronts.{raw_field-Unknown, AllShort-append}

module _ (b : Bytes) (o' : Order) (left : Bytes) where
  stored_number :
      (set : ℕ → Order)
      → store_varint b set ≡ ok (o', left)
      → (v : ℕ) × (v < u64_mod) × (set v ≡ o')
  unfolding store_varint
  stored_number set e =
      let (r, read, rest) = >>=-ok (consume_varint b) _ e in
      (r.0, (consume_varint_takes b r.0 r.1 read).0, ground arith)

  stored_text :
      (set : Bytes → Order)
      → store_bytes b set ≡ ok (o', left)
      → (s : Bytes) × (length s < length b) × (set s ≡ o')
  unfolding store_bytes
  stored_text set e =
      let (r, read, rest) = >>=-ok (consume_bytes b) _ e in
      let taken = consume_bytes_takes b r.0 r.1 read in (r.0, omega (arith, taken), ground arith)

module _ (f wt n : ℕ) (b : Bytes) (short : length b < u64_mod) (tag : consume_tag b ≡ ok (f, wt, n))
    (o : Order) (h : IsEncodable o) (o' : Order) (left : Bytes) where
  number-IsEncodable :
      (set : ℤ → Order)
      → ((v : ℤ) → IsI64 v → IsEncodable (set v))
      → store_varint (drop n b) (λ v. set (to_i64 v)) ≡ ok (o', left)
      → IsEncodable o'
  number-IsEncodable set keeps e =
      let (v, small, same) = stored_number (drop n b) o' left (λ v. set (to_i64 v)) e in
      rw (← same) (keeps (to_i64 v) (to_i64-IsI64 v small))

  text-IsEncodable :
      (set : Bytes → Order)
      → ((s : Bytes) → length s < u64_mod → IsEncodable (set s))
      → store_bytes (drop n b) set ≡ ok (o', left)
      → IsEncodable o'
  text-IsEncodable set keeps e =
      let (s, less, same) = stored_text (drop n b) o' left set e in
      rw (← same) (keeps s (omega (arith, length-drop n b)))

  raw-IsEncodable : is_known f wt ≡ false → keep_raw wt n b o ≡ ok (o', left) → IsEncodable o'
  unfolding keep_raw
  raw-IsEncodable unknown e =
      let (m, skip, rest) = >>=-ok (skip_value (drop n b) wt) _ e in
      let raw = raw_field-Unknown b f wt n m tag unknown skip in
      let all = Unknown-append o.unknown_fields (take (n + m) b) h.unknown_fields raw in
      let o₁ : Order = record o { unknown_fields = o.unknown_fields ++ take (n + m) b } in
      let same : o₁ ≡ o' = ground arith in
      rw (← same) (record {
        id = h.id;
        customer = h.customer;
        amount = h.amount;
        status = h.status;
        tags = h.tags;
        unknown_fields = all;
      })

  decode_value-IsEncodable : decode_value f wt n b o ≡ ok (o', left) → IsEncodable o'
  unfolding decode_value
  decode_value-IsEncodable e = elim (Bool-cases (f == order_id && wt == wire_varint)) [
    | inl k ↦
        number-IsEncodable (λ v. record o { id = v })
          (λ v i. record {
            id = i;
            customer = h.customer;
            amount = h.amount;
            status = h.status;
            tags = h.tags;
            unknown_fields = h.unknown_fields;
          })
          (ground arith)
    | inr k₁ ↦ elim (Bool-cases (f == order_customer && wt == wire_bytes)) [
      | inl k ↦
          text-IsEncodable (λ s. record o { customer = s })
            (λ s i. record {
              id = h.id;
              customer = i;
              amount = h.amount;
              status = h.status;
              tags = h.tags;
              unknown_fields = h.unknown_fields;
            })
            (ground arith)
      | inr k₂ ↦ elim (Bool-cases (f == order_amount && wt == wire_varint)) [
        | inl k ↦
            number-IsEncodable (λ v. record o { amount = v })
              (λ v i. record {
                id = h.id;
                customer = h.customer;
                amount = i;
                status = h.status;
                tags = h.tags;
                unknown_fields = h.unknown_fields;
              })
              (ground arith)
        | inr k₃ ↦ elim (Bool-cases (f == order_status && wt == wire_varint)) [
          | inl k ↦
              number-IsEncodable (λ v. record o { status = v })
                (λ v i. record {
                  id = h.id;
                  customer = h.customer;
                  amount = h.amount;
                  status = i;
                  tags = h.tags;
                  unknown_fields = h.unknown_fields;
                })
                (ground arith)
          | inr k₄ ↦ elim (Bool-cases (f == order_tags && wt == wire_bytes)) [
            | inl k ↦
                text-IsEncodable (λ s. record o { tags = o.tags ++ s ∷ [] })
                  (λ s i. record {
                    id = h.id;
                    customer = h.customer;
                    amount = h.amount;
                    status = h.status;
                    tags = AllShort-append o.tags s h.tags i;
                    unknown_fields = h.unknown_fields;
                  })
                  (ground arith)
            | inr k₅ ↦ raw-IsEncodable (ground arith) (ground arith)
          ]
        ]
      ]
    ]
  ]

decode_field-IsEncodable :
    (b : Bytes) (o o' : Order) (left : Bytes)
    → length b < u64_mod
    → IsEncodable o
    → decode_field b o ≡ ok (o', left)
    → IsEncodable o'
unfolding decode_field
decode_field-IsEncodable b o o' left short h e =
    let (t, tag, rest) = >>=-ok (consume_tag b) _ e in
    decode_value-IsEncodable t.0 t.1 t.2 b short tag o h o' left rest

loop-IsEncodable :
    (n : ℕ) (b : Bytes) (o o' : Order)
    → length b < u64_mod
    → IsEncodable o
    → unmarshal_loop n b o ≡ done o'
    → IsEncodable o'
loop-IsEncodable n [] o o' short h e =
    let same : o ≡ o' = unfold unmarshal_loop in cc in rw (← same) h
loop-IsEncodable zero (c ∷ b) o o' short h e = unfold unmarshal_loop in cc
loop-IsEncodable (suc n) (c ∷ b) o o' short h e = elim (Result-cases (decode_field (c ∷ b) o)) [
  | inl ((o₁, left), r) ↦
      let less = decode_field_left (c ∷ b) o o₁ left r in
      loop-IsEncodable n left o₁ o' (omega arith)
        (decode_field-IsEncodable (c ∷ b) o o₁ left short h r) (sym (loop_ok n c b o o₁ left r) ∙ e)
  | inr (x, r) ↦ absurd (cc (loop_err n c b o x r))
]

-- Whatever Unmarshal accepts can be encoded and decoded again, with the same fields, the unknown
-- ones included, but for tags that were empty.
pub unmarshal-marshal-unmarshal :
    (b : Bytes) (o : Order)
    → length b < u64_mod
    → unmarshal b ≡ done o
    → unmarshal (marshal o) ≡ done (record o { tags = not_empty o.tags })
unmarshal-marshal-unmarshal b o short e =
    let first : IsEncodable empty_order = record {
      id = omega arith;
      customer = omega arith;
      amount = omega arith;
      status = omega arith;
      tags = tt;
      unknown_fields = no_field;
    } in
    unmarshal-marshal o
      (loop-IsEncodable (length b) b empty_order o short first (unfold unmarshal in e))
