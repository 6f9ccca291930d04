-- ===== src/Grpc/Rounds.antt =====
-- code/grpc_example/wire.go: rounds of `Unmarshal` on any input. A round uses up a front of the
-- bytes, and does not look behind it.
use system_design_handbook.Base.{ℕ, ◌+◌, ◌-◌, ◌≤◌, ◌<◌, ◌≡◌, [], ◌∷◌, ◌++◌, length, arith}
use system_design_handbook.Bytes.{Bytes, drop}
use system_design_handbook.Grpc.Varint.{ok, consume_varint, to_i64}
use system_design_handbook.Grpc.Fields.{consume_tag, consume_bytes, skip_value}
use system_design_handbook.Grpc.Message.{
  Order, store_varint, store_bytes, keep_raw, decode_value, decode_field,
}
use system_design_handbook.Grpc.Reads.{
  >>=-ok, length-drop, drop-append_le, take-append_le, consume_varint_takes, consume_varint-append,
  consume_bytes_takes, consume_bytes-append, skip_value_takes, skip_value-append,
}

module _ (b : Bytes) (o' : Order) (left : Bytes) where
  store_varint_left :
      (set : ℕ → Order) → store_varint b set ≡ ok (o', left) → length left ≤ length b
  unfolding store_varint
  store_varint_left set e =
      let (r, read, rest) = >>=-ok (consume_varint b) _ e in ground (arith, length-drop r.1 b)

  store_bytes_left :
      (set : Bytes → Order) → store_bytes b set ≡ ok (o', left) → length left ≤ length b
  unfolding store_bytes
  store_bytes_left set e =
      let (r, read, rest) = >>=-ok (consume_bytes b) _ e in ground (arith, length-drop r.1 b)

  keep_raw_left :
      (wt n : ℕ) (o : Order) → keep_raw wt n b o ≡ ok (o', left) → length left ≤ length b - n
  unfolding keep_raw
  keep_raw_left wt n o e =
      let (m, read, rest) = >>=-ok (skip_value (drop n b) wt) _ e in
      ground (arith, length-drop m (drop n b), length-drop n b)

  module _ (more : Bytes) where
    store_varint-append :
        (set : ℕ → Order)
        → store_varint b set ≡ ok (o', left)
        → store_varint (b ++ more) set ≡ ok (o', left ++ more)
    unfolding store_varint
    store_varint-append set e =
        let (r, read, rest) = >>=-ok (consume_varint b) _ e in
        rw (consume_varint-append b more r read)
          (ground (arith, drop-append_le r.1 b more, consume_varint_takes b r.0 r.1 read))

    store_bytes-append :
        (set : Bytes → Order)
        → store_bytes b set ≡ ok (o', left)
        → store_bytes (b ++ more) set ≡ ok (o', left ++ more)
    unfolding store_bytes
    store_bytes-append set e =
        let (r, read, rest) = >>=-ok (consume_bytes b) _ e in
        rw (consume_bytes-append b more r read)
          (ground (arith, drop-append_le r.1 b more, consume_bytes_takes b r.0 r.1 read))

    keep_raw-append :
        (wt n : ℕ) (o : Order)
        → n ≤ length b
        → keep_raw wt n b o ≡ ok (o', left)
        → keep_raw wt n (b ++ more) o ≡ ok (o', left ++ more)
    unfolding keep_raw
    keep_raw-append wt n o h e =
        let (m, read, rest) = >>=-ok (skip_value (drop n b) wt) _ e in
        let fits = skip_value_takes (drop n b) m wt read in
        rw (drop-append_le n b more h, skip_value-append (drop n b) m more wt read)
          (ground (
            arith,
            fits,
            length-drop n b,
            drop-append_le m (drop n b) more,
            take-append_le (n + m) b more,
          ))

module _ (f wt n : ℕ) (b : Bytes) (o o' : Order) (left : Bytes) where
  decode_value_left :
      n ≤ length b → decode_value f wt n b o ≡ ok (o', left) → length left + n ≤ length b
  unfolding decode_value
  decode_value_left h e = ground (
    arith,
    length-drop n b,
    store_varint_left (drop n b) o' left (λ v. record o { id = to_i64 v }),
    store_varint_left (drop n b) o' left (λ v. record o { amount = to_i64 v }),
    store_varint_left (drop n b) o' left (λ v. record o { status = to_i64 v }),
    store_bytes_left (drop n b) o' left (λ v. record o { customer = v }),
    store_bytes_left (drop n b) o' left (λ v. record o { tags = o.tags ++ v ∷ [] }),
    keep_raw_left b o' left wt n o,
  )

  decode_value-append :
      (more : Bytes)
      → n ≤ length b
      → decode_value f wt n b o ≡ ok (o', left)
      → decode_value f wt n (b ++ more) o ≡ ok (o', left ++ more)
  unfolding decode_value
  decode_value-append more h e = rw (drop-append_le n b more h) (
      ground (
        arith,
        store_varint-append (drop n b) o' left more (λ v. record o { id = to_i64 v }),
        store_varint-append (drop n b) o' left more (λ v. record o { amount = to_i64 v }),
        store_varint-append (drop n b) o' left more (λ v. record o { status = to_i64 v }),
        store_bytes-append (drop n b) o' left more (λ v. record o { customer = v }),
        store_bytes-append (drop n b) o' left more (λ v. record o { tags = o.tags ++ v ∷ [] }),
        keep_raw-append b o' left more wt n o,
      ))

pub consume_tag_takes :
    (b : Bytes) (f wt n : ℕ) → consume_tag b ≡ ok (f, wt, n) → (0 < n) × (n ≤ length b)
unfolding consume_tag
consume_tag_takes b f wt n e =
    let (r, read, rest) = >>=-ok (consume_varint b) _ e in
    ground (arith, consume_varint_takes b r.0 r.1 read)

pub consume_tag-append :
    (b more : Bytes) (r : ℕ × ℕ × ℕ) → consume_tag b ≡ ok r → consume_tag (b ++ more) ≡ ok r
unfolding consume_tag
consume_tag-append b more r e =
    let (q, read, rest) = >>=-ok (consume_varint b) _ e in
    rw (consume_varint-append b more q read) rest

module _ (b : Bytes) (o o' : Order) (left : Bytes) (e : decode_field b o ≡ ok (o', left)) where
  -- A round uses up a byte at least.
  pub decode_field_left : length left < length b
  unfolding decode_field
  decode_field_left =
      let (t, tag, rest) = >>=-ok (consume_tag b) _ e in
      let (more, fits) = consume_tag_takes b t.0 t.1 t.2 tag in
      omega (arith, decode_value_left t.0 t.1 t.2 b o o' left fits rest)

  pub decode_field-append : (more : Bytes) → decode_field (b ++ more) o ≡ ok (o', left ++ more)
  unfolding decode_field
  decode_field-append more =
      let (t, tag, rest) = >>=-ok (consume_tag b) _ e in
      let (_, fits) = consume_tag_takes b t.0 t.1 t.2 tag in
      rw (consume_tag-append b more t tag)
        (decode_value-append t.0 t.1 t.2 b o o' left more fits rest)
