-- ===== src/Grpc/RoundTrip.antt =====
-- code/grpc_example/wire.go: `Unmarshal` reads back what `Marshal` writes.
use mathlib.Core.List.{append_assoc, append-nil}
use system_design_handbook.Base.{
  ℕ, zero, suc, ◌<◌, ◌^◌, ◌≡◌, refl, sym, ap, ◌∙◌, List, [], ◌∷◌, ◌++◌, length, arith,
}
use system_design_handbook.Bytes.{Bytes}
use system_design_handbook.Int.{ℤ, pos, negsuc}
use system_design_handbook.Grpc.Varint.{u64_mod}
use system_design_handbook.Grpc.Signed.{IsI64}
use system_design_handbook.Grpc.Fields.{append_int64, append_string}
use system_design_handbook.Grpc.Message.{
  Order, empty_order, order_id, order_customer, order_amount, order_status, order_tags, append_tags,
  marshal, decode_value, done, unmarshal,
}
use system_design_handbook.Grpc.Unknown.{decode_into, Unknown, Unknown-decoded}
use system_design_handbook.Grpc.Encodings.{append_int64-tag, append_string-tag}
use system_design_handbook.Grpc.Parts.{int64_round, string_round}

-- The tags that are written.
unfoldable pub not_empty : List Bytes → List Bytes
not_empty [] = []
not_empty ([] ∷ ts) = not_empty ts
not_empty ((c ∷ t) ∷ ts) = (c ∷ t) ∷ not_empty ts

abbrev pub AllShort : List Bytes → Type 0
AllShort [] = Unit
AllShort (t ∷ ts) = (length t < u64_mod) × AllShort ts

append_string_none : (b : Bytes) (f : ℕ) → append_string b f [] ≡ b
unfolding append_string
append_string_none b f = refl

append_string-append :
    (b : Bytes) (f : ℕ) (s : Bytes)
    → f < 2 ^ 61
    → length s < u64_mod
    → append_string b f s ≡ b ++ append_string [] f s
append_string-append b f [] p q =
    append_string_none b f
    ∙ sym (ap (λ (t : Bytes). b ++ t) (append_string_none [] f) ∙ append-nil b)
append_string-append b f (c ∷ s) p q =
    append_string-tag b f (c ∷ s) (λ e. cc) p q
    ∙ ap (λ (t : Bytes). b ++ t) (sym (append_string-tag [] f (c ∷ s) (λ e. cc) p q))

append_int64-append :
    (b : Bytes) (f : ℕ) (v : ℤ) → f < 2 ^ 61 → append_int64 b f v ≡ b ++ append_int64 [] f v
append_int64-append b f (pos zero) p = unfold append_int64 in sym (append-nil b)
append_int64-append b f (pos (suc n)) p =
    append_int64-tag b f (pos (suc n)) (λ e. cc) p
    ∙ ap (λ (t : Bytes). b ++ t) (sym (append_int64-tag [] f (pos (suc n)) (λ e. cc) p))
append_int64-append b f (negsuc n) p =
    append_int64-tag b f (negsuc n) (λ e. cc) p
    ∙ ap (λ (t : Bytes). b ++ t) (sym (append_int64-tag [] f (negsuc n) (λ e. cc) p))

append_tags-append :
    (b : Bytes) (ts : List Bytes) → AllShort ts → append_tags b ts ≡ b ++ append_tags [] ts
unfolding append_tags
append_tags-append b [] h = sym (append-nil b)
append_tags-append b (t ∷ ts) h =
    let one = append_string [] order_tags t in
    ap (λ (c : Bytes). append_tags c ts) (append_string-append b order_tags t (omega arith) h.0)
    ∙ append_tags-append (b ++ one) ts h.1
    ∙ append_assoc b one (append_tags [] ts)
    ∙ ap (λ (c : Bytes). b ++ c) (sym (append_tags-append one ts h.1))

tags_round :
    (ts : List Bytes) (o : Order) (rest : Bytes)
    → AllShort ts
    → decode_into o (append_tags [] ts ++ rest)
      ≡ decode_into (record o { tags = o.tags ++ not_empty ts }) rest
unfolding append_tags not_empty
tags_round [] o rest h = rw append-nil refl
tags_round ([] ∷ ts) o rest h = rw append_string_none (tags_round ts o rest h.1)
tags_round ((c ∷ t) ∷ ts) o rest h =
    let one = append_string [] order_tags (c ∷ t) in
    let set : Bytes → Order = λ s. record o { tags = o.tags ++ s ∷ [] } in
    rw (append_tags-append one ts h.1, append_assoc one (append_tags [] ts) rest)
      (string_round order_tags (omega arith) o set (λ n b. unfold decode_value in refl) (c ∷ t)
          (λ e. cc) h.0 (append_tags [] ts ++ rest)
        ∙ tags_round ts (set (c ∷ t)) rest h.1
        ∙ ap (λ (l : List Bytes). decode_into (record o { tags = l }) rest)
            (append_assoc o.tags ((c ∷ t) ∷ []) (not_empty ts)))

-- Numbers in the range of their type, and strings that fit a memory.
pub record IsEncodable (o : Order) : Type 0 where
  pub id : IsI64 o.id
  pub customer : length o.customer < u64_mod
  pub amount : IsI64 o.amount
  pub status : IsI64 o.status
  pub tags : AllShort o.tags
  pub unknown_fields : Unknown o.unknown_fields

customer_round :
    (s : Bytes) (o : Order) (rest : Bytes)
    → length s < u64_mod
    → decode_into (record o { customer = [] }) (append_string [] order_customer s ++ rest)
      ≡ decode_into (record o { customer = s }) rest
customer_round [] o rest h = rw append_string_none refl
customer_round (c ∷ s) o rest h =
    string_round order_customer (omega arith) (record o { customer = [] })
      (λ t. record o { customer = t }) (λ n b. unfold decode_value in refl) (c ∷ s) (λ e. cc) h rest

-- The parts of an encoded order.
module _ (o : Order) (h : IsEncodable o) where
  after_status : Bytes
  after_status = append_tags [] o.tags ++ o.unknown_fields

  after_amount : Bytes
  after_amount = append_int64 [] order_status o.status ++ after_status

  after_customer : Bytes
  after_customer = append_int64 [] order_amount o.amount ++ after_amount

  after_id : Bytes
  after_id = append_string [] order_customer o.customer ++ after_customer

  marshal_parts : marshal o ≡ append_int64 [] order_id o.id ++ after_id
  unfolding marshal after_id after_customer after_amount after_status
  marshal_parts =
      let one = append_int64 [] order_id o.id in
      let two = one ++ append_string [] order_customer o.customer in
      let three = two ++ append_int64 [] order_amount o.amount in
      let four = three ++ append_int64 [] order_status o.status in
      rw
        (
          append_string-append one order_customer o.customer (omega arith) h.customer,
          append_int64-append two order_amount o.amount (omega arith),
          append_int64-append three order_status o.status (omega arith),
          append_tags-append four o.tags h.tags,
        )
        (simp append_assoc)

  -- Every field is read back, the unknown ones included, but for empty tags: those are lost.
  pub unmarshal-marshal : unmarshal (marshal o) ≡ done (record o { tags = not_empty o.tags })
  unfolding unmarshal after_id after_customer after_amount after_status
  unmarshal-marshal =
      let p = record empty_order { id = o.id } in
      let q = record p { customer = o.customer } in
      let r = record q { amount = o.amount } in
      let s = record r { status = o.status } in
      let t = record s { tags = not_empty o.tags } in
      rw marshal_parts (
        int64_round order_id (omega arith) empty_order (λ v. record empty_order { id = v }) refl
          (λ n b. unfold decode_value in refl) o.id h.id after_id
        ∙ customer_round o.customer p after_customer h.customer
        ∙ int64_round order_amount (omega arith) q (λ v. record q { amount = v }) refl
            (λ n b. unfold decode_value in refl) o.amount h.amount after_amount
        ∙ int64_round order_status (omega arith) r (λ v. record r { status = v }) refl
            (λ n b. unfold decode_value in refl) o.status h.status after_status
        ∙ tags_round o.tags s o.unknown_fields h.tags
        ∙ Unknown-decoded o.unknown_fields h.unknown_fields t)
