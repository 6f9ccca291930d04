-- ===== src/Grpc/Runs.antt =====
-- code/grpc_example/wire.go: whole runs of the loop of `Unmarshal`.
use system_design_handbook.Base.{
  ℕ, zero, suc, ◌≤◌, ◌≡◌, ◌≢◌, ◌⊎◌, inl, inr, refl, sym, ◌∙◌, [], ◌∷◌, ◌++◌, length, arith,
}
use system_design_handbook.Bytes.{Bytes}
use system_design_handbook.Grpc.Varint.{Error, Result, ok, err}
use system_design_handbook.Grpc.Message.{
  Order, empty_order, decode_field, done, failed, stuck, unmarshal_loop, unmarshal,
}
use system_design_handbook.Grpc.Rounds.{decode_field_left, decode_field-append}

pub Result-cases {ℓ} :
    {A : Type ℓ} (r : Result A) → ((a : A) × (r ≡ ok a)) ⊎ ((e : Error) × (r ≡ err e))
Result-cases (ok a) = inl (a, refl)
Result-cases (err e) = inr (e, refl)

module _ (n c : ℕ) (b : Bytes) (o : Order) where
  pub loop_ok :
      (o' : Order) (left : Bytes)
      → decode_field (c ∷ b) o ≡ ok (o', left)
      → unmarshal_loop (suc n) (c ∷ b) o ≡ unmarshal_loop n left o'
  unfolding unmarshal_loop
  loop_ok o' left e = ground arith

  pub loop_err :
      (x : Error) → decode_field (c ∷ b) o ≡ err x → unmarshal_loop (suc n) (c ∷ b) o ≡ failed x o
  unfolding unmarshal_loop
  loop_err x e = ground arith

-- Fuel for every byte is enough, and more changes nothing.
pub unmarshal_loop_fuel :
    (n m : ℕ) (b : Bytes) (o : Order)
    → length b ≤ n
    → length b ≤ m
    → unmarshal_loop n b o ≡ unmarshal_loop m b o
unfolding unmarshal_loop
unmarshal_loop_fuel n m [] o p q = refl
unmarshal_loop_fuel zero m (c ∷ b) o p q = absurd (omega arith)
unmarshal_loop_fuel (suc n) zero (c ∷ b) o p q = absurd (omega arith)
unmarshal_loop_fuel (suc n) (suc m) (c ∷ b) o p q = elim (Result-cases (decode_field (c ∷ b) o)) [
  | inl ((o', left), e) ↦
      let less = decode_field_left (c ∷ b) o o' left e in
      rw (loop_ok n c b o o' left e, loop_ok m c b o o' left e)
        (unmarshal_loop_fuel n m left o' (omega arith) (omega arith))
  | inr (x, e) ↦ loop_err n c b o x e ∙ sym (loop_err m c b o x e)
]

pub unmarshal_loop_round :
    (fuel : ℕ) (b : Bytes) (o o' : Order) (left : Bytes)
    → length b ≤ fuel
    → decode_field b o ≡ ok (o', left)
    → unmarshal_loop fuel b o ≡ unmarshal_loop (length left) left o'
unmarshal_loop_round fuel [] o o' left h e =
    absurd (omega (arith, decode_field_left [] o o' left e))
unmarshal_loop_round zero (c ∷ b) o o' left h e = absurd (omega arith)
unmarshal_loop_round (suc fuel) (c ∷ b) o o' left h e =
    let less = decode_field_left (c ∷ b) o o' left e in
    loop_ok fuel c b o o' left e
    ∙ unmarshal_loop_fuel fuel (length left) left o' (omega arith) (omega arith)

pub unmarshal_loop-append :
    (n fuel : ℕ) (a b : Bytes) (o o' : Order)
    → unmarshal_loop n a o ≡ done o'
    → length (a ++ b) ≤ fuel
    → unmarshal_loop fuel (a ++ b) o ≡ unmarshal_loop (length b) b o'
unmarshal_loop-append n fuel [] b o o' e h =
    let same : o ≡ o' = unfold unmarshal_loop in cc in
    rw (← same) (unmarshal_loop_fuel fuel (length b) b o h (omega arith))
unmarshal_loop-append zero fuel (c ∷ a) b o o' e h = unfold unmarshal_loop in cc
unmarshal_loop-append (suc n) fuel (c ∷ a) b o o' e h =
    elim (Result-cases (decode_field (c ∷ a) o)) [
      | inl ((o₁, left), r) ↦
          unmarshal_loop_round fuel ((c ∷ a) ++ b) o o₁ (left ++ b) h
            (decode_field-append (c ∷ a) o o₁ left r b)
          ∙ unmarshal_loop-append n (length (left ++ b)) left b o₁ o'
              (sym (loop_ok n c a o o₁ left r) ∙ e) (omega arith)
      | inr (x, r) ↦ absurd (cc (loop_err n c a o x r))
    ]

unmarshal_loop-ne-stuck :
    (n : ℕ) (b : Bytes) (o : Order) → length b ≤ n → unmarshal_loop n b o ≢ stuck
unfolding unmarshal_loop
unmarshal_loop-ne-stuck n [] o h = λ e. cc
unmarshal_loop-ne-stuck zero (c ∷ b) o h = absurd (omega arith)
unmarshal_loop-ne-stuck (suc n) (c ∷ b) o h = elim (Result-cases (decode_field (c ∷ b) o)) [
  | inl ((o', left), e) ↦
      let less = decode_field_left (c ∷ b) o o' left e in
      rw (loop_ok n c b o o' left e) (unmarshal_loop-ne-stuck n left o' (omega arith))
  | inr (x, e) ↦ rw (loop_err n c b o x e) (λ s. cc)
]

-- Unmarshal ends on every input: it returns an order, or an error.
pub unmarshal-ne-stuck : (b : Bytes) → unmarshal b ≢ stuck
unfolding unmarshal
unmarshal-ne-stuck b = unmarshal_loop-ne-stuck (length b) b empty_order (omega arith)

-- When the front of a message decodes to an order, decoding the whole message is decoding the rest
-- into that order.
pub unmarshal-append :
    (a b : Bytes) (o : Order)
    → unmarshal a ≡ done o
    → unmarshal (a ++ b) ≡ unmarshal_loop (length b) b o
unfolding unmarshal
unmarshal-append a b o e =
    unmarshal_loop-append (length a) (length (a ++ b)) a b empty_order o e (omega arith)
