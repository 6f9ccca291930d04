-- ===== src/Grpc/Reads.antt =====
-- code/grpc_example/wire.go: the readers on any input, well formed or not.
use system_design_handbook.Base.{
  ℕ, zero, suc, ◌+◌, ◌-◌, ◌≤◌, ◌<◌, ◌≡◌, refl, ap, [], ◌∷◌, ◌++◌, length, length-append, take,
  arith,
}
use system_design_handbook.Base.Bits.{bit_or-lt}
use system_design_handbook.Bytes.{Bytes, drop}
use system_design_handbook.Grpc.Varint.{
  u64_mod, Result, ok, err, ◌>>=◌, add_bits, consume_loop, consume_varint,
}
use system_design_handbook.Grpc.Fields.{consume_bytes, skip_value}

-- A chain that answers has an answer at its first step.
pub >>=-ok {ℓ κ} :
    {A : Type ℓ} {B : Type κ} {answer : B} (first : Result A) (next : A → Result B)
    → (first >>= next) ≡ ok answer
    → (v : A) × (first ≡ ok v) × (next v ≡ ok answer)
>>=-ok (err x) next e = cc
>>=-ok (ok v) next e = (v, refl, e)

add_bits-lt : (v c s : ℕ) → v < u64_mod → add_bits v c s < u64_mod
add_bits-lt v c s h = bit_or-lt 64 v _ h (omega arith)

consume_loop_takes :
    (b : Bytes) (i v s u n : ℕ)
    → v < u64_mod
    → consume_loop b i v s ≡ ok (u, n)
    → (u < u64_mod) × (i < n) × (n ≤ i + length b) × (n ≤ 10)
unfolding consume_loop
consume_loop_takes [] i v s u n h e = cc
consume_loop_takes (c ∷ b) i v s u n h e = ground (
  arith,
  add_bits-lt v c s h,
  consume_loop_takes b (i + 1) (add_bits v c s) (s + 7) u n (add_bits-lt v c s h),
)

-- What a varint gives is a uint64, and it takes 1 to 10 of the bytes there.
pub consume_varint_takes :
    (b : Bytes) (u n : ℕ)
    → consume_varint b ≡ ok (u, n)
    → (u < u64_mod) × (0 < n) × (n ≤ length b) × (n ≤ 10)
unfolding consume_varint
consume_varint_takes b u n e = ground (arith, consume_loop_takes b 0 0 0 u n (omega arith) e)

consume_loop-append :
    (b more : Bytes) (i v s : ℕ) (r : ℕ × ℕ)
    → consume_loop b i v s ≡ ok r
    → consume_loop (b ++ more) i v s ≡ ok r
unfolding consume_loop
consume_loop-append [] more i v s r e = cc
consume_loop-append (c ∷ b) more i v s r e =
    ground (arith, consume_loop-append b more (i + 1) (add_bits v c s) (s + 7) r)

-- Bytes behind what was read do not change it.
pub consume_varint-append :
    (b more : Bytes) (r : ℕ × ℕ) → consume_varint b ≡ ok r → consume_varint (b ++ more) ≡ ok r
unfolding consume_varint
consume_varint-append b more r e = consume_loop-append b more 0 0 0 r e

pub length-drop : (n : ℕ) (b : Bytes) → length (drop n b) ≡ length b - n
length-drop zero b = omega arith
length-drop (suc n) [] = omega arith
length-drop (suc n) (c ∷ b) = omega (arith, length-drop n b)

pub length-take : (n : ℕ) (b : Bytes) → n ≤ length b → length (take n b) ≡ n
length-take zero b h = refl
length-take (suc n) [] h = absurd (omega arith)
length-take (suc n) (c ∷ b) h = omega (arith, length-take n b (omega arith))

pub drop-append_le : (n : ℕ) (b more : Bytes) → n ≤ length b → drop n (b ++ more) ≡ drop n b ++ more
drop-append_le zero b more h = refl
drop-append_le (suc n) [] more h = absurd (omega arith)
drop-append_le (suc n) (c ∷ b) more h = drop-append_le n b more (omega arith)

pub take-append_le : (n : ℕ) (b more : Bytes) → n ≤ length b → take n (b ++ more) ≡ take n b
take-append_le zero b more h = refl
take-append_le (suc n) [] more h = absurd (omega arith)
take-append_le (suc n) (c ∷ b) more h = ap (◌∷◌ c) (take-append_le n b more (omega arith))

pub consume_bytes_takes :
    (b s : Bytes) (n : ℕ) → consume_bytes b ≡ ok (s, n) → (0 < n) × (n ≤ length b) × (length s < n)
unfolding consume_bytes
consume_bytes_takes b s n e =
    let (r, read, rest) = >>=-ok (consume_varint b) _ e in
    let size = length-take r.0 (drop r.1 b) in
    ground (arith, consume_varint_takes b r.0 r.1 read, length-drop r.1 b, size)

pub consume_bytes-append :
    (b more : Bytes) (r : Bytes × ℕ) → consume_bytes b ≡ ok r → consume_bytes (b ++ more) ≡ ok r
unfolding consume_bytes
consume_bytes-append b more r e =
    let (q, read, rest) = >>=-ok (consume_varint b) _ e in
    rw (consume_varint-append b more q read) (
      ground (
        arith,
        consume_varint_takes b q.0 q.1 read,
        length-append b more,
        drop-append_le q.1 b more,
        length-drop q.1 b,
        take-append_le q.0 (drop q.1 b) more,
      ))

module _ (b : Bytes) (m : ℕ) where
  skip_varint_takes : (consume_varint b >>= λ r. ok r.1) ≡ ok m → m ≤ length b
  skip_varint_takes e =
      let (r, read, rest) = >>=-ok (consume_varint b) _ e in
      ground (arith, consume_varint_takes b r.0 r.1 read)

  skip_bytes_takes : (consume_bytes b >>= λ r. ok r.1) ≡ ok m → m ≤ length b
  skip_bytes_takes e =
      let (r, read, rest) = >>=-ok (consume_bytes b) _ e in
      ground (arith, consume_bytes_takes b r.0 r.1 read)

  pub skip_value_takes : (wt : ℕ) → skip_value b wt ≡ ok m → m ≤ length b
  unfolding skip_value
  skip_value_takes wt e = ground (arith, skip_varint_takes, skip_bytes_takes)

  module _ (more : Bytes) where
    skip_varint-append :
        (consume_varint b >>= λ r. ok r.1) ≡ ok m
        → (consume_varint (b ++ more) >>= λ r. ok r.1) ≡ ok m
    skip_varint-append e =
        let (r, read, rest) = >>=-ok (consume_varint b) _ e in
        rw (consume_varint-append b more r read) rest

    skip_bytes-append :
        (consume_bytes b >>= λ r. ok r.1) ≡ ok m
        → (consume_bytes (b ++ more) >>= λ r. ok r.1) ≡ ok m
    skip_bytes-append e =
        let (r, read, rest) = >>=-ok (consume_bytes b) _ e in
        rw (consume_bytes-append b more r read) rest

    pub skip_value-append : (wt : ℕ) → skip_value b wt ≡ ok m → skip_value (b ++ more) wt ≡ ok m
    unfolding skip_value
    skip_value-append wt e =
        ground (arith, skip_varint-append, skip_bytes-append, length-append b more)
