-- ===== src/Grpc/Fronts.antt =====
-- code/grpc_example/wire.go: on just the bytes that a reader uses up it reads the same.
use system_design_handbook.Base.{
  ℕ, zero, suc, ◌+◌, ◌≤◌, ◌<◌, ◌≡◌, refl, sym, ap, ◌∙◌, false, List, [], ◌∷◌, ◌++◌, length, take,
  arith,
}
use system_design_handbook.Bytes.{Bytes, drop}
use system_design_handbook.Grpc.Varint.{u64_mod, ok, ◌>>=◌, add_bits, consume_loop, consume_varint}
use system_design_handbook.Grpc.Fields.{consume_tag, consume_bytes, skip_value}
use system_design_handbook.Grpc.Reads.{>>=-ok, length-take, consume_bytes_takes, skip_value_takes}
use system_design_handbook.Grpc.Unknown.{is_known, Unknown, no_field, unknown_field}
use system_design_handbook.Grpc.RoundTrip.{AllShort}

consume_loop_moves : (b : Bytes) (i v s u n : ℕ) → consume_loop b i v s ≡ ok (u, n) → i < n
unfolding consume_loop
consume_loop_moves [] i v s u n e = cc
consume_loop_moves (c ∷ b) i v s u n e =
    ground (arith, consume_loop_moves b (i + 1) (add_bits v c s) (s + 7) u n)

-- A reader sees no more than what it uses up.
consume_loop-take :
    (b : Bytes) (k i v s u n : ℕ)
    → consume_loop b i v s ≡ ok (u, n)
    → n ≤ i + k
    → consume_loop (take k b) i v s ≡ ok (u, n)
unfolding consume_loop
consume_loop-take [] k i v s u n e h = cc
consume_loop-take (c ∷ b) zero i v s u n e h =
    absurd (omega (arith, consume_loop_moves (c ∷ b) i v s u n e))
consume_loop-take (c ∷ b) (suc k) i v s u n e h =
    ground (arith, consume_loop-take b k (i + 1) (add_bits v c s) (s + 7) u n)

consume_varint-take :
    (b : Bytes) (k u n : ℕ)
    → consume_varint b ≡ ok (u, n)
    → n ≤ k
    → consume_varint (take k b) ≡ ok (u, n)
unfolding consume_varint
consume_varint-take b k u n e h = consume_loop-take b k 0 0 0 u n e (omega arith)

take_none : (n : ℕ) → take {A = ℕ} n [] ≡ []
take_none zero = refl
take_none (suc n) = refl

drop-take : (n m : ℕ) (b : Bytes) → drop n (take (n + m) b) ≡ take m (drop n b)
drop-take zero m b = let e : 0 + m ≡ m = omega arith in ap (λ (k : ℕ). take k b) e
drop-take (suc n) m [] = rw (take_none (suc n + m), take_none m) refl
drop-take (suc n) m (c ∷ b) =
    let e : suc n + m ≡ suc (n + m) = omega arith in
    ap (λ (k : ℕ). drop (suc n) (take k (c ∷ b))) e ∙ drop-take n m b

take-take : (n m : ℕ) (b : Bytes) → take n (take (n + m) b) ≡ take n b
take-take zero m b = refl
take-take (suc n) m [] = rw (take_none (suc n + m)) refl
take-take (suc n) m (c ∷ b) =
    let e : suc n + m ≡ suc (n + m) = omega arith in
    ap (λ (k : ℕ). take (suc n) (take k (c ∷ b))) e ∙ ap (◌∷◌ c) (take-take n m b)

consume_tag-take :
    (b : Bytes) (k f wt n : ℕ)
    → consume_tag b ≡ ok (f, wt, n)
    → n ≤ k
    → consume_tag (take k b) ≡ ok (f, wt, n)
unfolding consume_tag
consume_tag-take b k f wt n e h =
    let (r, read, rest) = >>=-ok (consume_varint b) _ e in
    rw (consume_varint-take b k r.0 r.1 read (ground arith)) rest

consume_bytes_front :
    (b : Bytes) (u k : ℕ)
    → consume_varint b ≡ ok (u, k)
    → k + u ≤ length b
    → consume_bytes (take (k + u) b) ≡ ok (take u (drop k b), k + u)
unfolding consume_bytes
consume_bytes_front b u k read fits =
    let again = take-take u 0 (drop k b) in
    let e : u + 0 ≡ u = omega arith in
    rw
      (
        consume_varint-take b (k + u) u k read (omega arith),
        length-take (k + u) b fits,
        drop-take k u b,
      )
      (ground (arith, rw e at again))

consume_bytes-take :
    (b s : Bytes) (n : ℕ) → consume_bytes b ≡ ok (s, n) → consume_bytes (take n b) ≡ ok (s, n)
unfolding consume_bytes
consume_bytes-take b s n e =
    let (r, read, rest) = >>=-ok (consume_varint b) _ e in
    let (_, fits, _) = consume_bytes_takes b s n e in
    let parts : r.1 + r.0 ≡ n = ground arith in
    let value : take r.0 (drop r.1 b) ≡ s = ground arith in
    ap (λ (k : ℕ). consume_bytes (take k b)) (sym parts)
    ∙ consume_bytes_front b r.0 r.1 read (omega arith)
    ∙ (λ i. ok (value i, parts i))

-- On just the bytes that are skipped, all of them are skipped.
module _ (b : Bytes) (m : ℕ) where
  skip_varint-take :
      (consume_varint b >>= λ r. ok r.1) ≡ ok m → (consume_varint (take m b) >>= λ r. ok r.1) ≡ ok m
  skip_varint-take e =
      let (r, read, rest) = >>=-ok (consume_varint b) _ e in
      rw (consume_varint-take b m r.0 r.1 read (ground arith)) rest

  skip_bytes-take :
      (consume_bytes b >>= λ r. ok r.1) ≡ ok m → (consume_bytes (take m b) >>= λ r. ok r.1) ≡ ok m
  skip_bytes-take e =
      let (r, read, rest) = >>=-ok (consume_bytes b) _ e in
      let same : r.1 ≡ m = ground arith in
      rw (consume_bytes-take b r.0 m (read ∙ ap (λ (k : ℕ). ok (r.0, k)) same)) refl

  skip_value-take : (wt : ℕ) → skip_value b wt ≡ ok m → skip_value (take m b) wt ≡ ok m
  unfolding skip_value
  skip_value-take wt e =
      let fits = skip_value_takes b m wt e in
      ground (arith, skip_varint-take, skip_bytes-take, length-take m b fits)

drop_taken : (m : ℕ) (b : Bytes) → drop m (take m b) ≡ []
drop_taken zero b = refl
drop_taken (suc m) [] = refl
drop_taken (suc m) (c ∷ b) = drop_taken m b

-- The raw bytes of one unknown field.
pub raw_field-Unknown :
    (b : Bytes) (f wt n m : ℕ)
    → consume_tag b ≡ ok (f, wt, n)
    → is_known f wt ≡ false
    → skip_value (drop n b) wt ≡ ok m
    → Unknown (take (n + m) b)
raw_field-Unknown b f wt n m tag unknown skip =
    let again = consume_tag-take b (n + m) f wt n tag (omega arith) in
    let value = skip_value-take (drop n b) m wt skip in
    let fits = skip_value_takes (drop n b) m wt skip in
    unknown_field (take (n + m) b) f wt n m again unknown (rw (drop-take n m b) value)
      (rw (drop-take n m b) (rw (drop_taken m (drop n b)) no_field))

pub AllShort-append :
    (ts : List Bytes) (t : Bytes) → AllShort ts → length t < u64_mod → AllShort (ts ++ t ∷ [])
AllShort-append [] t h k = (k, tt)
AllShort-append (s ∷ ts) t h k = (h.0, AllShort-append ts t h.1 k)
