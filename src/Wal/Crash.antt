-- ===== src/Wal/Crash.antt =====
-- code/wal/wal.go: `readAll` of a log that is cut off anywhere.
use system_design_handbook.Base.{
  ℕ, zero, suc, ◌+◌, ◌-◌, ◌%◌, ◌^◌, ◌≤◌, ◌<◌, ◌≡◌, refl, ap, ◌∙◌, inl, inr, Bool-cases,
  Option-cases, ◌||◌, Option, none, some, >>=-eq-some, List, [], ◌∷◌, ◌++◌, length, length-append,
  take, ltb, leb, if◌then◌else◌, arith,
}
use system_design_handbook.Bytes.{Bytes, get_le, drop, read_full, read_full_short, read_full-splits}
use system_design_handbook.Wal.Log.{
  Record, max_part, header_size, encode, check, read_body, read_one, read_loop, replay,
}
use system_design_handbook.Wal.Frames.{
  IsValid, IsChecksum, header, encode-parts, read_one-parts, read_one-encode, lengths, body_size,
  lengths_accepted,
}

abbrev pub AllValid : List Record → Type 0
AllValid [] = Unit
AllValid (r ∷ rs) = IsValid r × AllValid rs

take-beyond :
    (xs ys : Bytes) (n : ℕ) → length xs ≤ n → take n (xs ++ ys) ≡ xs ++ take (n - length xs) ys
take-beyond [] ys n h = ap (λ (t : ℕ). take t ys) (omega arith)
take-beyond (x ∷ xs) ys zero h = absurd (omega arith)
take-beyond (x ∷ xs) ys (suc n) h =
    let same : n - length xs ≡ suc n - suc (length xs) = omega arith in
    ap (◌∷◌ x) (take-beyond xs ys n (omega arith) ∙ ap (λ (t : ℕ). xs ++ take t ys) same)

take-nil : (n : ℕ) → take {A = ℕ} n [] ≡ []
take-nil zero = refl
take-nil (suc n) = refl

none-or-some : {A : Type 0} (o : Option A) (a : A) → o ≡ none → o ≡ some a → ⊥
none-or-some o a p q = cc

pub take-within : (xs ys : Bytes) (n : ℕ) → n ≤ length xs → take n (xs ++ ys) ≡ take n xs
take-within xs ys zero h = refl
take-within [] ys (suc n) h = absurd (omega arith)
take-within (x ∷ xs) ys (suc n) h = ap (◌∷◌ x) (take-within xs ys n (omega arith))

length-take : (n : ℕ) (xs : Bytes) → n ≤ length xs → length (take n xs) ≡ n
length-take zero xs h = refl
length-take (suc n) [] h = absurd (omega arith)
length-take (suc n) (x ∷ xs) h = omega (arith, length-take n xs (omega arith))

module _ (crc : Bytes → ℕ) where
  -- A round that reads a record leaves less to read.
  read_one-shrinks :
      (bs rest : Bytes) (r : Record) → read_one crc bs ≡ some (r, rest) → length rest < length bs
  unfolding read_one read_body check
  read_one-shrinks bs rest r h =
      let (p, e, f) =
        >>=-eq-some (read_full header_size bs) (λ (hd, bs'). read_body crc hd bs') {b = (r, rest)}
          h in
      let hd = p.0 in
      let (size, front) = read_full-splits header_size bs hd p.1 e in
      let key_len = get_le (take 4 (drop 13 hd)) in
      let val_len = get_le (take 4 (drop 17 hd)) in
      elim (Bool-cases (ltb max_part key_len || ltb max_part val_len)) [
        | inl long ↦ absurd (none-or-some (read_body crc hd p.1) (r, rest) (rw long refl) f)
        | inr short ↦
            let (q, e', f') =
              >>=-eq-some (read_full ((key_len + val_len) % 2 ^ 32) p.1)
                (λ (body, rest'). check crc hd body rest') {b = (r, rest)} (rw short at f) in
            let (_, front') = read_full-splits _ p.1 q.0 q.1 e' in
            let same : q.1 ≡ rest = ground arith in
            omega (
              arith,
              size,
              ap length front,
              ap length front',
              length-append hd p.1,
              length-append q.0 q.1,
              ap length same,
            )
      ]

  read_loop_enough :
      (n m : ℕ) (bs : Bytes)
      → length bs ≤ n
      → length bs ≤ m
      → read_loop crc n bs ≡ read_loop crc m bs
  unfolding read_loop read_one read_full
  read_loop_enough zero zero bs p q = refl
  read_loop_enough zero (suc m) [] p q = refl
  read_loop_enough zero (suc m) (b ∷ bs) p q = absurd (omega arith)
  read_loop_enough (suc n) zero [] p q = refl
  read_loop_enough (suc n) zero (b ∷ bs) p q = absurd (omega arith)
  read_loop_enough (suc n) (suc m) bs p q = elim (Option-cases (read_one crc bs)) [
    | inl e ↦ rw e refl
    | inr (x, e) ↦
        let less = read_one-shrinks bs x.1 x.0 e in
        let rest = read_loop_enough n m x.1 (omega arith) (omega arith) in rw e (ap (◌∷◌ x.0) rest)
  ]

  pub replay-next :
      (bs rest : Bytes) (r : Record)
      → read_one crc bs ≡ some (r, rest)
      → replay crc bs ≡ r ∷ replay crc rest
  unfolding replay read_loop
  replay-next [] rest r h = absurd (omega (arith, read_one-shrinks [] rest r h))
  replay-next (b ∷ bs) rest r h =
      let less = read_one-shrinks (b ∷ bs) rest r h in
      rw h
        (ap (◌∷◌ r) (read_loop_enough (length bs) (length rest) rest (omega arith) (omega arith)))

  pub replay-stop : (bs : Bytes) → read_one crc bs ≡ none → replay crc bs ≡ []
  unfolding replay read_loop
  replay-stop [] h = refl
  replay-stop (b ∷ bs) h = rw h refl

  unfoldable pub encode_all : List Record → Bytes
  encode_all [] = []
  encode_all (r ∷ rs) = encode crc r ++ encode_all rs

  -- The records that are whole in the first n bytes of their log.
  unfoldable pub whole : ℕ → List Record → List Record
  whole n [] = []
  whole n (r ∷ rs) =
      let rest = whole (n - length (encode crc r)) rs in
      if leb (length (encode crc r)) n then r ∷ rest else []

  module _ (fits : IsChecksum crc) where
    pub torn_header : (bs : Bytes) → length bs < header_size → read_one crc bs ≡ none
    unfolding read_one
    torn_header bs h = rw (read_full_short header_size bs h)

    torn_body :
        (r : Record) (n : ℕ)
        → IsValid r
        → n < length (r.key ++ r.value)
        → read_one crc (header crc r ++ take n (r.key ++ r.value)) ≡ none
    unfolding read_body
    torn_body r n v h =
        let body = r.key ++ r.value in
        let short : length (take n body) < length body =
          omega (arith, length-take n body (omega arith)) in
        rw
          (
            read_one-parts crc r (take n body),
            lengths_accepted crc fits r v,
            (lengths crc fits r v).0,
            (lengths crc fits r v).1,
            body_size crc fits r v,
            read_full_short (length body) (take n body) short,
          )
          refl

    -- A record that is cut off is not read.
    torn :
        (r : Record) (n : ℕ)
        → IsValid r
        → n < length (encode crc r)
        → read_one crc (take n (encode crc r)) ≡ none
    torn r n v h =
        let hd = header crc r in
        let body = r.key ++ r.value in
        let size : length (encode crc r) ≡ 21 + length body =
          ap length (encode-parts crc r) ∙ length-append hd body in
        elim (Bool-cases (ltb n header_size)) [
          | inl early ↦
              torn_header (take n (encode crc r))
                (ground (arith, length-take n (encode crc r) (omega arith)))
          | inr late ↦
              let cut : take n (encode crc r) ≡ hd ++ take (n - 21) body =
                ap (take n) (encode-parts crc r) ∙ take-beyond hd body n (ground arith) in
              rw cut (torn_body r (n - 21) v (ground (arith, size)))
        ]

    -- Recovery after a crash that leaves any part of the log, cut at any byte: what `Replay` returns is
    -- exactly the records that are whole in that part, in their order. A torn record at the end is
    -- dropped, and nothing before it is lost or changed. (The records are such as `Replay` accepts.)
    pub replay-cut :
        (rs : List Record) (n : ℕ) → AllValid rs → replay crc (take n (encode_all rs)) ≡ whole n rs
    unfolding encode_all whole
    replay-cut [] n v = rw (take-nil n) (replay-stop [] (torn_header [] (omega arith)))
    replay-cut (r ∷ rs) n v = elim (Bool-cases (leb (length (encode crc r)) n)) [
      | inl all ↦
          let front = take-beyond (encode crc r) (encode_all rs) n (ground arith) in
          let tail = take (n - length (encode crc r)) (encode_all rs) in
          rw (all, front)
            (replay-next (encode crc r ++ tail) tail r (read_one-encode crc fits r v.0 tail)
              ∙ ap (◌∷◌ r) (replay-cut rs (n - length (encode crc r)) v.1))
      | inr part ↦
          let front = take-within (encode crc r) (encode_all rs) n (ground arith) in
          rw (part, front) (replay-stop _ (torn r n v.0 (ground arith)))
    ]
