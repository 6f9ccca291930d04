-- ===== src/Wal/Frames.antt =====
-- code/wal/wal.go: a record that `append` wrote is read back, whatever follows it, and a part of one
-- ends the log.
use mathlib.Core.List.{append_assoc}
use system_design_handbook.Base.{
  ℕ, ◌+◌, ◌%◌, ◌^◌, ◌≤◌, ◌<◌, ◌≡◌, refl, ap, ◌∙◌, true, false, ◌||◌, none, some, ◌∷◌, ◌++◌, length,
  length-append, take, ltb, ◌==◌, arith,
}
use system_design_handbook.Bytes.{
  Bytes, put_le, get_le, get_le-put_le, drop, read_full-append, take-append, drop-append,
}
use system_design_handbook.Wal.Log.{Record, max_part, payload, encode, check, read_body, read_one}

-- What `append` can write and `readAll` accepts.
pub record IsValid (r : Record) : Type 0 where
  pub seq_range : r.seq < 2 ^ 64
  pub key_range : length r.key ≤ max_part
  pub value_range : length r.value ≤ max_part

-- A checksum is a uint32.
abbrev pub IsChecksum : (Bytes → ℕ) → Type 0
IsChecksum crc = (bs : Bytes) → crc bs < 2 ^ 32

module _ (crc : Bytes → ℕ) where
  abbrev pub header : Record → Bytes
  header r =
      put_le 4 (crc (payload crc r))
      ++ put_le 8 r.seq
      ++ (r.op ∷ put_le 4 (length r.key % 2 ^ 32))
      ++ put_le 4 (length r.value % 2 ^ 32)

  pub encode-parts : (r : Record) → encode crc r ≡ header r ++ (r.key ++ r.value)
  unfolding encode
  encode-parts r = refl

  pub read_one-parts :
      (r : Record) (rest : Bytes) → read_one crc (header r ++ rest) ≡ read_body crc (header r) rest
  unfolding read_one
  read_one-parts r rest = rw (read_full-append (header r) rest)

  module _ (fits : IsChecksum crc) (r : Record) (v : IsValid r) where
    pub lengths :
        (get_le (take 4 (drop 13 (header r))) ≡ length r.key)
        × (get_le (take 4 (drop 17 (header r))) ≡ length r.value)
        × (get_le (take 8 (drop 4 (header r))) ≡ r.seq)
        × (get_le (take 4 (header r)) ≡ crc (payload crc r))
        × (get_le (take 1 (drop 12 (header r))) ≡ r.op)
    lengths = (
      get_le-put_le 4 (length r.key % 2 ^ 32) (omega arith) ∙ omega (arith, v.key_range),
      get_le-put_le 4 (length r.value % 2 ^ 32) (omega arith) ∙ omega (arith, v.value_range),
      get_le-put_le 8 r.seq (omega (arith, v.seq_range)),
      get_le-put_le 4 (crc (payload crc r)) (omega (arith, fits (payload crc r))),
      omega arith,
    )

    pub body_size : (length r.key + length r.value) % 2 ^ 32 ≡ length (r.key ++ r.value)
    body_size = omega (arith, length-append r.key r.value, v.key_range, v.value_range)

    pub lengths_accepted :
        (ltb max_part (get_le (take 4 (drop 13 (header r))))
          || ltb max_part (get_le (take 4 (drop 17 (header r)))))
        ≡ false
    lengths_accepted = ground (arith, lengths.0, lengths.1, v.key_range, v.value_range)

    check-own : (rest : Bytes) → check crc (header r) (r.key ++ r.value) rest ≡ some (r, rest)
    unfolding check
    check-own rest =
        let same : (crc (payload crc r) == get_le (take 4 (header r))) ≡ true =
          ground (arith, lengths.3) in
        rw
          (
            same,
            lengths.0,
            lengths.2,
            lengths.4,
            take-append r.key r.value,
            drop-append r.key r.value,
          )
          refl

    pub read_one-encode : (rest : Bytes) → read_one crc (encode crc r ++ rest) ≡ some (r, rest)
    unfolding read_body
    read_one-encode rest =
        let split : encode crc r ++ rest ≡ header r ++ ((r.key ++ r.value) ++ rest) =
          ap (λ (t : Bytes). t ++ rest) (encode-parts r)
          ∙ append_assoc (header r) (r.key ++ r.value) rest in
        rw
          (
            split,
            read_one-parts r ((r.key ++ r.value) ++ rest),
            lengths_accepted,
            lengths.0,
            lengths.1,
            body_size,
            read_full-append (r.key ++ r.value) rest,
          )
          (check-own rest)

  pub read_one-oversized :
      (r : Record) (rest : Bytes)
      → max_part < length r.key
      → length r.key < 2 ^ 32
      → read_one crc (encode crc r ++ rest) ≡ none
  unfolding read_body
  read_one-oversized r rest long fits =
      let split : encode crc r ++ rest ≡ header r ++ ((r.key ++ r.value) ++ rest) =
        ap (λ (t : Bytes). t ++ rest) (encode-parts r)
        ∙ append_assoc (header r) (r.key ++ r.value) rest in
      let key_len : get_le (take 4 (drop 13 (header r))) ≡ length r.key =
        get_le-put_le 4 (length r.key % 2 ^ 32) (omega arith) ∙ omega arith in
      let refused : (ltb max_part (get_le (take 4 (drop 13 (header r))))
            || ltb max_part (get_le (take 4 (drop 17 (header r)))))
          ≡ true =
        ground (arith, key_len) in
      rw (split, read_one-parts r ((r.key ++ r.value) ++ rest), refused) refl
