-- ===== src/Bloom/Growth.antt =====
-- code/bloom_filter/bloom.go: what setting one bit does to the filter.
use Prim.Native.Nat.{bit_and, bit_or}
use system_design_handbook.Base.{
  ℕ, ◌+◌, ◌*◌, ◌/◌, ◌%◌, ◌^◌, ◌≤◌, ◌<◌, ◌≡◌, refl, ◌∙◌, ◌⊎◌, inl, inr, true, some, ltb, lt→ltb,
  ℕ_discrete, arith,
}
use system_design_handbook.Bloom.Filter.{
  u64_mod, BloomFilter, new_bloom_filter, word_at, set_word, set_bit, test_bit,
}
use system_design_handbook.Bloom.Words.{
  bit_and-bit_or_mono, bit_and-bit_or, bit_and-bit_or_other, pow_pos,
}

-- The words are enough for the bits.
pub record IsSized (b : BloomFilter) : Type 0 where
  pub some_bits : 0 < b.m
  pub enough_words : b.m ≤ b.words * 64

pub new_bloom_filter-IsSized : (m k : ℕ) → 0 < m → m + 63 < u64_mod → IsSized (new_bloom_filter m k)
unfolding new_bloom_filter
new_bloom_filter-IsSized m k some_bits room = record {
  some_bits = some_bits;
  enough_words = omega (arith, room);
}

-- The filter b became c, and lost no bit.
pub record Grows (b c : BloomFilter) : Type 0 where
  pub same_words : c.words ≡ b.words
  pub same_m : c.m ≡ b.m
  pub same_k : c.k ≡ b.k
  pub kept : (i mask : ℕ) → bit_and (b.bits i) mask ≤ bit_and (c.bits i) mask

pub Grows-refl : (b : BloomFilter) → Grows b b
Grows-refl b = record {
  same_words = refl;
  same_m = refl;
  same_k = refl;
  kept = λ i mask. omega arith;
}

pub Grows-trans : (a b c : BloomFilter) → Grows a b → Grows b c → Grows a c
Grows-trans a b c g h = record {
  same_words = h.same_words ∙ g.same_words;
  same_m = h.same_m ∙ g.same_m;
  same_k = h.same_k ∙ g.same_k;
  kept = λ i mask. omega (arith, g.kept i mask, h.kept i mask);
}

pub IsSized-Grows : (b c : BloomFilter) → Grows b c → IsSized b → IsSized c
IsSized-Grows b c g s = record {
  some_bits = omega (arith, g.same_m, s.some_bits);
  enough_words = rw (g.same_words, g.same_m) s.enough_words;
}

-- The bit with this index is set.
unfoldable pub IsSetAt : ℕ → BloomFilter → Type 0
IsSetAt idx b = 0 < bit_and (b.bits (idx / 64)) (2 ^ (idx % 64))

pub IsSetAt-Grows : (b c : BloomFilter) (idx : ℕ) → Grows b c → IsSetAt idx b → IsSetAt idx c
unfolding IsSetAt
IsSetAt-Grows b c idx g h = omega (arith, h, g.kept (idx / 64) (2 ^ (idx % 64)))

word_in_range : (b : BloomFilter) (idx : ℕ) → IsSized b → idx < b.m → ltb (idx / 64) b.words ≡ true
word_in_range b idx s h = lt→ltb (idx / 64) b.words (omega (arith, s.enough_words))

pub test_bit-IsSetAt :
    (b : BloomFilter) (idx : ℕ) → IsSized b → idx < b.m → IsSetAt idx b → test_bit idx b ≡ some true
unfolding test_bit word_at IsSetAt
test_bit-IsSetAt b idx s h set = ground (arith, word_in_range b idx s h)

pub IsSetAt-test_bit :
    (b : BloomFilter) (idx : ℕ) → IsSized b → idx < b.m → test_bit idx b ≡ some true → IsSetAt idx b
unfolding test_bit word_at IsSetAt
IsSetAt-test_bit b idx s h set = ground (arith, word_in_range b idx s h)

-- What `b.bits[idx/64] |= 1 << (idx % 64)` does.
pub set_bit-Grows :
    (b : BloomFilter) (idx : ℕ)
    → IsSized b
    → idx < b.m
    → (c : BloomFilter) × (set_bit idx b ≡ some c)
      × Grows b c
      × (c.added ≡ b.added)
      × IsSetAt idx c
      × ((other : ℕ) → IsSetAt other c → (other ≡ idx) ⊎ IsSetAt other b)
unfolding set_bit word_at set_word IsSetAt
set_bit-Grows b idx s h =
    let w = b.bits (idx / 64) in
    let mask = 2 ^ (idx % 64) in
    (
      set_word (idx / 64) (bit_or w mask) b,
      ground (arith, word_in_range b idx s h),
      record {
        same_words = refl;
        same_m = refl;
        same_k = refl;
        kept = λ i other. elim (ℕ_discrete i (idx / 64)) [
          | yes same ↦ rw same (ground (arith, bit_and-bit_or_mono w mask other))
          | no else_where ↦ ground arith
        ];
      },
      refl,
      ground (arith, bit_and-bit_or w mask, pow_pos (idx % 64)),
      λ other set. elim (ℕ_discrete other idx) [
        | yes same ↦ inl same
        | no different ↦ inr (elim (ℕ_discrete (other / 64) (idx / 64)) [
          | yes word ↦
              let another : other % 64 ≡ idx % 64 → ⊥ = λ e. different (omega (arith, word, e)) in
              ground (arith, word, bit_and-bit_or_other w (idx % 64) (other % 64) another)
          | no word ↦ ground arith
        ])
      ],
    )
