-- ===== src/Bloom/Positions.antt =====
-- code/bloom_filter/bloom.go: the indices of an item.
use system_design_handbook.Base.{
  ℕ, zero, suc, ◌+◌, ◌*◌, ◌%◌, ◌<◌, ◌≡◌, refl, true, some, List, arith,
}
use system_design_handbook.Bloom.Filter.{u64_mod, BloomFilter, hashes, index, contains_rounds}
use system_design_handbook.Bloom.Growth.{IsSized, Grows, IsSetAt, IsSetAt-Grows, test_bit-IsSetAt}

module _ (fnv : List ℕ → ℕ) where
  -- The i-th index of an item, for m bits.
  unfoldable pub position : List ℕ → ℕ → ℕ → ℕ
  position item i m = let (h1, h2) = hashes fnv item in ((h1 + i * h2 % u64_mod) % u64_mod) % m

  pub position-lt : (item : List ℕ) (i m : ℕ) → 0 < m → position item i m < m
  unfolding position
  position-lt item i m h = omega (arith, h)

  pub index-position :
      (item : List ℕ) (i : ℕ) (b : BloomFilter)
      → 0 < b.m
      → index fnv item i b ≡ some (position item i b.m)
  unfolding index position
  index-position item i b h = ground arith

  -- The first n bits of the item are set.
  unfoldable pub IsSetBelow : List ℕ → ℕ → BloomFilter → Type 0
  IsSetBelow item n b = (i : ℕ) → i < n → IsSetAt (position item i b.m) b

  -- The index is one of the first n of the item.
  unfoldable pub IsPosition : List ℕ → ℕ → ℕ → BloomFilter → Type 0
  IsPosition item n idx b = (i : ℕ) × (i < n) × (position item i b.m ≡ idx)

  pub IsSetBelow-Grows :
      (b c : BloomFilter) (item : List ℕ) (n : ℕ)
      → Grows b c
      → IsSetBelow item n b
      → IsSetBelow item n c
  unfolding IsSetBelow IsSetAt
  IsSetBelow-Grows b c item n g h i lt =
      rw g.same_m (IsSetAt-Grows b c (position item i b.m) g (h i lt))

  pub contains_rounds-IsSetBelow :
      (b : BloomFilter) (item : List ℕ) (n : ℕ)
      → IsSized b
      → IsSetBelow item n b
      → contains_rounds fnv item n b ≡ some true
  unfolding contains_rounds IsSetBelow
  contains_rounds-IsSetBelow b item zero s h = refl
  contains_rounds-IsSetBelow b item (suc n) s h =
      let before = contains_rounds-IsSetBelow b item n s (λ i lt. h i (omega arith)) in
      let here = position-lt item n b.m s.some_bits in
      rw (before, index-position item n b s.some_bits)
        (test_bit-IsSetAt b (position item n b.m) s here (h n (omega arith)))
