-- ===== src/Bloom/Answers.antt =====
-- code/bloom_filter/bloom.go: what `Contains` answers, exactly.
use system_design_handbook.Base.{
  ℕ, zero, suc, ◌+◌, ◌%◌, ◌^◌, ◌<◌, ◌≡◌, inl, inr, ◌↔◌, true, some, >>=-eq-some, List, Holds,
  ℕ_discrete, arith,
}
use system_design_handbook.Bloom.Filter.{
  u64_mod, BloomFilter, new_bloom_filter, test_bit, contains_rounds, contains,
}
use system_design_handbook.Bloom.Words.{zero-bit_and}
use system_design_handbook.Bloom.Growth.{
  IsSized, new_bloom_filter-IsSized, IsSized-Grows, IsSetAt, IsSetAt-test_bit,
}
use system_design_handbook.Bloom.Positions.{
  position, position-lt, index-position, IsSetBelow, IsPosition, contains_rounds-IsSetBelow,
}
use system_design_handbook.Bloom.Members.{add_all, IsFilled, add_all-IsFilled}

module _ (fnv : List ℕ → ℕ) where
  contains_rounds-suc :
      (b : BloomFilter) (item : List ℕ) (n : ℕ)
      → IsSized b
      → contains_rounds fnv item (suc n) b ≡ some true
      → (contains_rounds fnv item n b ≡ some true)
        × (test_bit (position fnv item n b.m) b ≡ some true)
  unfolding contains_rounds
  contains_rounds-suc b item n s h =
      let at = index-position fnv item n b s.some_bits in
      let (here, before, last) = >>=-eq-some (contains_rounds fnv item n b) _ h in
      ground (arith, at, before, last)

  IsSetBelow-contains_rounds :
      (b : BloomFilter) (item : List ℕ) (n : ℕ)
      → IsSized b
      → contains_rounds fnv item n b ≡ some true
      → IsSetBelow fnv item n b
  unfolding IsSetBelow
  IsSetBelow-contains_rounds b item zero s h i lt = absurd (omega arith)
  IsSetBelow-contains_rounds b item (suc n) s h i lt =
      let here = position-lt fnv item n b.m s.some_bits in
      let (before, last) = contains_rounds-suc b item n s h in
      elim (ℕ_discrete i n) [
        | yes same ↦ rw same (IsSetAt-test_bit b (position fnv item n b.m) s here last)
        | no other ↦ IsSetBelow-contains_rounds b item n s before i (omega arith)
      ]

  -- Every index of the item is an index of one of the items.
  unfoldable pub AllShared : List (List ℕ) → BloomFilter → List ℕ → Type 0
  unfolding IsPosition
  AllShared items b item =
      (i : ℕ)
      → i < b.k
      → (other : List ℕ) × Holds other items × IsPosition fnv other b.k (position fnv item i b.m) b

  no_bits : (m k idx : ℕ) → IsSetAt idx (new_bloom_filter m k) → ⊥
  unfolding IsSetAt new_bloom_filter
  no_bits m k idx h = omega (arith, h, zero-bit_and (2 ^ (idx % 64)))

  IsSetAt-IsPosition :
      (b : BloomFilter) (item : List ℕ) (n idx : ℕ)
      → IsSetBelow fnv item n b
      → IsPosition fnv item n idx b
      → IsSetAt idx b
  unfolding IsSetBelow IsPosition
  IsSetAt-IsPosition b item n idx set (i, lt, same) = rw⁻¹ same (set i lt)

  AllShared-contains :
      (items : List (List ℕ)) (m k : ℕ) (b : BloomFilter) (item : List ℕ)
      → IsSized b
      → IsFilled fnv items (new_bloom_filter m k) b
      → (contains fnv item b ≡ some true) ↔ AllShared items b item
  unfolding contains AllShared IsSetBelow IsPosition
  AllShared-contains items m k b item s all = (
    λ h i lt.
        elim (all.only (position fnv item i b.m) (IsSetBelow-contains_rounds b item b.k s h i lt)) [
          | inl shared ↦ shared
          | inr old ↦ absurd (no_bits m k (position fnv item i b.m) old)
        ],
    λ shared. contains_rounds-IsSetBelow fnv b item b.k s (λ i lt.
        let (other, held, found) = shared i lt in
        IsSetAt-IsPosition b other b.k (position fnv item i b.m) (all.are_set other held) found),
  )

  -- On a new filter with at least one bit, whose number of bits leaves a uint64 room for 63 more, adding
  -- any items does not panic, and afterwards `Contains` returns true for an item exactly when each of
  -- its indices is an index of one of the items added.
  pub contains_iff :
      (m k : ℕ)
      → 0 < m
      → m + 63 < u64_mod
      → (items : List (List ℕ))
      → (b : BloomFilter) × (add_all fnv items (new_bloom_filter m k) ≡ some b)
        × ((item : List ℕ) → (contains fnv item b ≡ some true) ↔ AllShared items b item)
  unfolding new_bloom_filter
  contains_iff m k some_bits room items =
      let s = new_bloom_filter-IsSized m k some_bits room in
      let (b, ran, all) = add_all-IsFilled fnv items (new_bloom_filter m k) s (omega arith) in
      let sized = IsSized-Grows (new_bloom_filter m k) b all.grown s in
      (b, ran, λ item. AllShared-contains items m k b item sized all)
