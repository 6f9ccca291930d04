-- ===== src/Bloom/Members.antt =====
-- code/bloom_filter/bloom.go: no false negatives.
use system_design_handbook.Base.{
  ℕ, zero, suc, ◌+◌, ◌%◌, ◌<◌, ◌≡◌, refl, sym, ◌∙◌, ◌⊎◌, inl, inr, true, Option, some, ◌>>=◌, List,
  [], ◌∷◌, length, Holds, ℕ_discrete, arith,
}
use system_design_handbook.Bloom.Filter.{
  u64_mod, BloomFilter, new_bloom_filter, add_rounds, add, contains,
}
use system_design_handbook.Bloom.Growth.{
  IsSized, new_bloom_filter-IsSized, Grows, IsSetAt, Grows-refl, Grows-trans, IsSized-Grows,
  set_bit-Grows,
}
use system_design_handbook.Bloom.Positions.{
  position, position-lt, index-position, IsSetBelow, IsPosition, IsSetBelow-Grows,
  contains_rounds-IsSetBelow,
}

module _ (fnv : List ℕ → ℕ) where
  -- What the loop of `Add` does.
  add_rounds-Grows :
      (b : BloomFilter) (item : List ℕ) (n : ℕ)
      → IsSized b
      → (c : BloomFilter) × (add_rounds fnv item n b ≡ some c)
        × Grows b c
        × (c.added ≡ b.added)
        × IsSetBelow fnv item n c
        × ((other : ℕ) → IsSetAt other c → IsPosition fnv item n other c ⊎ IsSetAt other b)
  unfolding IsPosition add_rounds IsSetBelow
  add_rounds-Grows b item zero s =
      (b, refl, Grows-refl b, refl, λ i lt. absurd (omega arith), λ other set. inr set)
  add_rounds-Grows b item (suc n) s =
      let (c, ran, grown, same, set, only) = add_rounds-Grows b item n s in
      let s' = IsSized-Grows b c grown s in
      let idx = position fnv item n c.m in
      let (d, wrote, more, same', this, only') =
        set_bit-Grows c idx s' (position-lt fnv item n c.m s'.some_bits) in
      (
        d,
        rw (ran, index-position fnv item n c s'.some_bits) wrote,
        Grows-trans b c d grown more,
        same' ∙ same,
        λ i lt. elim (ℕ_discrete i n) [
          | yes last ↦ rw (last, more.same_m) this
          | no other ↦ IsSetBelow-Grows fnv c d item n more set i (omega arith)
        ],
        λ other h. elim (only' other h) [
          | inl this ↦ inl (n, omega arith, rw more.same_m (sym this))
          | inr before ↦ elim (only other before) [
            | inl (i, lt, at) ↦ inl (i, omega (arith, lt), rw more.same_m at)
            | inr old ↦ inr old
          ]
        ],
      )

  -- What `Add` does.
  record IsAdded (item : List ℕ) (b c : BloomFilter) : Type 0 where
    pub grown : Grows b c
    pub counted : c.added ≡ (b.added + 1) % u64_mod
    is_set : IsSetBelow fnv item c.k c
    pub only : (other : ℕ) → IsSetAt other c → IsPosition fnv item c.k other c ⊎ IsSetAt other b

  add-IsAdded :
      (b : BloomFilter) (item : List ℕ)
      → IsSized b
      → (c : BloomFilter) × (add fnv item b ≡ some c) × IsAdded item b c
  unfolding add IsSetBelow IsSetAt IsPosition
  add-IsAdded b item s =
      let (c, ran, g, same, set, only) = add_rounds-Grows b item b.k s in
      let d : BloomFilter = record c { added = (c.added + 1) % u64_mod } in
      (
        d,
        rw ran refl,
        record {
          grown = record {
            same_words = g.same_words;
            same_m = g.same_m;
            same_k = g.same_k;
            kept = g.kept;
          };
          counted = rw same refl;
          is_set = λ i lt. set i (omega (arith, lt, g.same_k));
          only = λ other h. elim (only other h) [
            | inl (i, lt, at) ↦ inl (i, omega (arith, lt, g.same_k), at)
            | inr old ↦ inr old
          ];
        },
      )

  unfoldable pub add_all : List (List ℕ) → BloomFilter → Option BloomFilter
  add_all [] b = some b
  add_all (item ∷ items) b = add fnv item b >>= add_all items

  -- A filter after the items were added, and what it says.
  pub record IsFilled (items : List (List ℕ)) (b c : BloomFilter) : Type 0 where
    pub grown : Grows b c
    pub counted : c.added ≡ (b.added + length items) % u64_mod
    pub only :
        (other : ℕ)
        → IsSetAt other c
        → ((item : List ℕ) × Holds item items × IsPosition fnv item c.k other c) ⊎ IsSetAt other b
    pub are_set : (item : List ℕ) → Holds item items → IsSetBelow fnv item c.k c

  pub add_all-IsFilled :
      (items : List (List ℕ)) (b : BloomFilter)
      → IsSized b
      → b.added < u64_mod
      → (c : BloomFilter) × (add_all items b ≡ some c) × IsFilled items b c
  unfolding add_all IsSetBelow IsPosition
  add_all-IsFilled [] b s low = (
    b,
    refl,
    record {
      grown = Grows-refl b;
      counted = omega (arith, low);
      only = λ other set. inr set;
      are_set = λ item none. absurd none;
    },
  )
  add_all-IsFilled (first ∷ items) b s low =
      let (c, ran, one) = add-IsAdded b first s in
      let (d, rest, all) =
        add_all-IsFilled items c (IsSized-Grows b c one.grown s) (omega (arith, one.counted)) in
      (
        d,
        rw ran rest,
        record {
          grown = Grows-trans b c d one.grown all.grown;
          counted = omega (arith, all.counted, one.counted);
          only = λ other h. elim (all.only other h) [
            | inl (item, held, found) ↦ inl (item, inr held, found)
            | inr before ↦ elim (one.only other before) [
              | inl (i, lt, at) ↦ inl (
                first,
                inl refl,
                (i, omega (arith, lt, all.grown.same_k), rw all.grown.same_m at),
              )
              | inr old ↦ inr old
            ]
          ];
          are_set = λ item h. elim h [
            | inl same ↦ λ i lt.
                IsSetBelow-Grows fnv c d item c.k all.grown (rw⁻¹ same one.is_set) i
                  (omega (arith, lt, all.grown.same_k))
            | inr later ↦ all.are_set item later
          ];
        },
      )

  -- On a new filter with at least one bit, whose number of bits leaves a uint64 room for 63 more,
  -- adding any items does not panic, and afterwards `Contains` returns true for each of them, and
  -- `added` is their number modulo 2^64.
  pub no_false_negatives :
      (m k : ℕ)
      → 0 < m
      → m + 63 < u64_mod
      → (items : List (List ℕ))
      → (b : BloomFilter) × (add_all items (new_bloom_filter m k) ≡ some b)
        × ((item : List ℕ) → Holds item items → contains fnv item b ≡ some true)
        × (b.added ≡ length items % u64_mod)
  unfolding new_bloom_filter contains
  no_false_negatives m k some_bits room items =
      let s = new_bloom_filter-IsSized m k some_bits room in
      let (b, ran, all) = add_all-IsFilled items (new_bloom_filter m k) s (omega arith) in
      let sized = IsSized-Grows (new_bloom_filter m k) b all.grown s in
      (
        b,
        ran,
        λ item h. contains_rounds-IsSetBelow fnv b item b.k sized (all.are_set item h),
        omega (arith, all.counted),
      )
