-- ===== src/Bloom/Filter.antt =====
-- code/bloom_filter/bloom.go: `BloomFilter` with `Add`, `Contains`, `Bits`, `HashCount` and
-- `SizeBytes`. The slice of uint64 words is a function read below its length. FNV-1a is the parameter
-- `fnv`, the sum of a list of bytes. The sizes that `NewBloomFilter` computes with float64 are
-- arguments, after rounding. `none` is a panic.
use Prim.Native.Nat.{bit_and, bit_or}
use system_design_handbook.Base.{
  ℕ, zero, suc, ◌+◌, ◌*◌, ◌/◌, ◌%◌, ◌^◌, Bool, true, false, Option, none, some, ◌>>=◌, List, [],
  ◌∷◌, ◌++◌, ltb, ◌==◌, if◌then◌else◌,
}

abbrev pub u64_mod : ℕ
u64_mod = 2 ^ 64

pub record BloomFilter : Type 0 where
  pub bits : ℕ → ℕ
  pub words : ℕ
  pub m : ℕ
  pub k : ℕ
  pub added : ℕ

-- From the two numbers that the formulas give.
unfoldable pub new_bloom_filter : ℕ → ℕ → BloomFilter
new_bloom_filter m k = record {
  bits = λ _. 0;
  words = (m + 63) % u64_mod / 64;
  m = m;
  k = if ltb k 1 then 1 else k;
  added = 0;
}

-- `b.bits[i]`
unfoldable pub word_at : ℕ → BloomFilter → Option ℕ
word_at i b = if ltb i b.words then some (b.bits i) else none

-- `b.bits[i] = v`, of an index that was read.
unfoldable pub set_word : ℕ → ℕ → BloomFilter → BloomFilter
set_word i v b = record b { bits = λ j. if j == i then v else b.bits j }

-- `b.bits[idx/64] |= 1 << (idx % 64)`
unfoldable pub set_bit : ℕ → BloomFilter → Option BloomFilter
unfolding word_at set_word
set_bit idx b =
    word_at (idx / 64) b >>= λ w. some (set_word (idx / 64) (bit_or w (2 ^ (idx % 64))) b)

-- `b.bits[idx/64]&(1<<(idx%64)) != 0`
unfoldable pub test_bit : ℕ → BloomFilter → Option Bool
unfolding word_at
test_bit idx b =
    word_at (idx / 64) b >>= λ w. some (if bit_and w (2 ^ (idx % 64)) == 0 then false else true)

-- `Bits`, `HashCount` and `SizeBytes`
unfoldable pub bit_count : BloomFilter → ℕ
bit_count b = b.m

unfoldable pub hash_count : BloomFilter → ℕ
hash_count b = b.k

unfoldable pub size_bytes : BloomFilter → ℕ
size_bytes b = (b.words * 8) % u64_mod

module _ (fnv : List ℕ → ℕ) where
  unfoldable pub hashes : List ℕ → ℕ × ℕ
  hashes bytes = (fnv bytes, bit_or (fnv (bytes ++ (255 ∷ []))) 1)

  -- `(h1+i*h2)%b.m`, which panics for 0.
  unfoldable pub index : List ℕ → ℕ → BloomFilter → Option ℕ
  unfolding hashes
  index item i b =
      let (h1, h2) = hashes item in
      if b.m == 0 then none else some (((h1 + i * h2 % u64_mod) % u64_mod) % b.m)

  -- The first n rounds of the loop of `Add`.
  unfoldable pub add_rounds : List ℕ → ℕ → BloomFilter → Option BloomFilter
  unfolding index
  add_rounds item zero b = some b
  add_rounds item (suc n) b = add_rounds item n b >>= λ c. index item n c >>= λ idx. set_bit idx c

  unfoldable pub add : List ℕ → BloomFilter → Option BloomFilter
  add item b = add_rounds item b.k b >>= λ c. some (record c { added = (c.added + 1) % u64_mod })

  -- The first n rounds of the loop of `Contains`: false once a bit is missing.
  unfoldable pub contains_rounds : List ℕ → ℕ → BloomFilter → Option Bool
  unfolding index
  contains_rounds item zero b = some true
  contains_rounds item (suc n) b = contains_rounds item n b >>= λ here.
      (if here then (index item n b >>= λ idx. test_bit idx b) else some false)

  unfoldable pub contains : List ℕ → BloomFilter → Option Bool
  contains item b = contains_rounds item b.k b
