-- ===== src/Bloom/Examples.antt =====
-- code/bloom_filter/bloom.go: a small filter, and the theorems at concrete inputs.
use system_design_handbook.Base.{
  ℕ, ◌+◌, ◌*◌, ◌%◌, ◌≡◌, refl, ◌↔◌, true, false, none, some, ◌>>=◌, List, [], ◌∷◌, length, Holds,
  arith,
}
use system_design_handbook.Bloom.Filter.{
  u64_mod, BloomFilter, new_bloom_filter, word_at, set_word, set_bit, test_bit, hashes, index,
  add_rounds, add, contains_rounds, contains,
}
use system_design_handbook.Bloom.Members.{add_all, no_false_negatives}
use system_design_handbook.Bloom.Answers.{AllShared, contains_iff}

program : Unit {0}
unfolding new_bloom_filter word_at set_word set_bit test_bit hashes index add_rounds add
    contains_rounds contains add_all
program = tt

abbrev fnv : List ℕ → ℕ
fnv [] = 7
fnv (x ∷ xs) = (fnv xs * 31 + x) % 1000

abbrev items : List (List ℕ)
items = (1 ∷ 2 ∷ []) ∷ (3 ∷ []) ∷ []

-- Two items in a filter of 130 bits with 3 hashes: one of them, and a third.
run_present : (add_all fnv items (new_bloom_filter 130 3) >>= contains fnv (3 ∷ [])) ≡ some true
unfolding program
run_present = refl

run_absent : (add_all fnv items (new_bloom_filter 130 3) >>= contains fnv (9 ∷ [])) ≡ some false
unfolding program
run_absent = refl

-- Without a bit the remainder panics.
run_no_bits : add fnv (3 ∷ []) (new_bloom_filter 0 3) ≡ none
unfolding program
run_no_bits = refl

no_false_negatives_example :
    (b : BloomFilter) × (add_all fnv items (new_bloom_filter 130 3) ≡ some b)
    × ((item : List ℕ) → Holds item items → contains fnv item b ≡ some true)
    × (b.added ≡ length items % u64_mod)
no_false_negatives_example = no_false_negatives fnv 130 3 (omega arith) (omega arith) items

contains_iff_example :
    (b : BloomFilter) × (add_all fnv items (new_bloom_filter 130 3) ≡ some b)
    × ((item : List ℕ) → (contains fnv item b ≡ some true) ↔ AllShared fnv items b item)
contains_iff_example = contains_iff fnv 130 3 (omega arith) (omega arith) items
