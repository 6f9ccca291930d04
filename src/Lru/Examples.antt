-- ===== src/Lru/Examples.antt =====
-- code/lru_cache/lru.go: the demo of `main`, and the theorem there.
use system_design_handbook.Base.{ℕ, ◌≡◌, refl, none, some, List, [], ◌∷◌, ℕ_discrete}
use system_design_handbook.Base.Dict.{find, insert, erase}
use system_design_handbook.Int.{pos}
use system_design_handbook.Lru.Cache.{
  LruCache, new_lru_cache, last_key, unlink, touch, evict_key, evict, get_item, get, add_item,
  put_item, put,
}
use system_design_handbook.Lru.Recency.{drop_last, recent_get, recent_put}
use system_design_handbook.Lru.Refinement.{Holds}
use system_design_handbook.Lru.History.{
  Operation, get_op, put_op, run_cache, run_recent, new_lru_cache-Holds,
}

program : Unit {0}
unfolding ℕ_discrete find insert erase new_lru_cache last_key unlink touch evict_key evict get_item
    get add_item put_item put drop_last recent_get recent_put run_cache run_recent
program = tt

abbrev empty : LruCache ℕ ℕ
empty = record { capacity = 3; items = []; order = []; hits = 0; misses = 0 }

-- Getting 1 saves it: 4 pushes out 2.
abbrev demo : List (Operation ℕ ℕ)
demo = put_op 1 10 ∷ put_op 2 20 ∷ put_op 3 30 ∷ get_op 1 ∷ put_op 4 40 ∷ get_op 2 ∷ get_op 1 ∷ []

demo_answers : (run_cache ℕ_discrete demo empty).1 ≡ some 10 ∷ none ∷ some 10 ∷ []
unfolding program
demo_answers = refl

new_lru_cache-Holds_example :
    ((run_cache ℕ_discrete demo empty).1 ≡ (run_recent ℕ_discrete 3 demo []).1)
    × Holds ℕ_discrete (run_cache ℕ_discrete demo empty).0 (run_recent ℕ_discrete 3 demo []).0
unfolding program
new_lru_cache-Holds_example = new_lru_cache-Holds ℕ_discrete (pos 3) empty demo refl
