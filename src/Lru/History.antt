-- ===== src/Lru/History.antt =====
-- code/lru_cache/lru.go: sequences of `Get` and `Put` on a new cache.
use system_design_handbook.Base.{
  ℕ, ◌≡◌, refl, ◌∙◌, inl, inr, Bool-cases, Option, none, some, List, [], ◌∷◌, length, leb, arith,
}
use system_design_handbook.Base.Dict.{find}
use system_design_handbook.Int.{ℤ}
use system_design_handbook.Lru.Cache.{
  LruCache, new_lru_cache, last_key, touch, evict, evict_key, get_item, get, add_item, put_item,
  put,
}
use system_design_handbook.Lru.Recency.{drop_last, recent_get, recent_put}
use system_design_handbook.Lru.Refinement.{Holds, Holds-put_old, Holds-get, Holds-add, Holds-evict}

pub data Operation (K V : Type 0) : Type 0 where
  get_op : K → Operation K V
  put_op : K → V → Operation K V

module _ {K V : Type 0} (dec : Discrete K) where
  -- The cache after the operations, and the answers of the gets.
  unfoldable pub run_cache : List (Operation K V) → LruCache K V → LruCache K V × List (Option V)
  run_cache [] c = (c, [])
  run_cache (get_op k ∷ ops) c =
      let (c', v) = get dec k c in let (c'', vs) = run_cache ops c' in (c'', v ∷ vs)
  run_cache (put_op k v ∷ ops) c = run_cache ops (put dec k v c)

  -- The same of the bounded list of pairs.
  unfoldable pub run_recent :
      ℕ → List (Operation K V) → List (K × V) → List (K × V) × List (Option V)
  run_recent capacity [] l = (l, [])
  run_recent capacity (get_op k ∷ ops) l =
      let (l', vs) = run_recent capacity ops (recent_get dec k (find dec k l) l) in
      (l', find dec k l ∷ vs)
  run_recent capacity (put_op k v ∷ ops) l =
      run_recent capacity ops (recent_put dec capacity k v (find dec k l) l)

  -- The capacity never changes.
  evict_key-capacity : (o : Option K) (c : LruCache K V) → (evict_key dec o c).capacity ≡ c.capacity
  unfolding evict_key
  evict_key-capacity none c = refl
  evict_key-capacity (some k) c = refl

  get-capacity : (k : K) (c : LruCache K V) → (get dec k c).0.capacity ≡ c.capacity
  unfolding get touch
  get-capacity k c = ground arith

  put-capacity : (k : K) (v : V) (c : LruCache K V) → (put dec k v c).capacity ≡ c.capacity
  unfolding put touch evict add_item
  put-capacity k v c = ground arith

  get-Holds :
      (k : K) (c : LruCache K V) (l : List (K × V)) (o : Option V)
      → find dec k l ≡ o
      → Holds dec c l
      → ((get_item dec k o c).1 ≡ o) × Holds dec (get_item dec k o c).0 (recent_get dec k o l)
  unfolding get_item recent_get
  get-Holds k c l none e h = (
    refl,
    record {
      linked = h.linked;
      stored = h.stored;
      unique_items = h.unique_items;
      unique = h.unique;
      size = h.size;
      bounded = h.bounded;
      room = h.room;
    },
  )
  get-Holds k c l (some w) e h = (refl, Holds-get dec k w c l h e)

  put-Holds :
      (k : K) (v : V) (c : LruCache K V) (l : List (K × V)) (o : Option V)
      → find dec k l ≡ o
      → Holds dec c l
      → Holds dec (put_item dec k v o c) (recent_put dec c.capacity k v o l)
  unfolding put_item recent_put evict
  put-Holds k v c l (some w) e h = Holds-put_old dec k v w c l h e
  put-Holds k v c l none e h = elim (Bool-cases (leb c.capacity (length l))) [
    | inl full ↦
        let (h', less, absent) = Holds-evict dec c l h (ground (arith, full, h.room)) in
        let same = evict_key-capacity (last_key c.order) c in
        rw (h.size, full)
          (Holds-add dec k v (evict dec c) (drop_last l) h' (absent k e)
            (omega (arith, same, less, h.bounded)))
    | inr room ↦ rw (h.size, room) (Holds-add dec k v c l h e (ground (arith, room)))
  ]

  put_any-Holds :
      (k : K) (v : V) (c : LruCache K V) (l : List (K × V)) (capacity : ℕ)
      → c.capacity ≡ capacity
      → Holds dec c l
      → Holds dec (put dec k v c) (recent_put dec capacity k v (find dec k l) l)
  unfolding put
  put_any-Holds k v c l capacity e h =
      rw (← e, h.stored k) (put-Holds k v c l (find dec k l) refl h)

  run-Holds :
      (ops : List (Operation K V)) (c : LruCache K V) (l : List (K × V)) (capacity : ℕ)
      → c.capacity ≡ capacity
      → Holds dec c l
      → ((run_cache ops c).1 ≡ (run_recent capacity ops l).1)
        × Holds dec (run_cache ops c).0 (run_recent capacity ops l).0
  unfolding run_cache run_recent get
  run-Holds [] c l capacity e h = (refl, h)
  run-Holds (get_op k ∷ ops) c l capacity e h =
      let (answer, h') = get-Holds k c l (find dec k l) refl h in
      let c' = (get_item dec k (find dec k l) c).0 in
      let same = rw (h.stored k) at (get-capacity k c) in
      let (answers, end) =
        run-Holds ops c' (recent_get dec k (find dec k l) l) capacity (same ∙ e) h' in
      rw (h.stored k) (λ i. answer i ∷ answers i, end)
  run-Holds (put_op k v ∷ ops) c l capacity e h =
      let h' = put_any-Holds k v c l capacity e h in
      run-Holds ops (put dec k v c) (recent_put dec capacity k v (find dec k l) l) capacity
        (put-capacity k v c ∙ e) h'

  new_lru_cache-starts : (n : ℤ) (d : LruCache K V) → new_lru_cache n ≡ some d → Holds dec d []
  unfolding new_lru_cache find
  new_lru_cache-starts n d e = ground arith

  -- Whatever is put and got, a new cache behaves as the list of pairs in order of use: every `Get` has
  -- the list's answer, and the map and the linked entries hold just the list's pairs, most recent
  -- first, at most `capacity` of them. So a full cache pushes out the pair used longest ago.
  pub new_lru_cache-Holds :
      (capacity : ℤ) (c : LruCache K V) (ops : List (Operation K V))
      → new_lru_cache capacity ≡ some c
      → ((run_cache ops c).1 ≡ (run_recent c.capacity ops []).1)
        × Holds dec (run_cache ops c).0 (run_recent c.capacity ops []).0
  new_lru_cache-Holds capacity c ops made =
      run-Holds ops c [] c.capacity refl (new_lru_cache-starts capacity c made)
