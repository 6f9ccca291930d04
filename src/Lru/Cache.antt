-- ===== src/Lru/Cache.antt =====
-- code/lru_cache/lru.go: `LRUCache` with `Get`, `Put`, `Len` and `keysMRUFirst`. The entries are
-- known by their keys: `items` gives the value in the entry of a key, and `order` has the keys of the
-- linked entries from `head` to `tail`..
use mathlib.Core.Logic.{ite}
use system_design_handbook.Base.{
  ℕ, ◌+◌, Option, none, some, List, [], ◌∷◌, length, leb, if◌then◌else◌,
}
use system_design_handbook.Base.Dict.{find, insert, erase}
use system_design_handbook.Int.{ℤ, pos, leb_ℤ, pos_part}

pub record LruCache (K V : Type 0) : Type 0 where
  pub capacity : ℕ
  pub items : List (K × V)
  pub order : List K
  pub hits : ℕ
  pub misses : ℕ

-- `none` is the panic.
unfoldable pub new_lru_cache : {K V : Type 0} → ℤ → Option (LruCache K V)
new_lru_cache capacity =
    if leb_ℤ capacity (pos 0)
    then none
    else some
        (record { capacity = pos_part capacity; items = []; order = []; hits = 0; misses = 0 })

-- `tail.prev`
unfoldable pub last_key : {K : Type 0} → List K → Option K
last_key [] = none
last_key (k ∷ []) = some k
last_key (k ∷ j ∷ ks) = last_key (j ∷ ks)

module _ {K : Type 0} (dec : Discrete K) where
  -- `unlink`, of the entry with this key.
  unfoldable pub unlink : K → List K → List K
  unlink k [] = []
  unlink k (j ∷ js) = ite (dec j k) js (j ∷ unlink k js)

module _ {K V : Type 0} (dec : Discrete K) where
  -- `unlink` and `pushFront`
  unfoldable pub touch : K → LruCache K V → LruCache K V
  touch k c = record c { order = k ∷ unlink dec k c.order }

  unfoldable pub evict_key : Option K → LruCache K V → LruCache K V
  evict_key none c = c
  evict_key (some k) c = record c { order = unlink dec k c.order; items = erase dec k c.items }

  unfoldable pub evict : LruCache K V → LruCache K V
  unfolding evict_key
  evict c = evict_key (last_key c.order) c

  -- `Get`, by what the map has for the key.
  unfoldable pub get_item : K → Option V → LruCache K V → LruCache K V × Option V
  unfolding touch
  get_item k none c = (record c { misses = c.misses + 1 }, none)
  get_item k (some v) c = (touch k (record c { hits = c.hits + 1 }), some v)

  unfoldable pub get : K → LruCache K V → LruCache K V × Option V
  unfolding get_item
  get k c = get_item k (find dec k c.items) c

  -- The end of `Put`, for a key that is not there.
  unfoldable pub add_item : K → V → LruCache K V → LruCache K V
  add_item k v c = record c { items = insert dec k v c.items; order = k ∷ c.order }

  unfoldable pub put_item : K → V → Option V → LruCache K V → LruCache K V
  unfolding touch evict add_item
  put_item k v (some _) c = touch k (record c { items = insert dec k v c.items })
  put_item k v none c = add_item k v (if leb c.capacity (length c.items) then evict c else c)

  unfoldable pub put : K → V → LruCache K V → LruCache K V
  unfolding put_item
  put k v c = put_item k v (find dec k c.items) c

  unfoldable pub len : LruCache K V → ℕ
  len c = length c.items
