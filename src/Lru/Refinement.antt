-- ===== src/Lru/Refinement.antt =====
-- code/lru_cache/lru.go: the cache behaves as a bounded list of pairs in order of use.
use mathlib.Core.Logic.{ite, if_pos, if_neg}
use system_design_handbook.Base.{
  suc, ◌+◌, ◌≤◌, ◌<◌, ◌≡◌, refl, ap, sym, ◌∙◌, none, some, List, [], ◌∷◌, length, arith,
}
use system_design_handbook.Base.Dict.{find, insert, erase, find-insert, find-erase}
use system_design_handbook.Lru.Cache.{LruCache, last_key, unlink, touch, evict_key, evict, add_item}
use system_design_handbook.Lru.Recency.{
  drop_last, keys, IsUnique, unlink-keys, IsUnique-erase, IsUnique-insert, length-insert_new,
  length-insert_old, length-erase,
}

module _ {K V : Type 0} (dec : Discrete K) where
  -- The cache holds just these pairs, linked in this order.
  pub record Holds (c : LruCache K V) (l : List (K × V)) : Type 0 where
    pub linked : c.order ≡ keys dec l
    pub stored : (k : K) → find dec k c.items ≡ find dec k l
    pub unique_items : IsUnique dec c.items
    pub unique : IsUnique dec l
    pub size : length c.items ≡ length l
    pub bounded : length l ≤ c.capacity
    pub room : 0 < c.capacity

  -- A pair of a key that is there goes to the front, with a new value.
  module _ (k : K) (v w : V) (c : LruCache K V) (l : List (K × V)) (h : Holds c l)
      (there : find dec k l ≡ some w) where
    shorter : suc (length (erase dec k l)) ≡ length l
    shorter = length-erase dec k w l h.unique there

    front-IsUnique : IsUnique dec ((k, v) ∷ erase dec k l)
    front-IsUnique =
        (find-erase dec k k l ∙ if_pos (dec k k) refl _ _, IsUnique-erase dec k l h.unique)

    front-linked : k ∷ unlink dec k c.order ≡ keys dec ((k, v) ∷ erase dec k l)
    front-linked = ap (◌∷◌ k) (ap (unlink dec k) h.linked ∙ unlink-keys dec k l h.unique)

    front-find :
        (j : K) → find dec j ((k, v) ∷ erase dec k l) ≡ ite (dec k j) (some v) (find dec j l)
    unfolding find
    front-find j = ground (arith, find-erase dec k j l)

    pub Holds-put_old :
        Holds (touch dec k (record c { items = insert dec k v c.items })) ((k, v) ∷ erase dec k l)
    unfolding touch
    Holds-put_old = record {
      linked = front-linked;
      stored = λ j. ground (arith, front-find j, find-insert dec k j v c.items, h.stored j);
      unique_items = IsUnique-insert dec k v c.items h.unique_items;
      unique = front-IsUnique;
      size =
          omega (arith, length-insert_old dec k v w c.items (h.stored k ∙ there), h.size, shorter);
      bounded = omega (arith, h.bounded, shorter);
      room = h.room;
    }

  pub Holds-get :
      (k : K) (w : V) (c : LruCache K V) (l : List (K × V))
      → Holds c l
      → find dec k l ≡ some w
      → Holds (touch dec k (record c { hits = c.hits + 1 })) ((k, w) ∷ erase dec k l)
  unfolding touch
  Holds-get k w c l h there = record {
    linked = front-linked k w w c l h there;
    stored = λ j. ground (arith, front-find k w w c l h there j, h.stored j, there);
    unique_items = h.unique_items;
    unique = front-IsUnique k w w c l h there;
    size = omega (arith, h.size, shorter k w w c l h there);
    bounded = omega (arith, h.bounded, shorter k w w c l h there);
    room = h.room;
  }

  pub Holds-add :
      (k : K) (v : V) (c : LruCache K V) (l : List (K × V))
      → Holds c l
      → find dec k l ≡ none
      → length l < c.capacity
      → Holds (add_item dec k v c) ((k, v) ∷ l)
  unfolding add_item find
  Holds-add k v c l h absent less = record {
    linked = ap (◌∷◌ k) h.linked;
    stored = λ j. ground (arith, find-insert dec k j v c.items, h.stored j);
    unique_items = IsUnique-insert dec k v c.items h.unique_items;
    unique = (absent, h.unique);
    size = omega (arith, length-insert_new dec k v c.items (h.stored k ∙ absent), h.size);
    bounded = less;
    room = h.room;
  }

  -- The last key is there, and dropping its pair is erasing it.
  last_key-lem :
      (x : K × V) (l : List (K × V))
      → IsUnique dec (x ∷ l)
      → (k : K) × (w : V) × (last_key (keys dec (x ∷ l)) ≡ some k)
        × (find dec k (x ∷ l) ≡ some w)
        × (drop_last (x ∷ l) ≡ erase dec k (x ∷ l))
  unfolding last_key drop_last find erase
  last_key-lem (j, x) [] u =
      (j, x, refl, if_pos (dec j j) refl _ _, sym (if_pos (dec j j) refl _ _))
  last_key-lem (j, x) (y ∷ l) u =
      let (k, w, last, there, dropped) = last_key-lem y l u.1 in
      elim (dec j k) [
        | yes e ↦ absurd (let gone = rw e at u.0 in cc)
        | no ne ↦ (
          k,
          w,
          last,
          if_neg (dec j k) ne _ _ ∙ there,
          ap (◌∷◌ (j, x)) dropped ∙ sym (if_neg (dec j k) ne _ _),
        )
      ]

  pub Holds-evict :
      (c : LruCache K V) (l : List (K × V))
      → Holds c l
      → 0 < length l
      → Holds (evict dec c) (drop_last l)
        × (suc (length (drop_last l)) ≡ length l)
        × ((k : K) → find dec k l ≡ none → find dec k (drop_last l) ≡ none)
  unfolding evict evict_key
  Holds-evict c [] h some_left = absurd (omega arith)
  Holds-evict c (x ∷ l) h some_left =
      let (k, w, last, there, dropped) = last_key-lem x l h.unique in
      let m = x ∷ l in
      let less = length-erase dec k w m h.unique there in
      let less_items = length-erase dec k w c.items h.unique_items (h.stored k ∙ there) in
      let last' : last_key c.order ≡ some k = ap last_key h.linked ∙ last in
      rw (last', dropped)
        (
          record {
            linked = ap (unlink dec k) h.linked ∙ unlink-keys dec k m h.unique;
            stored =
                λ j. ground (arith, find-erase dec k j c.items, find-erase dec k j m, h.stored j);
            unique_items = IsUnique-erase dec k c.items h.unique_items;
            unique = IsUnique-erase dec k m h.unique;
            size = omega (arith, less, less_items, h.size);
            bounded = omega (arith, less, h.bounded);
            room = h.room;
          },
          less,
          λ j absent. ground (arith, find-erase dec k j m, absent),
        )
