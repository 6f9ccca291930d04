-- ===== src/Lsm/Linking.antt =====
-- code/lsm_memtable/lsm.go: a new key is linked in its place at every level below the drawn one.
use mathlib.Core.Logic.{ite, if_pos, if_neg}
use system_design_handbook.Base.{
  ℕ, zero, suc, ◌-◌, ◌≤◌, ◌<◌, ◌≡◌, ◌≢◌, refl, sym, ap, inl, inr, Bool, true, false, Bool-cases,
  Option, length, Holds, ltb, if◌then◌else◌, arith,
}
use system_design_handbook.Bytes.{Bytes, bytes_discrete}
use system_design_handbook.Bytes.Order.{eqb_bytes, compare_bytes_refl}
use system_design_handbook.Lsm.Memtable.{
  max_level, Memtable, Cell, set_cell, absent, answer, get, draw_level, random_level, link,
}
use system_design_handbook.Lsm.Links.{IsSorted, Stops, insert_sorted}
use system_design_handbook.Lsm.Sorted.{
  has, Holds-has, has-Holds, has-insert_sorted, Holds-insert_sorted, insert_sorted-Holds,
  insert_sorted-IsSorted, length-insert_sorted,
}
use system_design_handbook.Lsm.Weights.{
  eqb_bytes-ne, set_cell-same, set_cell-other, weight-set_gone, weight-insert_sorted,
}
use system_design_handbook.Lsm.Map.{IsValid, get-has}

-- A map that is changed at one key, where it now holds the key.
pub changed :
    (key j : Bytes) (c : Cell) (cells : Bytes → Cell) (here before : Bool)
    → (j ≡ key → here ≡ true)
    → (j ≢ key → here ≡ before)
    → (if here then answer (set_cell key c cells j) else absent)
      ≡ ite (bytes_discrete j key) (answer c) (if before then answer (cells j) else absent)
changed key j c cells here before same other = elim (bytes_discrete j key) [
  | yes e ↦
      rw (same e, e, set_cell-same key c cells)
        (sym (
          if_pos (bytes_discrete key key) refl (answer c)
            (if before then answer (cells key) else absent)))
  | no ne ↦
      rw (other ne, set_cell-other key j c cells ne)
        (sym (
          if_neg (bytes_discrete j key) ne (answer c)
            (if before then answer (cells j) else absent)))
]

module _ (draws : ℕ → Bool) where
  draw_level-le : (more l drawn : ℕ) → l ≤ (draw_level draws more l drawn).0
  unfolding draw_level
  draw_level-le zero l drawn = omega arith
  draw_level-le (suc more) l drawn = ground (arith, draw_level-le more (suc l) (suc drawn))

  level_pos : (drawn : ℕ) → 0 < (random_level draws drawn).0
  unfolding random_level
  level_pos drawn = draw_level-le (max_level - 1) 1 drawn

  module _ (key value : Bytes) (deleted : Bool) (m : Memtable) (v : IsValid m) where
    abbrev new_cell : Cell
    new_cell = record { value = value; deleted = deleted }

    -- The positions after which the key is linked.
    module _ (update : ℕ → Option Bytes) (at : (i : ℕ) → Stops key (m.levels i) (update i))
        (new : has key (m.levels 0) ≡ false) where
      abbrev pub linked : Memtable
      linked = link draws key value deleted update m

      linked-level :
          (i : ℕ)
          → linked.levels i ≡ (
              if ltb i (random_level draws m.drawn).0
              then insert_sorted key (m.levels i)
              else m.levels i)
      unfolding link
      linked-level i = ground (arith, (at i).linked)

      pub linked-bottom : linked.levels 0 ≡ insert_sorted key (m.levels 0)
      linked-bottom = ground (arith, linked-level 0, level_pos m.drawn)

      absent_above : (i : ℕ) → has key (m.levels i) ≡ false
      absent_above zero = new
      absent_above (suc i) = elim (Bool-cases (has key (m.levels (suc i)))) [
        | inl here ↦
            let there =
              has-Holds key (m.levels i)
                (v.skips.nested i key (Holds-has key (m.levels (suc i)) here)) in
            ground (arith, there, absent_above i)
        | inr gone ↦ gone
      ]

      linked-IsSorted : (i : ℕ) → IsSorted (linked.levels i)
      linked-IsSorted i =
          rw (linked-level i) (elim (Bool-cases (ltb i (random_level draws m.drawn).0)) [
            | inl low ↦
                rw low (insert_sorted-IsSorted key (m.levels i) (v.skips.sorted i) (absent_above i))
            | inr high ↦ rw high (v.skips.sorted i)
          ])

      linked-keeps : (i : ℕ) (k : Bytes) → Holds k (m.levels i) → Holds k (linked.levels i)
      linked-keeps i k held =
          rw (linked-level i) (elim (Bool-cases (ltb i (random_level draws m.drawn).0)) [
            | inl low ↦ rw low (insert_sorted-Holds key k (m.levels i) (inr held))
            | inr high ↦ rw high held
          ])

      linked-nested :
          (i : ℕ) (k : Bytes) → Holds k (linked.levels (suc i)) → Holds k (linked.levels i)
      linked-nested i k held = elim (Bool-cases (ltb (suc i) (random_level draws m.drawn).0)) [
        | inl low ↦
            let held' = rw (linked-level (suc i), low) at held in
            elim (Holds-insert_sorted key k (m.levels (suc i)) held') [
              | inl same ↦
                  let low' : ltb i (random_level draws m.drawn).0 ≡ true = ground arith in
                  rw (linked-level i, low') (insert_sorted-Holds key k (m.levels i) (inl same))
              | inr old ↦ linked-keeps i k (v.skips.nested i k old)
            ]
        | inr high ↦
            let held' = rw (linked-level (suc i), high) at held in
            linked-keeps i k (v.skips.nested i k held')
      ]

      pub link-IsValid : IsValid linked
      unfolding link
      link-IsValid = record {
        skips = record {
          sorted = linked-IsSorted;
          nested = linked-nested;
          bottom = ground (arith, v.skips.bottom);
          top = λ i h. ground (arith, v.skips.top i);
        };
        counted =
            rw linked-bottom (ground (arith, length-insert_sorted key (m.levels 0), v.counted));
        weighed = rw linked-bottom (
            omega (
              arith,
              v.weighed,
              weight-insert_sorted key (set_cell key new_cell m.cells) (m.levels 0),
              weight-set_gone key new_cell m.cells (m.levels 0) new,
              ap (λ (c : Cell). length c.value) (set_cell-same key new_cell m.cells),
            ));
      }

      pub linked_cells : linked.cells ≡ set_cell key new_cell m.cells
      unfolding link
      linked_cells = refl

      pub get-link :
          (j : Bytes) → get j linked ≡ ite (bytes_discrete j key) (answer new_cell) (get j m)
      get-link j =
          let reads = get-has j linked link-IsValid in
          let old = get-has j m v in
          rw (reads, linked-bottom, has-insert_sorted key j (m.levels 0), linked_cells, old)
            (changed key j new_cell m.cells (if eqb_bytes key j then true else has j (m.levels 0))
              (has j (m.levels 0)) (λ same. rw same (ground (arith, compare_bytes_refl key)))
              (λ other. ground (arith, eqb_bytes-ne key j (λ e. other (sym e)))))
