-- ===== src/Lsm/Inserts.antt =====
-- code/lsm_memtable/lsm.go: `insert` changes the answer for its key only, and keeps the skip list valid.
use mathlib.Core.Logic.{ite}
use system_design_handbook.Base.{
  ℕ, ◌≡◌, refl, sym, ap, ◌∙◌, ◌⊎◌, inl, inr, Bool, true, false, Option, none, some, Holds, arith,
}
use system_design_handbook.Bytes.{Bytes, bytes_discrete}
use system_design_handbook.Bytes.Order.{eqb_bytes, compare_bytes_refl}
use system_design_handbook.Lsm.Memtable.{
  Memtable, Cell, descend, first, set_cell, answer, get, replace, insert_next, insert,
}
use system_design_handbook.Lsm.Links.{Stops, drop_below}
use system_design_handbook.Lsm.Sorted.{has, Holds-insert_sorted, Located, first-Located}
use system_design_handbook.Lsm.Weights.{set_cell-same, set_cell-other, weight-set}
use system_design_handbook.Lsm.Search.{search-Stops}
use system_design_handbook.Lsm.Map.{IsValid, get-has, update_all}
use system_design_handbook.Lsm.Linking.{
  changed, linked, linked-bottom, link-IsValid, linked_cells, get-link,
}

module _ (draws : ℕ → Bool) where
  module _ (key value : Bytes) (deleted : Bool) (m : Memtable) (v : IsValid m) where
    abbrev new_cell : Cell
    new_cell = record { value = value; deleted = deleted }

    replace-IsValid : has key (m.levels 0) ≡ true → IsValid (replace draws key value deleted m)
    unfolding replace
    replace-IsValid here = record {
      skips = v.skips;
      counted = v.counted;
      weighed =
          omega (
            arith,
            v.weighed,
            weight-set key new_cell m.cells (m.levels 0) (v.skips.sorted 0) here,
          );
    }

    get-replace :
        (here : has key (m.levels 0) ≡ true) (j : Bytes)
        → get j (replace draws key value deleted m)
          ≡ ite (bytes_discrete j key) (answer new_cell) (get j m)
    unfolding replace
    get-replace here j =
        let reads = get-has j (replace draws key value deleted m) (replace-IsValid here) in
        let old = get-has j m v in
        rw (reads, old)
          (changed key j new_cell m.cells (has j (m.levels 0)) (has j (m.levels 0))
            (λ same. rw same here) (λ other. refl))

    replaced_cells : (replace draws key value deleted m).cells ≡ set_cell key new_cell m.cells
    unfolding replace
    replaced_cells = refl

    -- Where the cell of a key comes from.
    abbrev pub Comes : Bytes → Memtable → Type 0
    Comes j n =
        ((key ≡ j) × (n.cells j ≡ new_cell)) ⊎ (Holds j (m.levels 0) × (n.cells j ≡ m.cells j))

    set_cell-Comes :
        (j : Bytes) (n : Memtable)
        → n.cells ≡ set_cell key new_cell m.cells
        → (key ≡ j) ⊎ Holds j (m.levels 0)
        → Comes j n
    set_cell-Comes j n e held = elim (bytes_discrete j key) [
      | yes same ↦ inl (
        sym same,
        ap (λ (f : Bytes → Cell). f j) e ∙ rw same (set_cell-same key new_cell m.cells),
      )
      | no other ↦ elim held [
        | inl same ↦ absurd (other (sym same))
        | inr old ↦
            inr
              (old, ap (λ (f : Bytes → Cell). f j) e ∙ set_cell-other key j new_cell m.cells other)
      ]
    ]

    link-Comes :
        (update : ℕ → Option Bytes) (at : (i : ℕ) → Stops key (m.levels i) (update i))
        (new : has key (m.levels 0) ≡ false) (j : Bytes)
        → Holds j ((linked draws key value deleted m v update at new).levels 0)
        → Comes j (linked draws key value deleted m v update at new)
    link-Comes update at new j held =
        set_cell-Comes j (linked draws key value deleted m v update at new)
          (linked_cells draws key value deleted m v update at new)
          (Holds-insert_sorted key j (m.levels 0)
            (rw (linked-bottom draws key value deleted m v update at new) at held))

    -- `insert` at any node where the search may end.
    abbrev pub Inserted : Memtable → Type 0
    Inserted n =
        IsValid n
        × ((j : Bytes) → get j n ≡ ite (bytes_discrete j key) (answer new_cell) (get j m))
        × ((j : Bytes) → Holds j (n.levels 0) → Comes j n)

    insert_next-Inserted :
        (o : Option Bytes)
        → Located key (has key (m.levels 0)) o
        → Inserted (insert_next draws key value deleted (descend key m.levels m.level none).0 o m)
    unfolding insert_next
    insert_next-Inserted none new =
        let at = update_all key m v in
        let update = (descend key m.levels m.level none).0 in
        (
          link-IsValid draws key value deleted m v update at new,
          get-link draws key value deleted m v update at new,
          link-Comes update at new,
        )
    insert_next-Inserted (some k) (inl (same, here)) =
        let own : eqb_bytes k key ≡ true = rw same (ground (arith, compare_bytes_refl key)) in
        rw own (
          rw same (
            replace-IsValid here,
            get-replace here,
            λ j held.
                set_cell-Comes j (replace draws key value deleted m) replaced_cells (inr held),
          ))
    insert_next-Inserted (some k) (inr (other, new)) =
        let at = update_all key m v in
        let update = (descend key m.levels m.level none).0 in
        rw other (
          link-IsValid draws key value deleted m v update at new,
          get-link draws key value deleted m v update at new,
          link-Comes update at new,
        )

    -- `insert` keeps the memtable valid, and changes the answer for its key only.
    pub insert-Inserted : Inserted (insert draws key value deleted m)
    unfolding insert
    insert-Inserted =
        let s = search-Stops key m.levels m.level v.skips in
        rw s.behind (
          insert_next-Inserted (first (drop_below key (m.levels 0)))
            (first-Located key (m.levels 0) (v.skips.sorted 0)))

    -- For any levels that the generator draws: `insert` on a valid memtable keeps it valid, so every
    -- level sorted and within the one below, and the count and the bytes those of the entries;
    -- afterwards `Get` of the key answers what was inserted, and of any other key what it did before.
    pub get-insert :
        IsValid (insert draws key value deleted m)
        × ((j : Bytes)
            → get j (insert draws key value deleted m)
              ≡ ite
                  (bytes_discrete j key)
                  (answer (record { value = value; deleted = deleted }))
                  (get j m))
    get-insert = let (valid, answers, comes) = insert-Inserted in (valid, answers)
