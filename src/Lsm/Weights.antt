-- ===== src/Lsm/Weights.antt =====
-- code/lsm_memtable/lsm.go: the bytes that a memtable counts.
use mathlib.Core.Logic.{if_pos, if_neg}
use system_design_handbook.Base.{ℕ, ◌+◌, ◌≡◌, ◌≢◌, refl, true, false, List, [], ◌∷◌, length, arith}
use system_design_handbook.Bytes.{Bytes, bytes_discrete}
use system_design_handbook.Bytes.Order.{eqb_bytes, compare_bytes_refl, compare_bytes-eq}
use system_design_handbook.Lsm.Memtable.{Cell, set_cell}
use system_design_handbook.Lsm.Links.{IsSorted, insert_sorted}
use system_design_handbook.Lsm.Sorted.{has, has-Above}

-- The bytes of the keys and values of the list.
unfoldable pub weight : (Bytes → Cell) → List Bytes → ℕ
weight cells [] = 0
weight cells (k ∷ l) = (length k + length (cells k).value) + weight cells l

pub eqb_bytes-ne : (j k : Bytes) → j ≢ k → eqb_bytes j k ≡ false
eqb_bytes-ne j k other = ground (arith, compare_bytes-eq j k)

pub set_cell-same : (k : Bytes) (c : Cell) (cells : Bytes → Cell) → set_cell k c cells k ≡ c
unfolding set_cell
set_cell-same k c cells = if_pos (bytes_discrete k k) refl c (cells k)

pub set_cell-other :
    (k j : Bytes) (c : Cell) (cells : Bytes → Cell) → j ≢ k → set_cell k c cells j ≡ cells j
unfolding set_cell
set_cell-other k j c cells other = if_neg (bytes_discrete j k) other c (cells j)

pub weight-set_gone :
    (k : Bytes) (c : Cell) (cells : Bytes → Cell) (l : List Bytes)
    → has k l ≡ false
    → weight (set_cell k c cells) l ≡ weight cells l
unfolding weight has
weight-set_gone k c cells [] gone = refl
weight-set_gone k c cells (j ∷ l) gone = elim (bytes_discrete j k) [
  | yes same ↦ ground (arith, same, compare_bytes_refl k)
  | no other ↦
      ground (
        arith,
        set_cell-other k j c cells other,
        eqb_bytes-ne j k other,
        weight-set_gone k c cells l,
      )
]

pub weight-set :
    (k : Bytes) (c : Cell) (cells : Bytes → Cell) (l : List Bytes)
    → IsSorted l
    → has k l ≡ true
    → weight (set_cell k c cells) l + length (cells k).value ≡ weight cells l + length c.value
unfolding weight has
weight-set k c cells [] sorted here = cc
weight-set k c cells (j ∷ l) sorted here = elim (bytes_discrete j k) [
  | yes same ↦
      let gone : has k l ≡ false = has-Above k l (rw same at sorted.0) in
      rw same (ground (arith, set_cell-same k c cells, weight-set_gone k c cells l gone))
  | no other ↦ ground (
    arith,
    set_cell-other k j c cells other,
    eqb_bytes-ne j k other,
    weight-set k c cells l sorted.1,
  )
]

pub weight-insert_sorted :
    (k : Bytes) (cells : Bytes → Cell) (l : List Bytes)
    → weight cells (insert_sorted k l) ≡ (length k + length (cells k).value) + weight cells l
unfolding weight insert_sorted
weight-insert_sorted k cells [] = refl
weight-insert_sorted k cells (j ∷ l) = ground (arith, weight-insert_sorted k cells l)
