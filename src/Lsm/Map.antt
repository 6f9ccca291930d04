-- ===== src/Lsm/Map.antt =====
-- code/lsm_memtable/lsm.go: the memtable as a map from keys to answers, whatever levels are drawn.
use system_design_handbook.Base.{
  ℕ, ◌≡◌, refl, inl, inr, Option, none, some, length, if◌then◌else◌, dec_lt, arith,
}
use system_design_handbook.Bytes.{Bytes}
use system_design_handbook.Bytes.Order.{compare_bytes_refl}
use system_design_handbook.Lsm.Memtable.{
  Memtable, new_memtable, after, descend, first, insert_after, absent, answer, get_next, get,
}
use system_design_handbook.Lsm.Links.{Stops, drop_below, insert_sorted}
use system_design_handbook.Lsm.Sorted.{has, Located, first-Located}
use system_design_handbook.Lsm.Weights.{weight}
use system_design_handbook.Lsm.Search.{IsSkipList, search-Stops, update-Stops, descend_unset}

pub record IsValid (m : Memtable) : Type 0 where
  pub skips : IsSkipList m.levels m.level
  pub counted : m.count ≡ length (m.levels 0)
  pub weighed : m.bytes ≡ weight m.cells (m.levels 0)

pub new_memtable-IsValid : IsValid new_memtable
unfolding new_memtable weight
new_memtable-IsValid = record {
  skips = record {
    sorted = λ i. tt;
    nested = λ i k none. absurd none;
    bottom = omega arith;
    top = λ i h. refl;
  };
  counted = refl;
  weighed = refl;
}

-- What `Get` reads.
pub get-has :
    (key : Bytes) (m : Memtable)
    → IsValid m
    → get key m ≡ (if has key (m.levels 0) then answer (m.cells key) else absent)
unfolding get get_next
get-has key m v =
    let s = search-Stops key m.levels m.level v.skips in
    let at = first-Located key (m.levels 0) (v.skips.sorted 0) in
    rw s.behind (read (first (drop_below key (m.levels 0))) at)
  where
    read :
        (o : Option Bytes)
        → Located key (has key (m.levels 0)) o
        → get_next key o m ≡ (if has key (m.levels 0) then answer (m.cells key) else absent)
    read none at = rw at refl
    read (some k) (inl (same, here)) = ground (arith, compare_bytes_refl key)
    read (some k) (inr (other, gone)) = ground arith

-- Every position that `insert` links behind stops before the place of the key.
pub update_all :
    (key : Bytes) (m : Memtable)
    → IsValid m
    → (i : ℕ) → Stops key (m.levels i) ((descend key m.levels m.level none).0 i)
unfolding after insert_after drop_below insert_sorted
update_all key m v i = elim (dec_lt i m.level) [
  | yes less ↦ update-Stops key m.levels m.level v.skips i less
  | no more ↦
      rw (v.skips.top i (omega arith), descend_unset key m.levels m.level none i (omega arith))
        (record { behind = refl; linked = refl })
]
