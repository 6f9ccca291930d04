-- ===== src/Lsm/Memtable.antt =====
-- code/lsm_memtable/lsm.go: `Memtable`, a skip list. A node is known by its key: `cells` has the rest
-- of the node with a key, and `levels i` the keys that are linked at level i, from `head` on; `none`
-- as a position is `head`. `draws` is the parameter for the seeded generator: whether its n-th number
-- is below `probability`.
use mathlib.Core.Logic.{ite}
use system_design_handbook.Base.{
  ℕ, zero, suc, ◌+◌, ◌-◌, Bool, true, false, Option, none, some, List, [], ◌∷◌, map, length, ltb,
  ◌==◌, if◌then◌else◌,
}
use system_design_handbook.Bytes.{Bytes, bytes_discrete}
use system_design_handbook.Bytes.Order.{ltb_bytes, eqb_bytes}

abbrev pub max_level : ℕ
max_level = 16

pub record Cell : Type 0 where
  pub value : Bytes
  pub deleted : Bool

pub record Memtable : Type 0 where
  pub levels : ℕ → List Bytes
  pub cells : Bytes → Cell
  pub level : ℕ
  pub count : ℕ
  pub bytes : ℕ
  pub drawn : ℕ

abbrev pub empty_cell : Cell
empty_cell = record { value = []; deleted = false }

unfoldable pub new_memtable : Memtable
new_memtable = record {
  levels = λ _. [];
  cells = λ _. empty_cell;
  level = 1;
  count = 0;
  bytes = 0;
  drawn = 0;
}

-- The nodes behind this one, at a level.
unfoldable pub after : Option Bytes → List Bytes → List Bytes
after none l = l
after (some k) [] = []
after (some k) (j ∷ l) = let rest = after (some k) l in ite (bytes_discrete j k) l rest

-- The inner loop of the search, from x with these nodes behind it.
unfoldable pub walk : Bytes → Option Bytes → List Bytes → Option Bytes
walk key x [] = x
walk key x (j ∷ l) = let rest = walk key (some j) l in if ltb_bytes j key then rest else x

-- The search from level n - 1 down to 0, from x: `update`, which is `head` where it is not set, and the
-- node where it ends.
unfoldable pub descend :
    Bytes → (ℕ → List Bytes) → ℕ → Option Bytes → (ℕ → Option Bytes) × Option Bytes
descend key levels zero x = ((λ _. none), x)
descend key levels (suc i) x =
    let y = walk key x (after x (levels i)) in
    let (update, last) = descend key levels i y in ((λ j. if j == i then y else update j), last)

-- `x.next[0]`
unfoldable pub first : List Bytes → Option Bytes
first [] = none
first (k ∷ l) = some k

-- The new node is linked behind the given one.
unfoldable pub insert_after : Option Bytes → Bytes → List Bytes → List Bytes
insert_after none k l = k ∷ l
insert_after (some p) k [] = []
insert_after (some p) k (j ∷ l) =
    let rest = insert_after (some p) k l in ite (bytes_discrete j p) (j ∷ k ∷ l) (j ∷ rest)

unfoldable pub set_cell : Bytes → Cell → (Bytes → Cell) → Bytes → Cell
set_cell k c cells j = ite (bytes_discrete j k) c (cells j)

-- What `Get` returns: nothing, a tombstone, or a value.
pub data Answer : Type 0 where
  absent : Answer
  erased : Answer
  found : Bytes → Answer

unfoldable pub answer : Cell → Answer
answer c = if c.deleted then erased else found c.value

pub record Entry : Type 0 where
  pub key : Bytes
  pub value : Bytes
  pub deleted : Bool

unfoldable pub entry_at : (Bytes → Cell) → Bytes → Entry
entry_at cells k = record { key = k; value = (cells k).value; deleted = (cells k).deleted }

unfoldable pub entries : Memtable → List Entry
unfolding entry_at
entries m = map (entry_at m.cells) (m.levels 0)

-- `Get`, once the search has ended before this node.
unfoldable pub get_next : Bytes → Option Bytes → Memtable → Answer
get_next key none m = absent
get_next key (some k) m = if eqb_bytes k key then answer (m.cells k) else absent

unfoldable pub get : Bytes → Memtable → Answer
unfolding get_next
get key m =
    let (update, x) = descend key m.levels m.level none in
    get_next key (first (after x (m.levels 0))) m

module _ (draws : ℕ → Bool) where
  -- The loop of `randomLevel`, for the rounds that are left, from l: the level and the numbers drawn.
  unfoldable pub draw_level : ℕ → ℕ → ℕ → ℕ × ℕ
  draw_level zero l drawn = (l, drawn)
  draw_level (suc more) l drawn =
      let higher = draw_level more (suc l) (suc drawn) in
      if draws drawn then higher else (l, suc drawn)

  unfoldable pub random_level : ℕ → ℕ × ℕ
  random_level drawn = draw_level (max_level - 1) 1 drawn

  -- The part of `insert` for a key that is there.
  unfoldable pub replace : Bytes → Bytes → Bool → Memtable → Memtable
  replace k value deleted m = record m {
    bytes = (m.bytes + length value) - length (m.cells k).value;
    cells = set_cell k (record { value = value; deleted = deleted }) m.cells;
  }

  -- The part for a new key.
  unfoldable pub link : Bytes → Bytes → Bool → (ℕ → Option Bytes) → Memtable → Memtable
  unfolding random_level
  link key value deleted update m =
      let (lvl, drawn) = random_level m.drawn in
      record m {
        levels = λ i. if ltb i lvl then insert_after (update i) key (m.levels i) else m.levels i;
        cells = set_cell key (record { value = value; deleted = deleted }) m.cells;
        level = if ltb m.level lvl then lvl else m.level;
        count = m.count + 1;
        bytes = m.bytes + (length key + length value);
        drawn = drawn;
      }

  unfoldable pub insert_next :
      Bytes → Bytes → Bool → (ℕ → Option Bytes) → Option Bytes → Memtable → Memtable
  unfolding replace link
  insert_next key value deleted update none m = link key value deleted update m
  insert_next key value deleted update (some k) m =
      if eqb_bytes k key then replace k value deleted m else link key value deleted update m

  unfoldable pub insert : Bytes → Bytes → Bool → Memtable → Memtable
  unfolding insert_next
  insert key value deleted m =
      let (update, x) = descend key m.levels m.level none in
      insert_next key value deleted update (first (after x (m.levels 0))) m

  unfoldable pub put : Bytes → Bytes → Memtable → Memtable
  unfolding insert
  put key value m = insert key value false m

  unfoldable pub delete : Bytes → Memtable → Memtable
  unfolding insert
  delete key m = insert key [] true m
