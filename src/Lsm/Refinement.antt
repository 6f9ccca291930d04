-- ===== src/Lsm/Refinement.antt =====
-- code/lsm_memtable/lsm.go: the tree is a map: `Get` returns the last value written.
use mathlib.Core.Logic.{ite, if_pos, if_neg}
use system_design_handbook.Base.{
  ℕ, ◌+◌, ◌^◌, ◌<◌, ◌≡◌, refl, sym, ap, ◌∙◌, inl, inr, Bool, true, false, ◌&&◌, Option, none, some,
  List, [], ◌∷◌, length, arith,
}
use system_design_handbook.Bytes.{Bytes, bytes_discrete}
use system_design_handbook.Int.{ℤ}
use system_design_handbook.Lsm.Memtable.{
  Memtable, Cell, Answer, absent, answer, get, insert, put, delete,
}
use system_design_handbook.Lsm.Inserts.{insert-Inserted}
use system_design_handbook.Lsm.Tree.{
  LsmTree, new_lsm_tree, tree_put, tree_delete, maybe_flush, force_flush, search_tables,
  value_found, tree_get,
}
use system_design_handbook.Lsm.Flushing.{IsGood, answer_of, flush_locked-Keeps, maybe_flush-Keeps}
use system_design_handbook.Lsm.Operations.{
  put_op, delete_op, flush_op, last_value, AllFit, newest_first-answer, ite-some, value_found-ite,
  AllFit-split, last_value-cons, new_lsm_tree-IsGood, answer_of-new, Operation,
}

module _ (draws : ℕ → Bool) where
  unfoldable pub do_one : Operation → LsmTree → LsmTree × Bool
  do_one (put_op k w) l = tree_put draws k w l
  do_one (delete_op k) l = tree_delete draws k l
  do_one flush_op l = force_flush l

  -- The tree after the operations, and whether none of them returned an error.
  unfoldable pub do_all : List Operation → LsmTree → LsmTree × Bool
  do_all [] l = (l, true)
  do_all (op ∷ ops) l =
      let (l', ok) = do_one op l in let (l'', all) = do_all ops l' in (l'', ok && all)

  pub insert-IsGood :
      (key value : Bytes) (deleted : Bool) (m : Memtable)
      → IsGood m
      → length key + length value < 2 ^ 32
      → IsGood (insert draws key value deleted m)
  insert-IsGood key value deleted m g h =
      let (valid, answers, comes) = insert-Inserted draws key value deleted m g.valid in
      record {
        valid = valid;
        short = λ k held. elim (comes k held) [
          | inl (same, cell) ↦
              omega (arith, h, ap length same, ap (λ (c : Cell). length c.value) cell)
          | inr (old, cell) ↦ omega (arith, g.short k old, ap (λ (c : Cell). length c.value) cell)
        ];
      }

  answer_of-write :
      (key value : Bytes) (deleted : Bool) (l : LsmTree) (j : Bytes)
      → IsGood l.mem
      → answer_of j (record l { mem = insert draws key value deleted l.mem })
        ≡ ite
            (bytes_discrete j key)
            (some (answer (record { value = value; deleted = deleted })))
            (answer_of j l)
  answer_of-write key value deleted l j g =
      let c : Cell = record { value = value; deleted = deleted } in
      let older = search_tables j l.tables in
      let (valid, answers, comes) = insert-Inserted draws key value deleted l.mem g.valid in
      rw (answers j) (elim (bytes_discrete j key) [
        | yes same ↦ rw (if_pos (bytes_discrete j key) same (answer c) (get j l.mem)) (
            newest_first-answer c older
            ∙ sym (if_pos (bytes_discrete j key) same (some (answer c)) (answer_of j l)))
        | no other ↦
            rw (if_neg (bytes_discrete j key) other (answer c) (get j l.mem))
              (sym (if_neg (bytes_discrete j key) other (some (answer c)) (answer_of j l)))
      ])

  -- One step: no error, and what it does to the answer for a key.
  record Steps (key : Bytes) (op : Operation) (l : LsmTree) (r : LsmTree × Bool) : Type 0 where
    no_error : r.1 ≡ true
    good : IsGood r.0.mem
    next :
        (a : Answer)
        → answer_of key l ≡ some a
        → (b : Answer) × (answer_of key r.0 ≡ some b)
          × (value_found b ≡ last_value key (op ∷ []) (value_found a))

  write-Steps :
      (key k w : Bytes) (deleted : Bool) (op : Operation) (l : LsmTree)
      → IsGood l.mem
      → length k + length w < 2 ^ 32
      → ((v : Option Bytes)
          → ite
              (bytes_discrete key k)
              (value_found (answer (record { value = w; deleted = deleted })))
              v
            ≡ last_value key (op ∷ []) v)
      → Steps key op l (maybe_flush (record l { mem = insert draws k w deleted l.mem }))
  write-Steps key k w deleted op l g h means =
      let c : Cell = record { value = w; deleted = deleted } in
      let written : LsmTree = record l { mem = insert draws k w deleted l.mem } in
      let kept = maybe_flush-Keeps written (insert-IsGood k w deleted l.mem g h) in
      record {
        no_error = kept.no_error;
        good = kept.good;
        next = λ a e. (
          ite (bytes_discrete key k) (answer c) a,
          kept.answers key
              ∙ answer_of-write k w deleted l key g
              ∙ rw e (ite-some (bytes_discrete key k) (answer c) a),
          value_found-ite (bytes_discrete key k) (answer c) a ∙ means (value_found a),
        );
      }

  do_one-Steps :
      (key : Bytes) (op : Operation) (l : LsmTree)
      → IsGood l.mem
      → AllFit (op ∷ [])
      → Steps key op l (do_one op l)
  unfolding do_one tree_put tree_delete force_flush put delete last_value answer value_found
  do_one-Steps key (put_op k w) l g h = write-Steps key k w false (put_op k w) l g h.0 (λ v. refl)
  do_one-Steps key (delete_op k) l g h =
      write-Steps key k [] true (delete_op k) l g (omega (arith, h.0)) (λ v. refl)
  do_one-Steps key flush_op l g h =
      let kept = flush_locked-Keeps l g in
      record {
        no_error = kept.no_error;
        good = kept.good;
        next = λ a e. (a, kept.answers key ∙ e, refl);
      }

  do_all-Steps :
      (key : Bytes) (ops : List Operation) (l : LsmTree) (a : Answer)
      → IsGood l.mem
      → AllFit ops
      → answer_of key l ≡ some a
      → ((do_all ops l).1 ≡ true)
        × ((b : Answer) × (answer_of key (do_all ops l).0 ≡ some b)
            × (value_found b ≡ last_value key ops (value_found a)))
  unfolding do_all last_value value_found
  do_all-Steps key [] l a g h e = (refl, (a, e, refl))
  do_all-Steps key (op ∷ ops) l a g h e =
      let fits = AllFit-split op ops h in
      let s = do_one-Steps key op l g fits.0 in
      let (b, e', step) = s.next a e in
      let (ok, rest) = do_all-Steps key ops (do_one op l).0 b s.good fits.1 e' in
      let (c, e'', later) = rest in
      (
        rw (s.no_error, ok) refl,
        (
          c,
          e'',
          later ∙ ap (last_value key ops) step ∙ sym (last_value-cons key op ops (value_found a)),
        ),
      )

  -- Whatever levels the skip lists draw and wherever the flushes fall: after any puts, deletes and
  -- flushes on a new tree no operation has returned an error, and `Get` returns the value of the last
  -- put of the key, or not found if there was none or a delete came after it, as long as every key
  -- and its value have lengths that fit a uint32 together.
  pub tree_get-do_all :
      (flush_bytes : ℤ) (ops : List Operation) (key : Bytes)
      → AllFit ops
      → let (l, ok) = do_all ops (new_lsm_tree flush_bytes) in
        (ok ≡ true) × (tree_get key l ≡ some (last_value key ops none))
  unfolding tree_get
  tree_get-do_all flush_bytes ops key h =
      let start = answer_of-new flush_bytes key in
      let (ok, rest) =
        do_all-Steps key ops (new_lsm_tree flush_bytes) absent (new_lsm_tree-IsGood flush_bytes) h
          start in
      let (b, e, found_it) = rest in (ok, rw e (ap some found_it))
