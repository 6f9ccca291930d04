-- ===== src/Outbox/Pending.antt =====
-- code/outbox_pattern/outbox.go: the IDs of the outbox ascend, so `UnpublishedEvents` returns the
-- first pending events as they stand, and marking an event removes just that one.
use mathlib.Core.List.{append-nil}
use system_design_handbook.Base.{
  ℕ, zero, suc, ◌+◌, ◌≤◌, ◌<◌, ◌≡◌, refl, ap, false, Bool-cases, inl, inr, ◌&&◌, some, List, [],
  ◌∷◌, ◌++◌, length, take, ltb, ◌==◌, arith,
}
use Prim.Native.String.{String}
use system_design_handbook.Int.{ℤ}
use system_design_handbook.Outbox.Database.{
  OutboxEvent, Db, is_pending, pending, insert_by_id, sort_by_id, cut, at_id, mark_published,
  record_failure,
}

-- The IDs ascend from above `lo`.
abbrev pub Ascends : ℕ → List OutboxEvent → Type 0
Ascends lo [] = Unit
Ascends lo (e ∷ es) = (lo < e.id) × Ascends e.id es

-- The IDs ascend from 1 on, and the next one is above them all.
abbrev pub EndsBy : ℕ → List OutboxEvent → Type 0
EndsBy hi [] = Unit
EndsBy hi (e ∷ es) = (e.id ≤ hi) × EndsBy hi es

pub record IsValid (db : Db) : Type 0 where
  pub ascending : Ascends 0 db.outbox
  pub below_next : EndsBy db.next_id db.outbox

Ascends-lower : (lo lo' : ℕ) (es : List OutboxEvent) → lo' ≤ lo → Ascends lo es → Ascends lo' es
Ascends-lower lo lo' [] h a = tt
Ascends-lower lo lo' (e ∷ es) h a = (omega arith, a.1)

pub Ascends-pending : (lo : ℕ) (es : List OutboxEvent) → Ascends lo es → Ascends lo (pending es)
unfolding pending
Ascends-pending lo [] a = tt
Ascends-pending lo (e ∷ es) a = elim (Bool-cases (is_pending e)) [
  | inl p ↦ rw p (a.0, Ascends-pending e.id es a.1)
  | inr p ↦ rw p (Ascends-lower e.id lo (pending es) (omega arith) (Ascends-pending e.id es a.1))
]

insert_by_id-first :
    (e : OutboxEvent) (es : List OutboxEvent) → Ascends e.id es → insert_by_id e es ≡ e ∷ es
unfolding insert_by_id
insert_by_id-first e [] a = refl
insert_by_id-first e (x ∷ xs) a = ground arith

pub sort_by_id-ascending : (lo : ℕ) (es : List OutboxEvent) → Ascends lo es → sort_by_id es ≡ es
unfolding sort_by_id
sort_by_id-ascending lo [] a = refl
sort_by_id-ascending lo (e ∷ es) a =
    rw (sort_by_id-ascending e.id es a.1) (insert_by_id-first e es a.1)

take-rest : (n : ℕ) (es : List OutboxEvent) → (rest : List OutboxEvent) × (take n es ++ rest ≡ es)
take-rest zero es = (es, refl)
take-rest (suc n) [] = ([], refl)
take-rest (suc n) (e ∷ es) = let (rest, p) = take-rest n es in (rest, ap (◌∷◌ e) p)

pub cut-rest : (n : ℕ) (es : List OutboxEvent) → (rest : List OutboxEvent) × (cut n es ++ rest ≡ es)
unfolding cut
cut-rest n es = elim (Bool-cases (ltb 0 n && ltb n (length es))) [
  | inl p ↦ rw p (take-rest n es)
  | inr p ↦ rw p ([], append-nil es)
]

-- Changing a later event, or an event that is not there, leaves the pending ones.
at_id-above :
    (id lo : ℕ) (f : OutboxEvent → OutboxEvent) (es : List OutboxEvent)
    → id ≤ lo
    → Ascends lo es
    → at_id id f es ≡ es
unfolding at_id
at_id-above id lo f [] h a = refl
at_id-above id lo f (e ∷ es) h a = ground (arith, at_id-above id e.id f es)

pub Ascends-at_id :
    (id lo : ℕ) (f : OutboxEvent → OutboxEvent) (es : List OutboxEvent)
    → ((e : OutboxEvent) → (f e).id ≡ e.id)
    → Ascends lo es
    → Ascends lo (at_id id f es)
unfolding at_id
Ascends-at_id id lo f [] same a = tt
Ascends-at_id id lo f (e ∷ es) same a = elim (Bool-cases (e.id == id)) [
  | inl p ↦ rw p (rw (same e) a)
  | inr p ↦ rw p (a.0, Ascends-at_id id e.id f es same a.1)
]

abbrev pub marked : ℤ → OutboxEvent → OutboxEvent
marked now e = record e { published_at = some now }

marked-not_pending : (now : ℤ) (e : OutboxEvent) → is_pending (marked now e) ≡ false
unfolding is_pending
marked-not_pending now e = refl

-- The first pending event, once it is marked, is gone from the pending ones; the rest stay.
pub pending-mark :
    (lo : ℕ) (now : ℤ) (es : List OutboxEvent) (x : OutboxEvent) (xs : List OutboxEvent)
    → Ascends lo es
    → pending es ≡ x ∷ xs
    → pending (at_id x.id (marked now) es) ≡ xs
unfolding pending at_id
pending-mark lo now [] x xs a h = ground arith
pending-mark lo now (e ∷ es) x xs a h = elim (Bool-cases (is_pending e)) [
  | inl p ↦ ground (arith, marked-not_pending now e)
  | inr p ↦
      let later : Ascends e.id (x ∷ xs) = rw (rw p at h) at (Ascends-pending e.id es a.1) in
      ground (arith, later.0, pending-mark e.id now es x xs a.1)
]

abbrev pub ids : List OutboxEvent → List ℕ
ids [] = []
ids (e ∷ es) = e.id ∷ ids es

abbrev pub failed_with : String → OutboxEvent → OutboxEvent
failed_with message e = record e { attempts = e.attempts + 1; last_error = message }

-- A recorded failure leaves the same events pending.
pub pending-failure :
    (id : ℕ) (message : String) (es : List OutboxEvent)
    → ids (pending (at_id id (failed_with message) es)) ≡ ids (pending es)
unfolding pending at_id is_pending
pending-failure id message [] = refl
pending-failure id message (e ∷ es) = ground (arith, pending-failure id message es)

EndsBy-at_id :
    (id hi : ℕ) (f : OutboxEvent → OutboxEvent) (es : List OutboxEvent)
    → ((e : OutboxEvent) → (f e).id ≡ e.id)
    → EndsBy hi es
    → EndsBy hi (at_id id f es)
unfolding at_id
EndsBy-at_id id hi f [] same a = tt
EndsBy-at_id id hi f (e ∷ es) same a = elim (Bool-cases (e.id == id)) [
  | inl p ↦ rw p (rw (same e) a.0, a.1)
  | inr p ↦ rw p (a.0, EndsBy-at_id id hi f es same a.1)
]

pub mark_published-IsValid :
    (now : ℤ) (id : ℕ) (db : Db) → IsValid db → IsValid (mark_published now id db)
unfolding mark_published
mark_published-IsValid now id db v = record {
  ascending = Ascends-at_id id 0 (marked now) db.outbox (λ e. refl) v.ascending;
  below_next = EndsBy-at_id id db.next_id (marked now) db.outbox (λ e. refl) v.below_next;
}

pub record_failure-IsValid :
    (id : ℕ) (message : String) (db : Db) → IsValid db → IsValid (record_failure id message db)
unfolding record_failure
record_failure-IsValid id message db v = record {
  ascending = Ascends-at_id id 0 (failed_with message) db.outbox (λ e. refl) v.ascending;
  below_next = EndsBy-at_id id db.next_id (failed_with message) db.outbox (λ e. refl) v.below_next;
}
