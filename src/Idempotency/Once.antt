-- ===== src/Idempotency/Once.antt =====
-- code/idempotency_keys/idempotency.go: within one TTL a key's handler runs in at most one place, and
-- succeeds at most once.
use Prim.Native.String.{String}
use system_design_handbook.Base.{
  ℕ, ◌+◌, ◌≤◌, ◌≡◌, refl, inl, inr, false, Option, Option-cases, none, some, List, [], ◌∷◌, arith,
}
use system_design_handbook.Base.Dict.{string_discrete, find, find-insert}
use system_design_handbook.Int.{ℤ, ◌+ℤ◌, ◌-ℤ◌, ◌≤ℤ◌}
use system_design_handbook.Idempotency.Store.{
  Status, in_progress, completed, failed, Record, Store, Handled, new_store, claim, finish, purge,
  purge_records, expired, drop_expired, settle_claim, new_record, outcome_record, record_of,
}
use system_design_handbook.Idempotency.System.{
  System, Event, begin_run, end_run, arrive, return_from, clean, step, run_events, start, InWindow,
  EventInWindow, AllInWindow,
}

-- How many handlers of a key run and have succeeded, by its record.
StatusCounts : Status → ℕ → ℕ → Type 0
StatusCounts in_progress running successes = (running ≡ 1) × (successes ≡ 0)
StatusCounts completed running successes = (running ≡ 0) × (successes ≡ 1)
StatusCounts failed running successes = (running ≡ 0) × (successes ≡ 0)

Counts : ℤ → Option Record → ℕ → ℕ → Type 0
unfolding StatusCounts
Counts lo none running successes = (running ≡ 0) × (successes ≡ 0)
Counts lo (some r) running successes =
    (lo ≤ℤ r.created_at) × StatusCounts r.status running successes

not_expired :
    (lo t : ℤ) (s : Store) (r : Record)
    → InWindow lo s.ttl t
    → lo ≤ℤ r.created_at
    → expired s t r ≡ false
unfolding expired ◌-ℤ◌ ◌+ℤ◌
not_expired lo t s r w le = ground arith

at_most_one : (lo : ℤ) (o : Option Record) (n m : ℕ) → Counts lo o n m → n + m ≤ 1
unfolding Counts
at_most_one lo none n m h = omega arith
at_most_one lo (some r) n m h = ground arith

record Inv (lo ttl : ℤ) (sys : System) : Type 0 where
  same_ttl : sys.store.ttl ≡ ttl
  counts : (k : String) → Counts lo (record_of sys.store k) (sys.running k) (sys.successes k)

drop_expired-fresh :
    (s : Store) (now : ℤ) (key : String)
    → ((r : Record) → record_of s key ≡ some r → expired s now r ≡ false)
    → drop_expired s now key ≡ s
unfolding drop_expired
drop_expired-fresh s now key fresh = elim (Option-cases (record_of s key)) [
  | inl e ↦ ground arith
  | inr (r, e) ↦ ground (arith, fresh r e)
]

claim_fresh :
    (s : Store) (now created : ℤ) (key fp : String)
    → ((r : Record) → record_of s key ≡ some r → expired s now r ≡ false)
    → claim now created key fp s ≡ settle_claim s created key fp (record_of s key)
unfolding claim
claim_fresh s now created key fp fresh = rw (drop_expired-fresh s now key fresh)

module _ (lo ttl : ℤ) (sys : System) (h : Inv lo ttl sys) where
  old_enough :
      (t : ℤ) (k : String)
      → InWindow lo ttl t
      → (r : Record) → record_of sys.store k ≡ some r
      → expired sys.store t r ≡ false
  unfolding Counts
  old_enough t k w r e = not_expired lo t sys.store r (rw h.same_ttl w) ((rw e at (h.counts k)).0)

  module _ (created : ℤ) (key fp : String) (w : lo ≤ℤ created) where
    abbrev settled : Option Record → System
    settled o = begin_run key sys (settle_claim sys.store created key fp o)

    settled-ttl : (o : Option Record) → (settled o).store.ttl ≡ ttl
    unfolding begin_run settle_claim
    settled-ttl none = h.same_ttl
    settled-ttl (some r) = ground (arith, h.same_ttl)

    settled-Counts :
        (o : Option Record)
        → record_of sys.store key ≡ o
        → (k : String)
        → Counts lo
            (record_of (settled o).store k)
            ((settled o).running k)
            ((settled o).successes k)
    unfolding begin_run settle_claim Counts
    settled-Counts none e k = ground (
      arith,
      find-insert string_discrete key k (new_record created key fp) sys.store.records,
      h.counts k,
      h.counts key,
    )
    settled-Counts (some r) e k = ground (
      arith,
      find-insert string_discrete key k (record r { status = in_progress; created_at = created })
          sys.store.records,
      h.counts k,
      h.counts key,
    )

  module _ (now : ℤ) (key : String) (handled : Handled) where
    ended-Counts :
        (o : Option Record)
        → record_of sys.store key ≡ o
        → (k : String)
        → Counts lo
            (record_of (end_run now key handled sys).store k)
            ((end_run now key handled sys).running k)
            ((end_run now key handled sys).successes k)
    unfolding end_run finish Counts
    ended-Counts none e k = ground (arith, h.counts k, h.counts key)
    ended-Counts (some r) e k = ground (
      arith,
      find-insert string_discrete key k (outcome_record now r handled) sys.store.records,
      h.counts k,
      h.counts key,
    )

    ended-ttl : (end_run now key handled sys).store.ttl ≡ ttl
    unfolding end_run finish
    ended-ttl = ground (arith, h.same_ttl)

find-purge :
    (s : Store) (clock : String → ℤ) (k : String) (m : List (String × Record))
    → ((r : Record) → find string_discrete k m ≡ some r → expired s (clock k) r ≡ false)
    → find string_discrete k (purge_records s clock m).0 ≡ find string_discrete k m
unfolding find purge_records
find-purge s clock k [] fresh = refl
find-purge s clock k ((j, r) ∷ m) fresh = elim (string_discrete j k) [
  | yes p ↦ ground (arith, fresh r)
  | no p ↦
      let rest : (q : Record) → find string_discrete k m ≡ some q → expired s (clock k) q ≡ false =
        λ q e. fresh q (ground arith) in
      ground (arith, find-purge s clock k m rest)
]

module _ (lo ttl : ℤ) where
  step-Inv :
      (e : Event) (sys : System) → EventInWindow lo ttl e → Inv lo ttl sys → Inv lo ttl (step e sys)
  unfolding step purge
  step-Inv (arrive now created key fp) sys w h =
      let s = sys.store in
      let same = claim_fresh s now created key fp (old_enough lo ttl sys h now key w.0) in
      rw same (record {
        same_ttl = settled-ttl lo ttl sys h created key fp w.1.0 (record_of s key);
        counts = settled-Counts lo ttl sys h created key fp w.1.0 (record_of s key) refl;
      })
  step-Inv (return_from now key handled) sys w h = record {
    same_ttl = ended-ttl lo ttl sys h now key handled;
    counts = ended-Counts lo ttl sys h now key handled (record_of sys.store key) refl;
  }
  step-Inv (clean clock) sys w h = record {
    same_ttl = h.same_ttl;
    counts = λ k.
        rw
          (find-purge sys.store clock k sys.store.records
            (old_enough lo ttl sys h (clock k) k (w k)))
          (h.counts k);
  }

  run_events-Inv :
      (es : List Event) (sys : System)
      → AllInWindow lo ttl es
      → Inv lo ttl sys
      → Inv lo ttl (run_events es sys)
  unfolding run_events
  run_events-Inv [] sys w h = h
  run_events-Inv (e ∷ es) sys w h = run_events-Inv es (step e sys) w.1 (step-Inv e sys w.0 h)

  start-Inv : Inv lo ttl (start ttl)
  unfolding start new_store find Counts
  start-Inv = record { same_ttl = refl; counts = λ k. (refl, refl) }

-- Exactly-once work under retries: however the two phases of concurrent calls, the returns of their
-- handlers and purges interleave, as long as every clock reading lies within one TTL (or records
-- never expire), the handlers that run for a key and those that have succeeded for it are together
-- at most one. So no key is ever executed twice at once, nor again after a success.
pub runs_once :
    (lo ttl : ℤ) (es : List Event) (k : String)
    → AllInWindow lo ttl es
    → (run_events es (start ttl)).running k + (run_events es (start ttl)).successes k ≤ 1
unfolding Counts
runs_once lo ttl es k w =
    let sys = run_events es (start ttl) in
    let h = (run_events-Inv lo ttl es (start ttl) w (start-Inv lo ttl)).counts k in
    at_most_one lo (record_of sys.store k) (sys.running k) (sys.successes k) h
