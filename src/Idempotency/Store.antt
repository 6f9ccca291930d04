-- ===== src/Idempotency/Store.antt =====
-- code/idempotency_keys/idempotency.go: the store of records and its methods.
-- `Execute` holds the mutex in phases 1 and 3 and runs the handler in between without it, so `claim`
-- and `finish` are its two atomic steps and `execute` is the call that nothing interrupts. Clock
-- readings are arguments, in nanoseconds. SHA-256 is the parameter `hash` of `execute`.
use Prim.Native.String.{String}
use mathlib.Core.Logic.{ite}
use system_design_handbook.Base.{
  ℕ, ◌+◌, Bool, true, false, ◌&&◌, Option, none, some, List, [], ◌∷◌, length, if◌then◌else◌,
}
use system_design_handbook.Base.Dict.{string_discrete, find, insert, erase}
use system_design_handbook.Int.{ℤ, pos, ◌-ℤ◌, ltb_ℤ}

pub data Status : Type 0 where
  in_progress completed failed : Status

pub record Record : Type 0 where
  pub key : String
  pub fingerprint : String
  pub status : Status
  pub response : String
  pub status_code : ℕ
  pub created_at : ℤ
  pub completed_at : Option ℤ

-- `handler_error` stands for whatever error the handler returned.
pub data Error : Type 0 where
  conflict fingerprint_mismatch key_required record_vanished handler_error : Error

pub record Result : Type 0 where
  pub response : String
  pub status_code : ℕ
  pub replayed : Bool

pub record Store : Type 0 where
  pub records : List (String × Record)
  pub ttl : ℤ

unfoldable pub new_store : ℤ → Store
new_store ttl = record { records = []; ttl = ttl }

abbrev pub record_of : Store → String → Option Record
record_of s key = find string_discrete key s.records

unfoldable pub expired : Store → ℤ → Record → Bool
expired s now r = ltb_ℤ (pos 0) s.ttl && ltb_ℤ s.ttl (now -ℤ r.created_at)

-- What phase 1 decides.
pub data Claim : Type 0 where
  run : Claim
  refuse : Error → Claim
  replay : Result → Claim

-- `existing`, with an expired record deleted.
unfoldable pub drop_expired : Store → ℤ → String → Store
drop_expired s now key = elim (record_of s key) [
  | none ↦ s
  | some r ↦
      if expired s now r then record s { records = erase string_discrete key s.records } else s
]

-- The `switch` on a record with the request's own fingerprint.
unfoldable pub claim_existing : Store → ℤ → String → Record → Status → Store × Claim
claim_existing s created key r in_progress = (s, refuse conflict)
claim_existing s created key r completed =
    (s, replay (record { response = r.response; status_code = r.status_code; replayed = true }))
claim_existing s created key r failed = (
  record s {
    records =
        insert string_discrete key (record r { status = in_progress; created_at = created })
          s.records;
  },
  run,
)

abbrev pub new_record : ℤ → String → String → Record
new_record created key fp = record {
  key = key;
  fingerprint = fp;
  status = in_progress;
  response = "";
  status_code = 0;
  created_at = created;
  completed_at = none;
}

unfoldable pub claim_new : Store → ℤ → String → String → Store × Claim
claim_new s created key fp =
    (record s { records = insert string_discrete key (new_record created key fp) s.records }, run)

unfoldable pub settle_claim : Store → ℤ → String → String → Option Record → Store × Claim
unfolding claim_existing claim_new
settle_claim s created key fp none = claim_new s created key fp
settle_claim s created key fp (some r) =
    ite (string_discrete r.fingerprint fp) (claim_existing s created key r r.status)
      (s, refuse fingerprint_mismatch)

-- Phase 1, under the lock: `now` is the reading for the expiry, `created` the one for `CreatedAt`.
unfoldable pub claim : ℤ → ℤ → String → String → Store → Store × Claim
unfolding settle_claim drop_expired
claim now created key fp s =
    let s' = drop_expired s now key in settle_claim s' created key fp (record_of s' key)

-- What the handler returned.
pub data Handled : Type 0 where
  succeeded : String → ℕ → Handled
  handler_failed : Handled

-- What `Execute` returns.
pub data Reply : Type 0 where
  reply : Result → Reply
  error : Error → Reply

abbrev pub outcome_record : ℤ → Record → Handled → Record
outcome_record now r handler_failed = record r { status = failed }
outcome_record now r (succeeded response code) = record r {
  status = completed;
  response = response;
  status_code = code;
  completed_at = some now;
}

outcome_reply : Handled → Reply
outcome_reply handler_failed = error handler_error
outcome_reply (succeeded response code) =
    reply (record { response = response; status_code = code; replayed = false })

unfoldable pub record_outcome : Store → ℤ → String → Record → Handled → Store × Reply
unfolding outcome_reply
record_outcome s now key r h = (
  record s { records = insert string_discrete key (outcome_record now r h) s.records },
  outcome_reply h,
)

unfoldable pub settle_finish : Store → ℤ → String → Handled → Option Record → Store × Reply
unfolding record_outcome
settle_finish s now key h none = (s, error record_vanished)
settle_finish s now key h (some r) = record_outcome s now key r h

-- Phase 3, under the lock.
unfoldable pub finish : ℤ → String → Handled → Store → Store × Reply
unfolding settle_finish
finish now key h s = settle_finish s now key h (record_of s key)

after_claim : ℤ → String → Handled → Store × Claim → Store × Reply × ℕ
after_claim done key h (s, run) = let (s', r) = finish done key h s in (s', r, 1)
after_claim done key h (s, refuse e) = (s, error e, 0)
after_claim done key h (s, replay r) = (s, reply r, 0)

-- A whole `Execute`: the store, the reply, and how often the handler ran.
unfoldable pub execute :
    (String → String) → ℤ → ℤ → ℤ → String → String → Handled → Store → Store × Reply × ℕ
unfolding after_claim
execute hash now created done key body h s =
    ite (string_discrete key "") (s, error key_required, 0)
      (after_claim done key h (claim now created key (hash body) s))

-- `Get`
unfoldable pub get : ℤ → String → Store → Option Record
get now key s = elim (record_of s key) [
  | none ↦ none
  | some r ↦ if expired s now r then none else some r
]

-- the loop of `Purge`, which reads the clock for each record: `clock k` at the one of the key k
unfoldable pub purge_records :
    Store → (String → ℤ) → List (String × Record) → List (String × Record) × ℕ
purge_records s clock [] = ([], 0)
purge_records s clock ((k, r) ∷ m) =
    let (kept, removed) = purge_records s clock m in
    if expired s (clock k) r then (kept, removed + 1) else ((k, r) ∷ kept, removed)

unfoldable pub purge : (String → ℤ) → Store → Store × ℕ
unfolding purge_records
purge clock s =
    let (kept, removed) = purge_records s clock s.records in (record s { records = kept }, removed)

-- `Len`
unfoldable pub len : Store → ℕ
len s = length s.records

-- `HTTPStatus`, of an optional error.
unfoldable pub http_status : Option Error → ℕ
http_status none = 200
http_status (some key_required) = 400
http_status (some conflict) = 409
http_status (some fingerprint_mismatch) = 422
http_status (some _) = 500
