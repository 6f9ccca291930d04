-- ===== src/Idempotency/Replay.antt =====
-- code/idempotency_keys/idempotency.go: what a retry gets, and what expiry does to a running request.
use Prim.Native.String.{String}
use mathlib.Core.Logic.{ite}
use system_design_handbook.Base.{ℕ, ◌≡◌, refl, true, false, Option, none, some, arith, ◌∙◌}
use system_design_handbook.Base.Dict.{string_discrete, find-insert, find-erase}
use system_design_handbook.Int.{ℤ}
use system_design_handbook.Idempotency.Store.{
  in_progress, completed, Record, Store, fingerprint_mismatch, run, refuse, replay, succeeded,
  claim, finish, expired, drop_expired, settle_claim, new_record, outcome_record, record_of,
}

-- What the store holds for a key whose request was told to run.
Claimed : Store → Store → String → String → ℤ → Type 0
Claimed s s' key fp created =
    (r : Record) × (record_of s' key ≡ some r)
    × (r.fingerprint ≡ fp)
    × (r.created_at ≡ created)
    × (s'.ttl ≡ s.ttl)

settle_claim-Claimed :
    (s : Store) (created : ℤ) (key fp : String) (o : Option Record)
    → (settle_claim s created key fp o).1 ≡ run
    → Claimed s (settle_claim s created key fp o).0 key fp created
unfolding settle_claim Claimed
settle_claim-Claimed s created key fp none ran = (
  new_record created key fp,
  ground (arith, find-insert string_discrete key key (new_record created key fp) s.records),
  refl,
  refl,
  refl,
)
settle_claim-Claimed s created key fp (some r) ran =
    let r' = record r { status = in_progress; created_at = created } in
    (
      r',
      ground (arith, find-insert string_discrete key key r' s.records),
      ground arith,
      refl,
      ground arith,
    )

drop_expired-ttl : (s : Store) (now : ℤ) (key : String) → (drop_expired s now key).ttl ≡ s.ttl
unfolding drop_expired
drop_expired-ttl s now key = ground arith

claim-Claimed :
    (s : Store) (now created : ℤ) (key fp : String)
    → (claim now created key fp s).1 ≡ run
    → Claimed s (claim now created key fp s).0 key fp created
unfolding claim Claimed
claim-Claimed s now created key fp ran =
    let s' = drop_expired s now key in
    let (r, found, same, at, ttl) = settle_claim-Claimed s' created key fp (record_of s' key) ran in
    (r, found, same, at, ttl ∙ drop_expired-ttl s now key)

claim_completed :
    (s : Store) (later created : ℤ) (key fp : String) (r : Record)
    → record_of s key ≡ some r
    → r.status ≡ completed
    → expired s later r ≡ false
    → claim later created key fp s ≡ (
      s,
      ite
          (string_discrete r.fingerprint fp)
          (replay (record { response = r.response; status_code = r.status_code; replayed = true }))
          (refuse fingerprint_mismatch),
    )
unfolding claim drop_expired settle_claim
claim_completed s later created key fp r found done fresh = ground arith

finish-found :
    (s : Store) (now : ℤ) (key response : String) (code : ℕ) (r : Record)
    → record_of s key ≡ some r
    → let s' = (finish now key (succeeded response code) s).0 in
      (record_of s' key ≡ some (outcome_record now r (succeeded response code))) × (s'.ttl ≡ s.ttl)
unfolding finish
finish-found s now key response code r found = ground (
  arith,
  find-insert string_discrete key key (outcome_record now r (succeeded response code)) s.records,
)

expired-same :
    (s s' : Store) (t : ℤ) (r r' : Record)
    → s.ttl ≡ s'.ttl
    → r.created_at ≡ r'.created_at
    → expired s t r ≡ expired s' t r'
unfolding expired
expired-same s s' t r r' e f = rw (e, f)

-- A request that was told to run, and then succeeded, is replayed: as long as its record has not
-- expired, a later call with the same key changes nothing, and gets the stored response if its
-- body's fingerprint is the same, and the mismatch error if it is another.
pub success_replayed :
    (s : Store) (now created done later created' : ℤ) (key fp fp' response : String) (code : ℕ)
    → (claim now created key fp s).1 ≡ run
    → expired s later (new_record created key fp) ≡ false
    → let finished = (finish done key (succeeded response code) (claim now created key fp s).0).0 in
      claim later created' key fp' finished ≡ (
        finished,
        ite
            (string_discrete fp fp')
            (replay (record { response = response; status_code = code; replayed = true }))
            (refuse fingerprint_mismatch),
      )
unfolding Claimed
success_replayed s now created done later created' key fp fp' response code ran fresh =
    let claimed = (claim now created key fp s).0 in
    let finished = (finish done key (succeeded response code) claimed).0 in
    let (r, found, same, at, ttl) = claim-Claimed s now created key fp ran in
    let r' = outcome_record done r (succeeded response code) in
    let (found', ttl') = finish-found claimed done key response code r found in
    let fresh' =
      expired-same finished s later r' (new_record created key fp) (ttl' ∙ ttl) at ∙ fresh in
    rw same at (claim_completed finished later created' key fp' r' found' refl fresh')

-- The in-progress record guards a request only for one TTL: if its handler still runs when the record
-- has expired, a retry with any body is told to run the handler again.
pub expired_runs_again :
    (s : Store) (now created : ℤ) (key fp : String) (r : Record)
    → record_of s key ≡ some r
    → r.status ≡ in_progress
    → expired s now r ≡ true
    → (claim now created key fp s).1 ≡ run
unfolding claim drop_expired settle_claim
expired_runs_again s now created key fp r e p old =
    ground (arith, find-erase string_discrete key key s.records)
