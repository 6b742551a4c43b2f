-- ===== src/Queue/Release.antt =====
-- complete, fail and defer of database.py, on one row.
use extra_codeowners.Prelude.{
  ℕ, ◌+◌, ◌-◌, ◌*◌, max, min, Bool, true, false, not, ltb, ◌==◌, nat_eq, list_eq, if◌then◌else◌,
  Option, none, some, Result, ok, ◌>>=◌,
}
use extra_codeowners.Text.{Str, Unicode}
use extra_codeowners.Budget.{second}
use extra_codeowners.Models.Normalize.{ValueError}
use extra_codeowners.Epochs.{Epoch, advance_epoch, power_of_two}
use extra_codeowners.Webhooks.{JobRequest}
use extra_codeowners.Webhooks.Requests.{
  new_job_request, scheduled_recheck_reason, periodic_reconciliation_reason,
}
use extra_codeowners.Queue.{EvaluationJob, ClaimedJob, is_claim_of}

-- ReconciliationState, without its key
pub record ReconciliationState : Type 0 where
  pub head_sha : Str
  pub completed_at : ℕ
  pub confirmed_completed_at : Option ℕ
  pub observed_at : ℕ

unfoldable pub without_lease : EvaluationJob → EvaluationJob
without_lease row = record row { lease_owner = none; lease_until = none }

-- the UPDATE that follows one which changed nothing
unfoldable pub drop_lease : ClaimedJob → Str → EvaluationJob → EvaluationJob
unfolding is_claim_of without_lease
drop_lease job owner row = if is_claim_of job owner row then without_lease row else row

-- the observed head, where the completed row names one
unfoldable pub reconciled : ℕ → Option Str → Option ReconciliationState → Option ReconciliationState
reconciled now none state = state
reconciled now (some head) state = some (record {
  head_sha = head;
  completed_at = now;
  confirmed_completed_at = some now;
  observed_at = now;
})

-- What complete leaves: the row, the state of the pull request, and the answer.
pub record Completed : Type 0 where
  pub row : Option EvaluationJob
  pub state : Option ReconciliationState
  pub answer : Bool

unfoldable pub complete_job :
    ℕ → ClaimedJob → Str → Option EvaluationJob → Option ReconciliationState → Completed
unfolding is_claim_of drop_lease reconciled
complete_job now job owner none state = record { row = none; state = state; answer = false }
complete_job now job owner (some row) state =
    if is_claim_of job owner row
    then record { row = none; state = reconciled now row.head_sha_hint state; answer = true }
    else record { row = some (drop_lease job owner row); state = state; answer = false }

-- _scheduled_recheck_revocation: the constructor of the request may raise
unfoldable pub revocation_of :
    Unicode → ClaimedJob → Option Str → Result ValueError (Option JobRequest)
unfolding new_job_request
revocation_of u job none = ok none
revocation_of u job (some head) =
    if not (job.reason == scheduled_recheck_reason) then ok none else (do
      request ← new_job_request u (record {
        installation_id = job.installation_id;
        repository_full_name = job.repository_full_name;
        pull_number = job.pull_number;
        reason = periodic_reconciliation_reason;
        head_sha_hint = some head;
        work_class = job.work_class;
        observed_at = none;
        base_ref_hint = job.base_ref_hint;
      })
      ok (some request))

-- What a release leaves: the row, the epoch of the claim's head, and the answer.
pub record Released : Type 0 where
  pub row : Option EvaluationJob
  pub epoch : Option Epoch
  pub answer : Bool

-- the part of a release behind the UPDATE of the row; whether a foreground job waits for the head is
-- read from the table of jobs
unfoldable pub revoke : ℕ → Bool → Option JobRequest → EvaluationJob → Option Epoch → Released
unfolding advance_epoch
revoke now foreground none row epoch = record { row = some row; epoch = epoch; answer = true }
revoke now foreground (some request) row epoch =
    let advanced = advance_epoch now foreground request.work_class epoch in
    record {
      row =
          some
            (record row { reason = request.reason; shared_head_generation = advanced.generation });
      epoch = some advanced;
      answer = true;
    }

-- _release_claim_in_session, whose values are a function of the row
unfoldable pub release_claim :
    ℕ
    → Bool
    → ClaimedJob
    → Str
    → Option JobRequest
    → (EvaluationJob → EvaluationJob)
    → Option EvaluationJob
    → Option Epoch
    → Released
unfolding is_claim_of drop_lease revoke
release_claim now foreground job owner revocation values none epoch = record {
  row = none;
  epoch = epoch;
  answer = false;
}
release_claim now foreground job owner revocation values (some row) epoch =
    if is_claim_of job owner row
    then revoke now foreground revocation (values row) epoch
    else record { row = some (drop_lease job owner row); epoch = epoch; answer = false }

unfoldable pub retried : ℕ → EvaluationJob → EvaluationJob
unfolding without_lease
retried available_at row = record (without_lease row) { available_at = available_at }

unfoldable pub fail_job :
    Unicode
    → ℕ
    → Bool
    → ClaimedJob
    → Str
    → ℕ
    → Option EvaluationJob
    → Option Epoch
    → Result ValueError Released
unfolding power_of_two revocation_of release_claim retried
fail_job u now foreground job owner max_delay_seconds row epoch = do
  revocation ← revocation_of u job job.head_sha_hint
  let delay = max 1 (min max_delay_seconds (power_of_two (min job.attempts 30)))
  ok (release_claim now foreground job owner revocation (retried (now + delay * second)) row epoch)

-- the revocation of a deferral: the retry comes later than the limit after the request
unfoldable pub deferred_revocation :
    Unicode → ℕ → ClaimedJob → ℕ → Option ℕ → Result ValueError (Option JobRequest)
unfolding revocation_of
deferred_revocation u now job delay none = ok none
deferred_revocation u now job delay (some limit) =
    if ltb (job.requested_at + limit * second) (now + delay * second)
    then revocation_of u job job.head_sha_hint
    else ok none

unfoldable pub deferred : ℕ → EvaluationJob → EvaluationJob
unfolding retried
deferred available_at row = record (retried available_at row) { attempts = row.attempts - 1 }

unfoldable pub defer_job :
    Unicode
    → ℕ
    → Bool
    → ClaimedJob
    → Str
    → ℕ
    → Option ℕ
    → Option EvaluationJob
    → Option Epoch
    → Result ValueError Released
unfolding deferred_revocation release_claim deferred
defer_job u now foreground job owner delay_seconds limit row epoch = do
  let delay = max 1 (min delay_seconds 86400)
  revocation ← deferred_revocation u now job delay limit
  ok (release_claim now foreground job owner revocation (deferred (now + delay * second)) row epoch)
