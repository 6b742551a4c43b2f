-- ===== src/Queue/Context.antt =====
-- bind_claim_to_head and observe_evaluation_base of database.py, on one row.
use extra_codeowners.Prelude.{
  ℕ, Bool, true, false, ◌&&◌, ◌||◌, [], any, ltb, length, ◌==◌, nat_eq, list_eq, if◌then◌else◌,
  Option, none, some, Result, ok, ◌>>=◌,
}
use extra_codeowners.Text.{Str, Unicode}
use extra_codeowners.Models.Normalize.{ValueError}
use extra_codeowners.Epochs.{Epoch, advance_epoch}
use extra_codeowners.Webhooks.Requests.{new_job_request, is_control, validate_head_object}
use extra_codeowners.Queue.{EvaluationJob, ClaimedJob, is_claim_of}

-- What the binding of a head leaves: the row, the epoch of the head, and the answer.
pub record Bound : Type 0 where
  pub row : Option EvaluationJob
  pub epoch : Option Epoch
  pub answer : Option ClaimedJob

unfoldable pub has_no_head : EvaluationJob → Bool
has_no_head row = elim row.head_sha_hint [ none ↦ true | some head ↦ false ]

-- the UPDATE, which undoes the advance of the epoch where it finds no row
unfoldable pub bind_row : ClaimedJob → Str → Epoch → Option EvaluationJob → Option Epoch → Bound
unfolding is_claim_of has_no_head
bind_row job head advanced none epoch = record { row = none; epoch = epoch; answer = none }
bind_row job head advanced (some row) epoch =
    if is_claim_of job job.lease_owner row && has_no_head row
    then record {
      row =
          some (record row {
            head_sha_hint = some head;
            shared_head_generation = advanced.generation;
          });
      epoch = some advanced;
      answer =
          some (record job {
            head_sha_hint = some head;
            shared_head_generation = advanced.generation;
          });
    }
    else record { row = some row; epoch = epoch; answer = none }

unfoldable pub bind_to :
    Unicode
    → ℕ
    → Bool
    → ClaimedJob
    → Str
    → Option Str
    → Option EvaluationJob
    → Option Epoch
    → Result ValueError Bound
unfolding new_job_request advance_epoch bind_row
bind_to u now foreground job head (some hint) row epoch =
    ok (record { row = row; epoch = epoch; answer = if hint == head then some job else none })
bind_to u now foreground job head none row epoch = do
  request ← new_job_request u (record {
    installation_id = job.installation_id;
    repository_full_name = job.repository_full_name;
    pull_number = job.pull_number;
    reason = job.reason;
    head_sha_hint = some head;
    work_class = job.work_class;
    observed_at = none;
    base_ref_hint = none;
  })
  ok (bind_row job head (advance_epoch now foreground request.work_class epoch) row epoch)

-- bind_claim_to_head
unfoldable pub bind_head :
    Unicode
    → ℕ
    → Bool
    → ClaimedJob
    → Str
    → Option EvaluationJob
    → Option Epoch
    → Result ValueError Bound
unfolding validate_head_object bind_to
bind_head u now foreground job head_sha row epoch = do
  head ← validate_head_object head_sha
  bind_to u now foreground job head job.head_sha_hint row epoch

unfoldable pub base_hint : Str → Option Str
unfolding any is_control
base_hint base_ref =
    if base_ref == [] || ltb 255 (length base_ref) || any is_control base_ref
    then none
    else some base_ref

-- lease_until > now
unfoldable pub ends_after : ℕ → Option ℕ → Bool
ends_after now none = false
ends_after now (some until) = ltb now until

-- observe_evaluation_base, on the row alone
unfoldable pub observe_base :
    ℕ → ClaimedJob → Str → Option EvaluationJob → Option EvaluationJob × Bool
unfolding is_claim_of ends_after base_hint
observe_base now job base_ref none = (none, false)
observe_base now job base_ref (some row) =
    if is_claim_of job job.lease_owner row && ends_after now row.lease_until
    then (some (record row { base_ref_hint = base_hint base_ref }), true)
    else (some row, false)
