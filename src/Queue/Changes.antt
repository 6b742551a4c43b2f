-- ===== src/Queue/Changes.antt =====
-- What the transactions of a claimant leave of the identity of a row.
use extra_codeowners.Prelude.{
  ℕ, max, min, Bool, ◌&&◌, list_eq, nat_eq, Option, none, some, Result, ok, err, ◌>>=◌, ◌≡◌, refl,
  Bool-cases, Result-cases, inl, inr,
}
use extra_codeowners.Text.{Str, Unicode}
use extra_codeowners.Models.Normalize.{ValueError}
use extra_codeowners.Epochs.{Epoch, advance_epoch}
use extra_codeowners.Webhooks.{JobRequest}
use extra_codeowners.Queue.{EvaluationJob, ClaimedJob, is_claim_of}
use extra_codeowners.Queue.Claims.{renew_claim}
use extra_codeowners.Queue.Release.{
  complete_job, fail_job, defer_job, release_claim, revoke, without_lease, retried, deferred,
  revocation_of, deferred_revocation,
}
use extra_codeowners.Queue.Context.{
  bind_head, bind_to, bind_row, observe_base, has_no_head, ends_after,
}
use extra_codeowners.Queue.Transactions.{Transaction, committed, commit}

pub record IsSameRow (r s : EvaluationJob) : Type 0 where
  pub id : s.id ≡ r.id
  pub generation : s.generation ≡ r.generation
  pub work_class : s.work_class ≡ r.work_class

-- the row is gone, or still the same
unfoldable pub IsKept : EvaluationJob → Option EvaluationJob → Type 0
IsKept r none = Unit
IsKept r (some s) = IsSameRow r s

same_row : (r : EvaluationJob) → IsSameRow r r
same_row r = record { id = refl; generation = refl; work_class = refl }

pub renew_claim-IsKept :
    (now : ℕ) (job : ClaimedJob) (n : ℕ) (r : EvaluationJob)
    → IsKept r (renew_claim now job n (some r)).0
unfolding renew_claim IsKept
renew_claim-IsKept now job n r = elim (Bool-cases (is_claim_of job job.lease_owner r)) [
  | inl h ↦ rw h (record { id = refl; generation = refl; work_class = refl })
  | inr h ↦ rw h (same_row r)
]

pub complete_job-IsKept :
    (now : ℕ) (job : ClaimedJob) (owner : Str) (r : EvaluationJob)
    → IsKept r (complete_job now job owner (some r) none).row
unfolding complete_job IsKept
complete_job-IsKept now job owner r = elim (Bool-cases (is_claim_of job owner r)) [
  | inl h ↦ rw h tt
  | inr h ↦ rw h (same_row r)
]

revoke-IsKept :
    (now : ℕ) (f : Bool) (o : Option JobRequest) (r s : EvaluationJob) (epoch : Option Epoch)
    → IsSameRow r s
    → IsKept r (revoke now f o s epoch).row
unfolding revoke IsKept
revoke-IsKept now f none r s epoch same = same
revoke-IsKept now f (some request) r s epoch same = record {
  id = same.id;
  generation = same.generation;
  work_class = same.work_class;
}

release_claim-IsKept :
    (now : ℕ) (f : Bool) (job : ClaimedJob) (owner : Str) (o : Option JobRequest)
    (values : EvaluationJob → EvaluationJob) (r : EvaluationJob) (epoch : Option Epoch)
    → IsSameRow r (values r)
    → IsKept r (release_claim now f job owner o values (some r) epoch).row
unfolding release_claim IsKept
release_claim-IsKept now f job owner o values r epoch same =
    elim (Bool-cases (is_claim_of job owner r)) [
      | inl h ↦ rw h (revoke-IsKept now f o r (values r) epoch same)
      | inr h ↦ rw h (same_row r)
    ]

pub fail_job-IsKept :
    (u : Unicode) (now : ℕ) (f : Bool) (job : ClaimedJob) (owner : Str) (delay : ℕ)
    (r : EvaluationJob) (epoch : Option Epoch)
    → IsKept r (commit (Transaction.failing u now f job owner delay epoch) (some r))
unfolding commit fail_job committed IsKept
fail_job-IsKept u now f job owner delay r epoch =
    elim (Result-cases (revocation_of u job job.head_sha_hint)) [
      | inl (o, h) ↦ rw h (
          release_claim-IsKept now f job owner o (retried _) r epoch (
            unfold retried without_lease in
            record { id = refl; generation = refl; work_class = refl }))
      | inr (e, h) ↦ rw h (same_row r)
    ]

pub defer_job-IsKept :
    (u : Unicode) (now : ℕ) (f : Bool) (job : ClaimedJob) (owner : Str) (delay : ℕ)
    (limit : Option ℕ) (r : EvaluationJob) (epoch : Option Epoch)
    → IsKept r (commit (Transaction.deferring u now f job owner delay limit epoch) (some r))
unfolding commit defer_job committed IsKept
defer_job-IsKept u now f job owner delay limit r epoch =
    elim (Result-cases (deferred_revocation u now job (max 1 (min delay 86400)) limit)) [
      | inl (o, h) ↦ rw h (
          release_claim-IsKept now f job owner o (deferred _) r epoch (
            unfold deferred retried without_lease in
            record { id = refl; generation = refl; work_class = refl }))
      | inr (e, h) ↦ rw h (same_row r)
    ]

bind_row-IsKept :
    (job : ClaimedJob) (head : Str) (advanced : Epoch) (r : EvaluationJob) (epoch : Option Epoch)
    → IsKept r (bind_row job head advanced (some r) epoch).row
unfolding bind_row IsKept
bind_row-IsKept job head advanced r epoch =
    elim (Bool-cases (is_claim_of job job.lease_owner r && has_no_head r)) [
      | inl h ↦ rw h (record { id = refl; generation = refl; work_class = refl })
      | inr h ↦ rw h (same_row r)
    ]

bind_to-IsKept :
    (u : Unicode) (now : ℕ) (f : Bool) (job : ClaimedJob) (head : Str) (hint : Option Str)
    (r : EvaluationJob) (epoch : Option Epoch)
    → IsKept r (committed (λ b. b.row) (some r) (bind_to u now f job head hint (some r) epoch))
unfolding bind_to committed
bind_to-IsKept u now f job head (some hint) r epoch = unfold IsKept in same_row r
bind_to-IsKept u now f job head none r epoch = of_request _
  where
    of_request :
        (x : Result ValueError JobRequest)
        → IsKept r (
            committed
              (λ b. b.row)
              (some r)
              (x >>= (λ q.
                ok (bind_row job head (advance_epoch now f q.work_class epoch) (some r) epoch))))
    of_request (ok q) = bind_row-IsKept job head (advance_epoch now f q.work_class epoch) r epoch
    of_request (err e) = unfold IsKept in same_row r

pub bind_head-IsKept :
    (u : Unicode) (now : ℕ) (f : Bool) (job : ClaimedJob) (head : Str) (r : EvaluationJob)
    (epoch : Option Epoch)
    → IsKept r (commit (Transaction.binding u now f job head epoch) (some r))
unfolding commit bind_head
bind_head-IsKept u now f job head r epoch = of_head _
  where
    of_head :
        (x : Result ValueError Str)
        → IsKept r (
            committed
              (λ b. b.row)
              (some r)
              (x >>= (λ h. bind_to u now f job h job.head_sha_hint (some r) epoch)))
    of_head (ok h) = bind_to-IsKept u now f job h job.head_sha_hint r epoch
    of_head (err e) = unfold IsKept committed in same_row r

pub observe_base-IsKept :
    (now : ℕ) (job : ClaimedJob) (base : Str) (r : EvaluationJob)
    → IsKept r (observe_base now job base (some r)).0
unfolding observe_base IsKept
observe_base-IsKept now job base r =
    elim (Bool-cases (is_claim_of job job.lease_owner r && ends_after now r.lease_until)) [
      | inl h ↦ rw h (record { id = refl; generation = refl; work_class = refl })
      | inr h ↦ rw h (same_row r)
    ]
