-- ===== src/Queue/Revoked.antt =====
-- A scheduled recheck that fails or is put off for long: the published check is blocked first.
use extra_codeowners.Prelude.{
  ℕ, ◌+◌, ◌*◌, ◌<◌, max, min, Bool, true, false, ltb, list_eq, nat_eq, Option, none, some, ok, ◌≡◌,
  list_beq_iff, refl, arith, ◌==◌, Bool-cases, inl, inr,
}
use extra_codeowners.Text.{Str, Unicode}
use extra_codeowners.Budget.{second}
use extra_codeowners.Epochs.{Epoch, advance_epoch, is_publishable, generation_of}
use extra_codeowners.Epochs.Fencing.{IsSound}
use extra_codeowners.Webhooks.{JobRequest}
use extra_codeowners.Webhooks.Requests.{
  normalize_repository_full_name, validate_base_ref_hint, new_job_request, scheduled_recheck_reason,
  periodic_reconciliation_reason,
}
use extra_codeowners.Queue.{EvaluationJob, ClaimedJob, is_claim_of}
use extra_codeowners.Queue.Release.{
  Released, revocation_of, deferred_revocation, release_claim, revoke, retried, deferred,
  without_lease, fail_job, defer_job,
}

-- The row is free again for a revoke-first evaluation, bound to a new generation of its head whose
-- reset is not done.
pub record IsRevoked (row : EvaluationJob) (epoch : Option Epoch) (released : Released)
    : Type 0 where
  pub again : EvaluationJob
  pub advanced : Epoch
  pub rewritten : released.row ≡ some again
  pub advances : released.epoch ≡ some advanced
  pub answered : released.answer ≡ true
  pub free : (again.lease_owner ≡ none) × (again.lease_until ≡ none)
  pub same : (again.id ≡ row.id) × (again.generation ≡ row.generation)
  pub reason : again.reason ≡ periodic_reconciliation_reason
  pub next_generation : advanced.generation ≡ generation_of epoch + 1
  pub bound : again.shared_head_generation ≡ advanced.generation
  pub unpublished : is_publishable again.shared_head_generation (some advanced) ≡ false

revocation_of-reason :
    (u : Unicode) (job : ClaimedJob) (head : Option Str) (request : JobRequest)
    → revocation_of u job head ≡ ok (some request)
    → request.reason ≡ periodic_reconciliation_reason
unfolding revocation_of new_job_request
revocation_of-reason u job none request h = ground arith
revocation_of-reason u job (some head) request h =
    elim (Bool-cases (job.reason == scheduled_recheck_reason)) [
      | inr other ↦ absurd (ground (arith, other))
      | inl same ↦ ground (arith, same)
    ]

-- The job is a scheduled recheck of a head, with a repository and a base that a request may have.
pub record IsRecheck (u : Unicode) (job : ClaimedJob) : Type 0 where
  pub reason : job.reason ≡ scheduled_recheck_reason
  pub head : (head : Str) × (job.head_sha_hint ≡ some head)
  pub repository :
      (name : Str) × (normalize_repository_full_name u job.repository_full_name ≡ ok name)
  pub base : (base : Option Str) × (validate_base_ref_hint job.base_ref_hint ≡ ok base)

IsRecheck-revocation_of :
    (u : Unicode) (job : ClaimedJob)
    → IsRecheck u job
    → (request : JobRequest) × (revocation_of u job job.head_sha_hint ≡ ok (some request))
unfolding revocation_of new_job_request
IsRecheck-revocation_of u job r =
    let (head, h) = r.head in
    let (name, n) = r.repository in
    let (base, b) = r.base in
    let same : (job.reason == scheduled_recheck_reason) ≡ true =
      (list_beq_iff job.reason scheduled_recheck_reason).1 r.reason in
    rw h (rw same (rw n (rw b (_, refl))))

next-generation_of :
    (now : ℕ) (f : Bool) (request : JobRequest) (epoch : Option Epoch)
    → (advance_epoch now f request.work_class epoch).generation ≡ generation_of epoch + 1
unfolding advance_epoch generation_of
next-generation_of now f request none = refl
next-generation_of now f request (some e) = refl

unpublishable :
    (now : ℕ) (f : Bool) (request : JobRequest) (epoch : Option Epoch)
    → IsSound epoch
    → let advanced = advance_epoch now f request.work_class epoch in
      is_publishable advanced.generation (some advanced) ≡ false
unfolding advance_epoch is_publishable IsSound
unpublishable now f request none sound = ground arith
unpublishable now f request (some e) (positive, behind) = ground (arith, behind)

release-IsRevoked :
    (now : ℕ) (f : Bool) (job : ClaimedJob) (owner : Str) (request : JobRequest)
    (values : EvaluationJob → EvaluationJob) (row : EvaluationJob) (epoch : Option Epoch)
    → is_claim_of job owner row ≡ true
    → ((values row).lease_owner ≡ none) × ((values row).lease_until ≡ none)
    → ((values row).id ≡ row.id) × ((values row).generation ≡ row.generation)
    → request.reason ≡ periodic_reconciliation_reason
    → IsSound epoch
    → IsRevoked row epoch (release_claim now f job owner (some request) values (some row) epoch)
unfolding release_claim revoke
release-IsRevoked now f job owner request values row epoch held free same periodic sound =
    rw held (record {
      again = record (values row) {
        reason = request.reason;
        shared_head_generation = (advance_epoch now f request.work_class epoch).generation;
      };
      advanced = advance_epoch now f request.work_class epoch;
      rewritten = refl;
      advances = refl;
      answered = refl;
      free = free;
      same = same;
      reason = periodic;
      next_generation = next-generation_of now f request epoch;
      bound = refl;
      unpublished = unpublishable now f request epoch sound;
    })

-- When the holder of a claim on a scheduled recheck of a head, with a valid repository and base,
-- fails, and the epoch of the head is sound, its row is free for a retry under the reason of periodic work, and is bound to the generation behind
-- that of its head, to which the epoch of the head is advanced and which is not publishable yet.
pub fail_job-IsRevoked :
    (u : Unicode) (now : ℕ) (f : Bool) (job : ClaimedJob) (owner : Str) (delay : ℕ)
    (row : EvaluationJob) (epoch : Option Epoch)
    → IsRecheck u job
    → is_claim_of job owner row ≡ true
    → IsSound epoch
    → (released : Released) × (fail_job u now f job owner delay (some row) epoch ≡ ok released)
      × IsRevoked row epoch released
unfolding fail_job
fail_job-IsRevoked u now f job owner delay row epoch recheck held sound =
    let (request, revoked) = IsRecheck-revocation_of u job recheck in
    rw revoked (
      _,
      refl,
      release-IsRevoked now f job owner request (retried _) row epoch held
          (unfold retried without_lease in (refl, refl))
          (unfold retried without_lease in (refl, refl))
          (revocation_of-reason u job job.head_sha_hint request revoked) sound,
    )

-- When the holder of a claim on a scheduled recheck of a head, with a valid repository and base, puts
-- it off beyond the limit since it was queued, and the epoch of the head is sound, its row is free for
-- a retry under the reason of periodic work, and is bound to the generation behind that of its head,
-- to which the epoch of the head is advanced and which is not publishable yet.
pub defer_job-IsRevoked :
    (u : Unicode) (now : ℕ) (f : Bool) (job : ClaimedJob) (owner : Str) (delay limit : ℕ)
    (row : EvaluationJob) (epoch : Option Epoch)
    → IsRecheck u job
    → job.requested_at + limit * second < now + max 1 (min delay 86400) * second
    → is_claim_of job owner row ≡ true
    → IsSound epoch
    → (released : Released) × (defer_job u now f job owner delay (some limit) (some row) epoch
        ≡ ok released)
      × IsRevoked row epoch released
unfolding defer_job deferred_revocation
defer_job-IsRevoked u now f job owner delay limit row epoch recheck late held sound =
    let (request, revoked) = IsRecheck-revocation_of u job recheck in
    let beyond : ltb (job.requested_at + limit * second) (now + max 1 (min delay 86400) * second)
        ≡ true =
      ground (arith, late) in
    rw beyond (
      rw revoked (
        _,
        refl,
        release-IsRevoked now f job owner request (deferred _) row epoch held
            (unfold deferred retried without_lease in (refl, refl))
            (unfold deferred retried without_lease in (refl, refl))
            (revocation_of-reason u job job.head_sha_hint request revoked) sound,
      ))
