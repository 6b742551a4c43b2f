-- ===== src/Queue/Preserved.antt =====
-- A property of the row that every transaction preserves.
use extra_codeowners.Prelude.{
  ℕ, max, min, Bool, list_eq, nat_eq, Option, none, some, Result, ok, err, ◌>>=◌, bind-inv, ◌≡◌,
  refl, sym, subst, arith,
}
use extra_codeowners.Text.{Str, Unicode}
use extra_codeowners.Models.Normalize.{ValueError}
use extra_codeowners.Epochs.{Epoch, advance_epoch}
use extra_codeowners.Webhooks.{JobRequest}
use extra_codeowners.Webhooks.Requests.{validate_head_object}
use extra_codeowners.Queue.{EvaluationJob, ClaimedJob}
use extra_codeowners.Queue.Enqueue.{EnqueueCall, enqueue}
use extra_codeowners.Queue.Claims.{ClaimCall, claim_job, renew_claim}
use extra_codeowners.Queue.Release.{
  complete_job, fail_job, defer_job, release_claim, revocation_of, deferred_revocation,
}
use extra_codeowners.Queue.Context.{bind_head, bind_to, bind_row, observe_base, Bound}
use extra_codeowners.Queue.Transactions.{
  Transaction, enqueuing, claiming, renewing, completing, failing, deferring, binding, observing,
  claimed_row, committed, commit,
}
use extra_codeowners.Queue.Changes.{
  IsKept, renew_claim-IsKept, complete_job-IsKept, fail_job-IsKept, defer_job-IsKept,
  bind_head-IsKept, observe_base-IsKept,
}

committed-none {ℓ} :
    {A : Type ℓ} {E : Type ℓ} (f : A → Option EvaluationJob) (x : Result E A)
    → ((a : A) → x ≡ ok a → f a ≡ none)
    → committed f none x ≡ none
unfolding committed
committed-none f (ok a) h = h a refl
committed-none f (err e) h = refl

fail_job-none :
    (u : Unicode) (now : ℕ) (f : Bool) (job : ClaimedJob) (owner : Str) (delay : ℕ)
    (epoch : Option Epoch)
    → commit (failing u now f job owner delay epoch) none ≡ none
unfolding commit
fail_job-none u now f job owner delay epoch =
    committed-none (λ r. r.row) (fail_job u now f job owner delay none epoch)
      (unfold fail_job release_claim in
        λ a h.
          let (o, _, h1) = bind-inv (revocation_of u job job.head_sha_hint) _ h in ground arith)

defer_job-none :
    (u : Unicode) (now : ℕ) (f : Bool) (job : ClaimedJob) (owner : Str) (delay : ℕ)
    (limit : Option ℕ) (epoch : Option Epoch)
    → commit (deferring u now f job owner delay limit epoch) none ≡ none
unfolding commit
defer_job-none u now f job owner delay limit epoch =
    committed-none (λ r. r.row) (defer_job u now f job owner delay limit none epoch)
      (unfold defer_job release_claim in
        λ a h.
          let (o, _, h1) =
            bind-inv (deferred_revocation u now job (max 1 (min delay 86400)) limit) _ h in
          ground arith)

bind_to-none :
    (u : Unicode) (now : ℕ) (f : Bool) (job : ClaimedJob) (head : Str) (hint : Option Str)
    (epoch : Option Epoch) (b : Bound)
    → bind_to u now f job head hint none epoch ≡ ok b
    → b.row ≡ none
unfolding bind_to bind_row
bind_to-none u now f job head (some hint) epoch b h = ground arith
bind_to-none u now f job head none epoch b h = of_request _ h
  where
    of_request :
        (x : Result ValueError JobRequest)
        → x >>= (λ q. ok (bind_row job head (advance_epoch now f q.work_class epoch) none epoch))
          ≡ ok b
        → b.row ≡ none
    of_request (ok q) h = ground arith
    of_request (err e) h = ground arith

bind_head-none :
    (u : Unicode) (now : ℕ) (f : Bool) (job : ClaimedJob) (head : Str) (epoch : Option Epoch)
    → commit (binding u now f job head epoch) none ≡ none
unfolding commit
bind_head-none u now f job head epoch =
    committed-none (λ b. b.row) (bind_head u now f job head none epoch)
      (unfold bind_head in
        λ a h.
          let (v, _, h1) = bind-inv (validate_head_object head) _ h in
          bind_to-none u now f job v job.head_sha_hint epoch a h1)

-- A property of the row holds behind a transaction when it depends on the
-- identity of the row alone, and when this trigger or this claim keeps it.
pub commit-keeps :
    (P : Option EvaluationJob → Type 0) (t : Transaction) (row : Option EvaluationJob)
    → ((r : EvaluationJob) (o : Option EvaluationJob) → IsKept r o → P (some r) → P o)
    → ((call : EnqueueCall) → t ≡ enqueuing call → P row → P (some (enqueue call row)))
    → ((call : ClaimCall) (r : EvaluationJob) → P (some r) → P (some (claim_job call r).0))
    → P row
    → P (commit t row)
commit-keeps P (enqueuing call) row kept trigger taken p = unfold commit in trigger call refl p
commit-keeps P (claiming call) none kept trigger taken p = unfold commit claimed_row in p
commit-keeps P (claiming call) (some r) kept trigger taken p =
    unfold commit claimed_row in taken call r p
commit-keeps P (renewing now j n) none kept trigger taken p = unfold commit renew_claim in p
commit-keeps P (renewing now j n) (some r) kept trigger taken p =
    unfold commit in kept r _ (renew_claim-IsKept now j n r) p
commit-keeps P (completing now j o) none kept trigger taken p = unfold commit complete_job in p
commit-keeps P (completing now j o) (some r) kept trigger taken p =
    unfold commit in kept r _ (complete_job-IsKept now j o r) p
commit-keeps P (failing u now f j o d e) none kept trigger taken p =
    subst P (sym (fail_job-none u now f j o d e)) p
commit-keeps P (failing u now f j o d e) (some r) kept trigger taken p =
    kept r _ (fail_job-IsKept u now f j o d r e) p
commit-keeps P (deferring u now f j o d l e) none kept trigger taken p =
    subst P (sym (defer_job-none u now f j o d l e)) p
commit-keeps P (deferring u now f j o d l e) (some r) kept trigger taken p =
    kept r _ (defer_job-IsKept u now f j o d l r e) p
commit-keeps P (binding u now f j h e) none kept trigger taken p =
    subst P (sym (bind_head-none u now f j h e)) p
commit-keeps P (binding u now f j h e) (some r) kept trigger taken p =
    kept r _ (bind_head-IsKept u now f j h r e) p
commit-keeps P (observing now j b) none kept trigger taken p = unfold commit observe_base in p
commit-keeps P (observing now j b) (some r) kept trigger taken p =
    unfold commit in kept r _ (observe_base-IsKept now j b r) p
