-- ===== src/Queue/Fencing.antt =====
-- A claim that a newer trigger or a later claimant superseded changes the table no more.
use extra_codeowners.Prelude.{
  ℕ, ◌+◌, ◌≤◌, ◌<◌, Bool, true, false, List, [], ◌∷◌, ◌==◌, list_eq, nat_eq, Option, none, some,
  ◌≡◌, refl, subst, ◌⊎◌, arith, Bool-cases, inl, inr,
}
use extra_codeowners.Text.{Str}
use extra_codeowners.Epochs.{Epoch}
use extra_codeowners.Webhooks.{JobRequest}
use extra_codeowners.Queue.{EvaluationJob, ClaimedJob, is_claim_of}
use extra_codeowners.Queue.Enqueue.{EnqueueCall, enqueue, replaces, coalesced, inserted}
use extra_codeowners.Queue.Claims.{
  ClaimCall, is_claimable_job, claim_job, leased, claimed_generation, is_current_claim, renew_claim,
}
use extra_codeowners.Queue.Release.{ReconciliationState, complete_job, release_claim, drop_lease}
use extra_codeowners.Queue.Transactions.{
  Transaction, enqueuing, claiming, renewing, completing, failing, deferring, binding, observing,
  commit, commits,
}
use extra_codeowners.Queue.Changes.{IsKept}
use extra_codeowners.Queue.Preserved.{commit-keeps}

-- the row of the claim is gone, or has a later generation
unfoldable pub IsPast : ClaimedJob → Option EvaluationJob → Type 0
IsPast job none = Unit
IsPast job (some row) = ((row.id == job.id) ≡ false) ⊎ (job.generation < row.generation)

-- no row is inserted under the given key
unfoldable pub AreFresh : ℕ → List Transaction → Type 0
AreFresh id [] = Unit
AreFresh id (enqueuing call ∷ ts) = ((call.fresh_id == id) ≡ false) × AreFresh id ts
AreFresh id (t ∷ ts) = AreFresh id ts

fresh_tail :
    (id : ℕ) (t : Transaction) (ts : List Transaction) → AreFresh id (t ∷ ts) → AreFresh id ts
unfolding AreFresh
fresh_tail id (enqueuing call) ts (new, fresh) = fresh
fresh_tail id (claiming call) ts fresh = fresh
fresh_tail id (renewing now j n) ts fresh = fresh
fresh_tail id (completing now j o) ts fresh = fresh
fresh_tail id (failing u now f j o d e) ts fresh = fresh
fresh_tail id (deferring u now f j o d l e) ts fresh = fresh
fresh_tail id (binding u now f j h e) ts fresh = fresh
fresh_tail id (observing now j b) ts fresh = fresh

fresh_head :
    (id : ℕ) (call : EnqueueCall) (ts : List Transaction)
    → AreFresh id (enqueuing call ∷ ts)
    → (call.fresh_id == id) ≡ false
unfolding AreFresh
fresh_head id call ts (new, fresh) = new

IsPast-IsKept :
    (job : ClaimedJob) (r : EvaluationJob) (o : Option EvaluationJob)
    → IsKept r o
    → IsPast job (some r)
    → IsPast job o
unfolding IsPast IsKept
IsPast-IsKept job r none kept past = tt
IsPast-IsKept job r (some s) kept (inl other) = inl (rw (kept.id) other)
IsPast-IsKept job r (some s) kept (inr later) = inr (rw (kept.generation) later)

enqueue-IsPast :
    (job : ClaimedJob) (call : EnqueueCall) (row : Option EvaluationJob)
    → (call.fresh_id == job.id) ≡ false
    → IsPast job row
    → IsPast job (some (enqueue call row))
unfolding enqueue IsPast
enqueue-IsPast job call none new past = unfold inserted in inl new
enqueue-IsPast job call (some r) new past = elim (Bool-cases (replaces call r)) [
  | inl h ↦ rw h (unfold coalesced in later past)
  | inr h ↦ rw h past
]
  where
    later :
        ((r.id == job.id) ≡ false) ⊎ (job.generation < r.generation)
        → ((r.id == job.id) ≡ false) ⊎ (job.generation < r.generation + 1)
    later (inl other) = inl other
    later (inr h) = inr (omega (arith, h))

claim-IsPast :
    (job : ClaimedJob) (call : ClaimCall) (r : EvaluationJob)
    → IsPast job (some r)
    → IsPast job (some (claim_job call r).0)
unfolding claim_job IsPast
claim-IsPast job call r past = elim (Bool-cases (is_claimable_job call r)) [
  | inl h ↦ rw h (unfold leased in later r.lease_owner past)
  | inr h ↦ rw h past
]
  where
    later :
        (o : Option Str)
        → ((r.id == job.id) ≡ false) ⊎ (job.generation < r.generation)
        → ((r.id == job.id) ≡ false) ⊎ (job.generation < claimed_generation o r.generation)
    later o (inl other) = inl other
    later none (inr h) = unfold claimed_generation in inr h
    later (some s) (inr h) = unfold claimed_generation in inr (omega (arith, h))

commits-IsPast :
    (job : ClaimedJob) (ts : List Transaction) (row : Option EvaluationJob)
    → AreFresh job.id ts
    → IsPast job row
    → IsPast job (commits ts row)
unfolding commits
commits-IsPast job [] row fresh past = past
commits-IsPast job (t ∷ ts) row fresh past =
    commits-IsPast job ts (commit t row) (fresh_tail job.id t ts fresh) (
      commit-keeps (IsPast job) t row (IsPast-IsKept job)
        (λ call same.
          enqueue-IsPast job call row
            (fresh_head job.id call ts (subst (λ x. AreFresh job.id (x ∷ ts)) same fresh)))
        (claim-IsPast job) past)

-- What the holder of a claim can still do: nothing.
pub record IsFenced (job : ClaimedJob) (row : Option EvaluationJob) : Type 0 where
  pub not_current :
      (now : ℕ) (authority : Option ℕ) → is_current_claim now authority job row ≡ false
  pub not_renewed : (now seconds : ℕ) → renew_claim now job seconds row ≡ (row, false)
  pub not_completed :
      (now : ℕ) (owner : Str) (state : Option ReconciliationState)
      → complete_job now job owner row state ≡ record { row = row; state = state; answer = false }
  pub not_released :
      (now : ℕ) (foreground : Bool) (owner : Str) (revocation : Option JobRequest)
      (values : EvaluationJob → EvaluationJob) (epoch : Option Epoch)
      → release_claim now foreground job owner revocation values row epoch
        ≡ record { row = row; epoch = epoch; answer = false }

past-is_claim_of :
    (job : ClaimedJob) (owner : Str) (r : EvaluationJob)
    → IsPast job (some r)
    → is_claim_of job owner r ≡ false
unfolding IsPast is_claim_of
past-is_claim_of job owner r (inl other) = ground (arith, other)
past-is_claim_of job owner r (inr later) = ground (arith, later)

past-is_current :
    (now : ℕ) (authority : Option ℕ) (job : ClaimedJob) (r : EvaluationJob)
    → IsPast job (some r)
    → is_current_claim now authority job (some r) ≡ false
unfolding IsPast is_current_claim
past-is_current now authority job r (inl other) = ground (arith, other)
past-is_current now authority job r (inr later) = ground (arith, later)

IsPast-IsFenced :
    (job : ClaimedJob) (row : Option EvaluationJob) → IsPast job row → IsFenced job row
IsPast-IsFenced job none past = record {
  not_current = λ now authority. unfold is_current_claim in refl;
  not_renewed = λ now seconds. unfold renew_claim in refl;
  not_completed = λ now owner state. unfold complete_job in refl;
  not_released = λ now foreground owner revocation values epoch. unfold release_claim in refl;
}
IsPast-IsFenced job (some r) past = record {
  not_current = λ now authority. past-is_current now authority job r past;
  not_renewed =
      λ now seconds. unfold renew_claim in rw (past-is_claim_of job job.lease_owner r past) refl;
  not_completed = λ now owner state.
      unfold complete_job drop_lease in rw (past-is_claim_of job owner r past) refl;
  not_released = λ now foreground owner revocation values epoch.
      unfold release_claim drop_lease in rw (past-is_claim_of job owner r past) refl;
}

-- After a trigger coalesces into the row of a pull request, a claim of a generation until then does
-- nothing more, whatever transactions follow: it is not current, and neither renews, completes nor
-- releases. The keys of rows inserted later are other than that of the claim.
pub trigger_fences :
    (call : EnqueueCall) (row : EvaluationJob) (job : ClaimedJob) (ts : List Transaction)
    → replaces call row ≡ true
    → job.generation ≤ row.generation
    → AreFresh job.id ts
    → IsFenced job (commits ts (some (enqueue call (some row))))
trigger_fences call row job ts replaced old fresh = IsPast-IsFenced job _ (
    commits-IsPast job ts (some (enqueue call (some row))) fresh
      (unfold IsPast enqueue coalesced in rw replaced (inr (omega (arith, old)))))
