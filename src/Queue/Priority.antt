-- ===== src/Queue/Priority.antt =====
-- The priority of a row: its work class, and who may claim it when.
use extra_codeowners.Prelude.{
  ℕ, ◌+◌, ◌*◌, ◌≤◌, true, false, List, [], ◌∷◌, ◌==◌, list_eq, nat_eq, Option, none, some, ◌≡◌,
  refl, subst, ◌⊎◌, arith, Bool-cases, inl, inr, beq_self,
}
use extra_codeowners.Budget.{second}
use extra_codeowners.Epochs.{is_interactive, is_released, is_held_by, is_unexpired}
use extra_codeowners.Queue.{EvaluationJob, ClaimedJob, is_claim_of}
use extra_codeowners.Queue.Enqueue.{
  EnqueueCall, enqueue, replaces, coalesced, coalesced_class, inserted, or_zero,
}
use extra_codeowners.Queue.Claims.{
  ClaimCall, is_claimable_job, claim_job, leased, view_of, is_current_claim,
}
use extra_codeowners.Queue.Release.{ReconciliationState, complete_job, reconciled}
use extra_codeowners.Queue.Transactions.{
  Transaction, enqueuing, claiming, renewing, completing, failing, deferring, binding, observing,
  commit, commits,
}
use extra_codeowners.Queue.Changes.{IsKept}
use extra_codeowners.Queue.Preserved.{commit-keeps}

-- the row with the key, where it is still there, is interactive
unfoldable pub IsForeground : ℕ → Option EvaluationJob → Type 0
IsForeground id none = Unit
IsForeground id (some row) = ((row.id == id) ≡ false) ⊎ (is_interactive row.work_class ≡ true)

-- no row is inserted under the given key, and no scan says that it has seen a newer head
unfoldable pub ArePreserving : ℕ → List Transaction → Type 0
ArePreserving id [] = Unit
ArePreserving id (enqueuing call ∷ ts) =
    ((call.fresh_id == id) ≡ false) × (call.preserve_work_class ≡ true) × ArePreserving id ts
ArePreserving id (t ∷ ts) = ArePreserving id ts

preserving_tail :
    (id : ℕ) (t : Transaction) (ts : List Transaction)
    → ArePreserving id (t ∷ ts)
    → ArePreserving id ts
unfolding ArePreserving
preserving_tail id (enqueuing call) ts (new, same, rest) = rest
preserving_tail id (claiming call) ts rest = rest
preserving_tail id (renewing now j n) ts rest = rest
preserving_tail id (completing now j o) ts rest = rest
preserving_tail id (failing u now f j o d e) ts rest = rest
preserving_tail id (deferring u now f j o d l e) ts rest = rest
preserving_tail id (binding u now f j h e) ts rest = rest
preserving_tail id (observing now j b) ts rest = rest

preserving_head :
    (id : ℕ) (call : EnqueueCall) (ts : List Transaction)
    → ArePreserving id (enqueuing call ∷ ts)
    → ((call.fresh_id == id) ≡ false) × (call.preserve_work_class ≡ true)
unfolding ArePreserving
preserving_head id call ts (new, same, rest) = (new, same)

IsForeground-IsKept :
    (id : ℕ) (r : EvaluationJob) (o : Option EvaluationJob)
    → IsKept r o
    → IsForeground id (some r)
    → IsForeground id o
unfolding IsForeground IsKept
IsForeground-IsKept id r none kept fore = tt
IsForeground-IsKept id r (some s) kept (inl other) = inl (rw (kept.id) other)
IsForeground-IsKept id r (some s) kept (inr fore) = inr (rw (kept.work_class) fore)

enqueue-IsForeground :
    (id : ℕ) (call : EnqueueCall) (row : Option EvaluationJob)
    → ((call.fresh_id == id) ≡ false) × (call.preserve_work_class ≡ true)
    → IsForeground id row
    → IsForeground id (some (enqueue call row))
unfolding enqueue IsForeground
enqueue-IsForeground id call none (new, same) fore = unfold inserted in inl new
enqueue-IsForeground id call (some r) (new, same) fore = elim (Bool-cases (replaces call r)) [
  | inl h ↦ rw h (unfold coalesced in merged fore)
  | inr h ↦ rw h fore
]
  where
    merged :
        ((r.id == id) ≡ false) ⊎ (is_interactive r.work_class ≡ true)
        → ((r.id == id) ≡ false)
          ⊎ (is_interactive
                (coalesced_class call.preserve_work_class r.work_class call.request.work_class)
              ≡ true)
    merged (inl other) = inl other
    merged (inr h) = inr (unfold coalesced_class in rw same (rw h refl))

claim-IsForeground :
    (id : ℕ) (call : ClaimCall) (r : EvaluationJob)
    → IsForeground id (some r)
    → IsForeground id (some (claim_job call r).0)
unfolding claim_job IsForeground
claim-IsForeground id call r fore = elim (Bool-cases (is_claimable_job call r)) [
  | inl h ↦ rw h (unfold leased in fore)
  | inr h ↦ rw h fore
]

-- Until its row is deleted, work that a webhook asked for stays interactive, whatever transactions
-- run, as long as each trigger preserves the class and the rows inserted later have other keys.
pub interactive_is_kept :
    (id : ℕ) (ts : List Transaction) (row : Option EvaluationJob)
    → ArePreserving id ts
    → IsForeground id row
    → IsForeground id (commits ts row)
unfolding commits
interactive_is_kept id [] row preserving fore = fore
interactive_is_kept id (t ∷ ts) row preserving fore =
    interactive_is_kept id ts (commit t row) (preserving_tail id t ts preserving) (
      commit-keeps (IsForeground id) t row (IsForeground-IsKept id)
        (λ call same.
          enqueue-IsForeground id call row
            (preserving_head id call ts (subst (λ x. ArePreserving id (x ∷ ts)) same preserving)))
        (claim-IsForeground id) fore)

-- A worker that asks for a row it may claim gets a claim which is current until its lease ends,
-- while the authority of the installation is that of the row; no one else claims the row before
-- that; and when the worker completes it the row is deleted and the head that it names, if any, is
-- recorded.
pub claim_is_exclusive :
    (call : ClaimCall) (row : EvaluationJob) (authority : Option ℕ) (later : ℕ)
    (state : Option ReconciliationState)
    → is_claimable_job call row ≡ true
    → or_zero authority ≡ row.authority_generation
    → later ≤ call.now + call.lease_seconds * second
    → let leased_row = (claim_job call row).0 in
      (job : ClaimedJob) × ((claim_job call row).1 ≡ some job)
      × (is_current_claim later authority job (some leased_row) ≡ true)
      × ((other : ClaimCall) → other.now ≡ later → claim_job other leased_row ≡ (leased_row, none))
      × (complete_job later job call.owner (some leased_row) state
          ≡ record { row = none; state = reconciled later row.head_sha_hint state; answer = true })
unfolding claim_job
claim_is_exclusive call row authority later state claimable same early = rw claimable (
  view_of call.owner (leased call row),
  refl,
  current,
  (λ other at. rw (taken other at) refl),
  unfold complete_job leased view_of in rw owned refl,
)
  where
    self : (call.owner == call.owner) ≡ true
    self = beq_self call.owner

    owned : is_claim_of (view_of call.owner (leased call row)) call.owner (leased call row) ≡ true
    owned = unfold is_claim_of view_of leased is_held_by in ground (arith, self)

    current :
        is_current_claim later authority
          (view_of call.owner (leased call row))
          (some (leased call row))
        ≡ true
    current =
        unfold is_current_claim view_of leased is_held_by is_unexpired in
        ground (arith, self, same, early)

    taken :
        (other : ClaimCall) → other.now ≡ later → is_claimable_job other (leased call row) ≡ false
    taken other at = unfold is_claimable_job leased is_released in ground (arith, early, at)
