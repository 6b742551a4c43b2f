-- ===== src/Queue/Transactions.antt =====
-- Sequences of transactions on the row of one pull request.
use extra_codeowners.Prelude.{ℕ, Bool, List, [], ◌∷◌, nat_eq, Option, none, some, Result, ok, err}
use extra_codeowners.Text.{Str, Unicode}
use extra_codeowners.Epochs.{Epoch}
use extra_codeowners.Queue.{EvaluationJob, ClaimedJob}
use extra_codeowners.Queue.Enqueue.{EnqueueCall, enqueue}
use extra_codeowners.Queue.Claims.{ClaimCall, claim_job, renew_claim}
use extra_codeowners.Queue.Release.{complete_job, fail_job, defer_job}
use extra_codeowners.Queue.Context.{bind_head, observe_base}

-- A transaction, with what it reads from other tables; the claim that a worker hands in is any
-- claim, however old.
pub data Transaction : Type 0 where
  enqueuing : EnqueueCall → Transaction
  claiming : ClaimCall → Transaction
  renewing : ℕ → ClaimedJob → ℕ → Transaction
  completing : ℕ → ClaimedJob → Str → Transaction
  failing : Unicode → ℕ → Bool → ClaimedJob → Str → ℕ → Option Epoch → Transaction
  deferring : Unicode → ℕ → Bool → ClaimedJob → Str → ℕ → Option ℕ → Option Epoch → Transaction
  binding : Unicode → ℕ → Bool → ClaimedJob → Str → Option Epoch → Transaction
  observing : ℕ → ClaimedJob → Str → Transaction

unfoldable pub claimed_row : ClaimCall → Option EvaluationJob → Option EvaluationJob
unfolding claim_job
claimed_row call none = none
claimed_row call (some row) = some (claim_job call row).0

-- the row behind a transaction that may raise and is rolled back then
unfoldable pub committed {ℓ} :
    {A : Type ℓ} {E : Type ℓ}
    → (A → Option EvaluationJob)
    → Option EvaluationJob
    → Result E A
    → Option EvaluationJob
committed row_of row (ok a) = row_of a
committed row_of row (err e) = row

unfoldable pub commit : Transaction → Option EvaluationJob → Option EvaluationJob
unfolding enqueue claimed_row renew_claim complete_job fail_job defer_job bind_head observe_base
    committed
commit (enqueuing call) row = some (enqueue call row)
commit (claiming call) row = claimed_row call row
commit (renewing now job seconds) row = (renew_claim now job seconds row).0
commit (completing now job owner) row = (complete_job now job owner row none).row
commit (failing u now f job owner delay epoch) row =
    committed (λ r. r.row) row (fail_job u now f job owner delay row epoch)
commit (deferring u now f job owner delay limit epoch) row =
    committed (λ r. r.row) row (defer_job u now f job owner delay limit row epoch)
commit (binding u now f job head epoch) row =
    committed (λ r. r.row) row (bind_head u now f job head row epoch)
commit (observing now job base) row = (observe_base now job base row).0

unfoldable pub commits : List Transaction → Option EvaluationJob → Option EvaluationJob
unfolding commit
commits [] row = row
commits (t ∷ ts) row = commits ts (commit t row)
