-- ===== src/Queue.antt =====
-- The table evaluation_jobs of database.py: one row for each pull request. A transaction is a
-- function of the row with the key of the pull request, or `none` where the table has no such row.
-- Instants are microseconds. Left out are the text of the last error and the column state, which is
-- "pending" in every row that these transactions write. One reading of the clock stands for all of
-- a transaction.
pub mod Enqueue
pub mod Claims
pub mod Release
pub mod Context
pub mod Transactions
pub mod Changes
pub mod Preserved
pub mod Fencing
pub mod Priority
pub mod Revoked
use extra_codeowners.Prelude.{ℕ, Bool, ◌&&◌, ◌==◌, nat_eq, Option, none, some}
use extra_codeowners.Text.{Str}
use extra_codeowners.Epochs.{WorkClass, is_held_by}

pub record EvaluationJob : Type 0 where
  pub id : ℕ
  pub installation_id : ℕ
  pub repository_full_name : Str
  pub pull_number : ℕ
  pub head_sha_hint : Option Str
  pub base_ref_hint : Option Str
  pub last_delivery_id : Option Str
  pub reason : Str
  pub work_class : WorkClass
  pub generation : ℕ
  pub authority_generation : ℕ
  pub shared_head_generation : ℕ
  pub attempts : ℕ
  pub requested_at : ℕ
  pub available_at : ℕ
  pub lease_owner : Option Str
  pub lease_until : Option ℕ

-- without the trace context of the delivery
pub record ClaimedJob : Type 0 where
  pub id : ℕ
  pub installation_id : ℕ
  pub repository_full_name : Str
  pub pull_number : ℕ
  pub reason : Str
  pub work_class : WorkClass
  pub head_sha_hint : Option Str
  pub last_delivery_id : Option Str
  pub generation : ℕ
  pub authority_generation : ℕ
  pub shared_head_generation : ℕ
  pub attempts : ℕ
  pub requested_at : ℕ
  pub available_at : ℕ
  pub lease_owner : Str
  pub base_ref_hint : Option Str

-- the WHERE clause of the updates by a claimant
unfoldable pub is_claim_of : ClaimedJob → Str → EvaluationJob → Bool
unfolding is_held_by
is_claim_of job owner row =
    row.id == job.id && row.generation == job.generation && is_held_by owner row.lease_owner
