-- ===== src/Queue/Claims.antt =====
-- claim, is_current_claim and renew_claim of database.py, on one row.
use extra_codeowners.Prelude.{
  ℕ, ◌+◌, ◌*◌, Bool, true, false, not, ◌&&◌, ◌||◌, List, [], any, ltb, leb, ◌==◌, nat_eq, list_eq,
  if◌then◌else◌, Option, none, some,
}
use extra_codeowners.Text.{Str}
use extra_codeowners.Models.Policies.{star}
use extra_codeowners.Budget.{second}
use extra_codeowners.Leases.{Circuits, provider_is_backpressured}
use extra_codeowners.Epochs.{WorkClass, Epoch, is_released, is_in_class, is_held_by, is_unexpired}
use extra_codeowners.Queue.{EvaluationJob, ClaimedJob, is_claim_of}
use extra_codeowners.Queue.Enqueue.{or_zero}

-- the columns of AuthorityJob that a claim reads
pub record AuthorityJob : Type 0 where
  pub installation_id : ℕ
  pub scope_key : Str
  pub base_ref : Str

unfoldable pub is_hinted : Str → Option Str → Bool
is_hinted base_ref none = false
is_hinted base_ref (some hint) = base_ref == hint

-- whether the job waits for an authority job
unfoldable pub is_in_scope : EvaluationJob → AuthorityJob → Bool
unfolding is_hinted
is_in_scope job authority =
    authority.installation_id == job.installation_id
    && (authority.scope_key == star
        || authority.scope_key == job.repository_full_name
          && (authority.base_ref == [] || is_hinted authority.base_ref job.base_ref_hint))

-- The arguments of a call; the clock, and what the query reads from other tables: the authority
-- jobs, the circuits of the provider and the epoch of the head that the job names.
pub record ClaimCall : Type 0 where
  pub now : ℕ
  pub owner : Str
  pub lease_seconds : ℕ
  pub work_class : Option WorkClass
  pub require_shared_head_ready : Bool
  pub authority_jobs : List AuthorityJob
  pub circuits : Circuits
  pub epoch : Option Epoch

-- the reset of the job's head is not done
unfoldable pub awaits_reset : Option Epoch → EvaluationJob → Bool
awaits_reset none job = false
awaits_reset (some epoch) job =
    ltb 0 job.shared_head_generation && ltb epoch.invalidated_generation job.shared_head_generation

-- the conditions of a candidate
unfoldable pub is_claimable_job : ClaimCall → EvaluationJob → Bool
unfolding is_released is_in_scope any awaits_reset is_in_class
is_claimable_job call job =
    leb job.available_at call.now
    && is_released call.now job.lease_until
    && not (any (is_in_scope job) call.authority_jobs)
    && not (provider_is_backpressured call.now (some job.installation_id) call.circuits)
    && not (call.require_shared_head_ready && awaits_reset call.epoch job)
    && is_in_class call.work_class job.work_class

-- a lease that ran out is fenced by a new generation
unfoldable pub claimed_generation : Option Str → ℕ → ℕ
claimed_generation none generation = generation
claimed_generation (some owner) generation = generation + 1

unfoldable pub leased : ClaimCall → EvaluationJob → EvaluationJob
unfolding claimed_generation
leased call job = record job {
  lease_owner = some call.owner;
  lease_until = some (call.now + call.lease_seconds * second);
  attempts = job.attempts + 1;
  generation = claimed_generation job.lease_owner job.generation;
}

unfoldable pub view_of : Str → EvaluationJob → ClaimedJob
view_of owner row = record {
  id = row.id;
  installation_id = row.installation_id;
  repository_full_name = row.repository_full_name;
  pull_number = row.pull_number;
  reason = row.reason;
  work_class = row.work_class;
  head_sha_hint = row.head_sha_hint;
  last_delivery_id = row.last_delivery_id;
  generation = row.generation;
  authority_generation = row.authority_generation;
  shared_head_generation = row.shared_head_generation;
  attempts = row.attempts;
  requested_at = row.requested_at;
  available_at = row.available_at;
  lease_owner = owner;
  base_ref_hint = row.base_ref_hint;
}

-- the transaction on the row, when it is the candidate that the query picks
unfoldable pub claim_job : ClaimCall → EvaluationJob → EvaluationJob × Option ClaimedJob
unfolding is_claimable_job leased view_of
claim_job call job =
    if is_claimable_job call job
    then (leased call job, some (view_of call.owner (leased call job)))
    else (job, none)

-- is_current_claim, with the generation of the installation's authority
unfoldable pub is_current_claim : ℕ → Option ℕ → ClaimedJob → Option EvaluationJob → Bool
unfolding or_zero is_held_by is_unexpired
is_current_claim now authority job none = false
is_current_claim now authority job (some row) =
    row.id == job.id
    && row.generation == job.generation
    && row.authority_generation == job.authority_generation
    && or_zero authority == job.authority_generation
    && is_held_by job.lease_owner row.lease_owner
    && is_unexpired now row.lease_until

unfoldable pub renew_claim : ℕ → ClaimedJob → ℕ → Option EvaluationJob → Option EvaluationJob × Bool
unfolding is_claim_of
renew_claim now job lease_seconds none = (none, false)
renew_claim now job lease_seconds (some row) =
    if is_claim_of job job.lease_owner row
    then (some (record row { lease_until = some (now + lease_seconds * second) }), true)
    else (some row, false)
