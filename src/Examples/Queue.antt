-- ===== src/Examples/Queue.antt =====
-- The row of a pull request at concrete times.
use extra_codeowners.Prelude.{
  ℕ, ◌+◌, ◌*◌, ◌≤◌, Bool, true, false, List, [], ◌∷◌, ◌≡◌, refl, Result, ok, arith, Option, none,
  some, inr,
}
use extra_codeowners.Text.{Str, text}
use extra_codeowners.Epochs.{recovery, interactive, Epoch}
use extra_codeowners.Queue.{EvaluationJob, ClaimedJob}
use extra_codeowners.Queue.Enqueue.{EnqueueCall, enqueue, replaces, or_zero}
use extra_codeowners.Queue.Claims.{
  ClaimCall, claim_job, is_claimable_job, is_current_claim, view_of,
}
use extra_codeowners.Queue.Release.{complete_job, reconciled}
use extra_codeowners.Queue.Transactions.{
  Transaction, enqueuing, claiming, completing, renewing, commits,
}
use extra_codeowners.Queue.Fencing.{IsFenced, AreFresh, trigger_fences}
use extra_codeowners.Queue.Revoked.{IsRevoked, IsRecheck, fail_job-IsRevoked}
use extra_codeowners.Queue.Release.{Released, fail_job}
use extra_codeowners.Queue.{is_claim_of}
use extra_codeowners.Epochs.Fencing.{IsSound}
use extra_codeowners.Webhooks.Requests.{normalize_repository_full_name, validate_base_ref_hint}
use extra_codeowners.Examples.Parsing.{ascii}
use extra_codeowners.Queue.Priority.{
  IsForeground, ArePreserving, interactive_is_kept, claim_is_exclusive,
}

abbrev head : Str
head = text "0123456789012345678901234567890123456789"

-- an interactive row, generation 2, whose lease ran out at 50
abbrev row : EvaluationJob
row = record {
  id = 5;
  installation_id = 7;
  repository_full_name = text "o/r";
  pull_number = 12;
  head_sha_hint = some head;
  base_ref_hint = none;
  last_delivery_id = none;
  reason = text "pull_request.opened";
  work_class = interactive;
  generation = 2;
  authority_generation = 3;
  shared_head_generation = 1;
  attempts = 1;
  requested_at = 10;
  available_at = 10;
  lease_owner = some (text "w");
  lease_until = some 50;
}

-- the claim of the worker that held it
abbrev old : ClaimedJob
old = view_of (text "w") row

abbrev trigger : EnqueueCall
trigger = record {
  now = 60;
  fresh_id = 9;
  authority = some 3;
  epoch = none;
  request = record {
    installation_id = 7;
    repository_full_name = text "o/r";
    pull_number = 12;
    reason = text "scheduled_recheck";
    head_sha_hint = some head;
    work_class = recovery;
    observed_at = none;
    base_ref_hint = none;
  };
  delivery_id = none;
  shared_head_generation = some 1;
  preserve_different_head = true;
  preserve_work_class = true;
}

abbrev taking : ClaimCall
taking = record {
  now = 70;
  owner = text "v";
  lease_seconds = 60;
  work_class = some interactive;
  require_shared_head_ready = true;
  authority_jobs = record { installation_id = 7; scope_key = text "o/s"; base_ref = [] } ∷ [];
  circuits = [];
  epoch = some (record {
    generation = 1;
    invalidated_generation = 1;
    work_class = interactive;
    changed_at = 10;
    available_at = 10;
    attempts = 0;
    lease_owner = none;
    lease_until = none;
  });
}

abbrev transactions : List Transaction
transactions =
    renewing 61 old 60 ∷ enqueuing trigger ∷ claiming taking ∷ completing 80 old (text "w") ∷ []

transactions-AreFresh : AreFresh 5 transactions
unfolding AreFresh
transactions-AreFresh = (refl, tt)

trigger-replaces : replaces trigger row ≡ true
unfolding replaces extra_codeowners.Prelude.list_beq text
trigger-replaces = refl

trigger_fences_example : IsFenced old (commits transactions (some (enqueue trigger (some row))))
unfolding view_of
trigger_fences_example =
    trigger_fences trigger row old transactions trigger-replaces (omega arith) transactions-AreFresh

taking-is_claimable : is_claimable_job taking row ≡ true
unfolding is_claimable_job extra_codeowners.Prelude.list_beq text
    extra_codeowners.Leases.provider_is_backpressured extra_codeowners.Prelude.lookup
taking-is_claimable = refl

transactions-ArePreserving : ArePreserving 5 transactions
unfolding ArePreserving
transactions-ArePreserving = (refl, refl, tt)

row-IsForeground : IsForeground 5 (some row)
unfolding IsForeground extra_codeowners.Epochs.is_interactive
row-IsForeground = inr refl

interactive_is_kept_example : IsForeground 5 (commits transactions (some row))
interactive_is_kept_example =
    interactive_is_kept 5 transactions (some row) transactions-ArePreserving row-IsForeground

same_authority : or_zero (some 3) ≡ row.authority_generation
unfolding or_zero
same_authority = refl

claim_is_exclusive_example :
    let leased_row = (claim_job taking row).0 in
    (job : ClaimedJob) × ((claim_job taking row).1 ≡ some job)
    × (is_current_claim 80 (some 3) job (some leased_row) ≡ true)
    × ((other : ClaimCall) → other.now ≡ 80 → claim_job other leased_row ≡ (leased_row, none))
    × (complete_job 80 job (text "v") (some leased_row) none
        ≡ record { row = none; state = reconciled 80 (some head) none; answer = true })
claim_is_exclusive_example =
    claim_is_exclusive taking row (some 3) 80 none taking-is_claimable same_authority (omega arith)

-- the row when it is a scheduled recheck
abbrev recheck : EvaluationJob
recheck = record row { reason = text "scheduled_recheck"; work_class = recovery }

recheck-IsRecheck : IsRecheck ascii (view_of (text "w") recheck)
unfolding view_of normalize_repository_full_name validate_base_ref_hint text
    extra_codeowners.Prelude.list_beq
recheck-IsRecheck = record {
  reason = refl;
  head = (head, refl);
  repository = (text "o/r", refl);
  base = (none, refl);
}

recheck-is_claim_of : is_claim_of (view_of (text "w") recheck) (text "w") recheck ≡ true
unfolding is_claim_of view_of extra_codeowners.Prelude.list_beq text
recheck-is_claim_of = refl

no_epoch-IsSound : IsSound none
unfolding IsSound
no_epoch-IsSound = tt

fail_job-IsRevoked_example :
    (released : Released) × (fail_job ascii 40 false
        (view_of (text "w") recheck)
        (text "w")
        300
        (some recheck)
        none
      ≡ ok released)
    × IsRevoked recheck none released
unfolding view_of
fail_job-IsRevoked_example =
    fail_job-IsRevoked ascii 40 false (view_of (text "w") recheck) (text "w") 300 recheck none
      recheck-IsRecheck recheck-is_claim_of no_epoch-IsSound
