-- ===== src/Webhooks/Pulled.antt =====
-- Every part of evaluation_job returns work that is fine, or none.
use extra_codeowners.Prelude.{
  any, ℕ, Bool, true, false, not, ◌&&◌, ◌||◌, [], ◌∷◌, ◌++◌, ◌==◌, nat_eq, list_eq, contains, ◌≡◌,
  refl, if◌then◌else◌, Option, none, some,
}
use extra_codeowners.Text.{Str, text, Unicode}
use extra_codeowners.Json.{Fields, get}
use extra_codeowners.Webhooks.{VerifiedWebhook}
use extra_codeowners.Webhooks.Pulls.{
  dict_or, repository_name, reason_of, pull_request_job, check_run_job, installation_id_of,
  positive_int, first_true, head_sha_of, is_closed, is_from_app, asks_again, single_dict,
  requested_action, current_pull_job, check_pull_job,
}
use extra_codeowners.Webhooks.Pushes.{
  short_name, branch_of, is_truncated, changed_paths, is_default_branch, organization_push,
  branch_push, is_deleted, push_authority_job,
}
use extra_codeowners.Webhooks.Installations.{
  single_added_repository, loses_policy, added_job, removed_job, affects_policy,
  fences_installation, previous_name, default_branch_changed, repository_job,
}
use extra_codeowners.Webhooks.Jobs.{
  installation_actions, repository_fan_out, installation_repositories_job, account_job,
}
use extra_codeowners.Webhooks.Requested.{
  positive_int-positive, head_sha_of-id, reason_of-dot, head_job-Good, Good, bind-Good, if-Good,
  no_work-Good, authority_of-Good,
}

current_pull_job-Good :
    (u : Unicode) (webhook : VerifiedWebhook) (pull : Fields)
    → Good u (current_pull_job u webhook pull)
unfolding current_pull_job
current_pull_job-Good u webhook pull =
    let found = first_true (get (text "number") pull) (get (text "number") webhook.payload) in
    bind-Good u (positive_int (text "pull number") found) (λ number is_number.
      bind-Good u (dict_or (text "webhook omitted pull_request.head") (get (text "head") pull))
        (λ head _.
          bind-Good u (head_sha_of (text "pull_request.head.sha") (get (text "sha") head))
            (λ sha is_sha.
              head_job-Good u webhook.payload number _ sha _
                (positive_int-positive (text "pull number") found number is_number)
                (head_sha_of-id (text "pull_request.head.sha") (get (text "sha") head) sha is_sha)
                (reason_of-dot webhook.event webhook.action))))

pub pull_request_job-Good :
    (u : Unicode) (webhook : VerifiedWebhook) (allow_closed : Bool)
    → Good u (pull_request_job u webhook allow_closed)
unfolding pull_request_job
pull_request_job-Good u webhook allow_closed =
    bind-Good u
      (dict_or (text "webhook omitted pull_request") (get (text "pull_request") webhook.payload))
      (λ pull _. bind-Good u (is_closed (get (text "state") pull)) (λ is_over _.
        if-Good u (is_over && not allow_closed) (no_work-Good u)
          (current_pull_job-Good u webhook pull)))

check_reason-dot :
    (b : Bool)
    → contains
        (if b then text "check_run.requested_action.re-evaluate" else text "check_run.rerequested")
        b'.'
      ≡ true
unfolding contains any text
check_reason-dot true = refl
check_reason-dot false = refl

check_pull_job-Good :
    (u : Unicode) (webhook : VerifiedWebhook) (check_run : Fields) (pull : Option Fields)
    → Good u (check_pull_job u webhook check_run pull)
unfolding check_pull_job
check_pull_job-Good u webhook check_run none = no_work-Good u
check_pull_job-Good u webhook check_run (some pull) =
    bind-Good u (positive_int (text "check_run pull number") (get (text "number") pull))
      (λ number is_number.
        bind-Good u (head_sha_of (text "check_run.head_sha") (get (text "head_sha") check_run))
          (λ sha is_sha.
            head_job-Good u webhook.payload number _ sha none
              (positive_int-positive (text "check_run pull number") (get (text "number") pull)
                number is_number)
              (head_sha_of-id (text "check_run.head_sha") (get (text "head_sha") check_run) sha
                is_sha)
              (check_reason-dot (webhook.action == requested_action))))

pub check_run_job-Good :
    (u : Unicode) (webhook : VerifiedWebhook) (expected : Option ℕ)
    → Good u (check_run_job u webhook expected)
unfolding check_run_job
check_run_job-Good u webhook expected =
    bind-Good u
      (dict_or (text "webhook omitted check_run") (get (text "check_run") webhook.payload))
      (λ check_run _.
        if-Good u
          (not (is_from_app expected check_run)
            || webhook.action == requested_action && not (asks_again webhook.payload))
          (no_work-Good u)
          (check_pull_job-Good u webhook check_run
            (single_dict (get (text "pull_requests") check_run))))

module _ (u : Unicode) (webhook : VerifiedWebhook) (config : Str) where
  branch_push-Good :
      (policy : Str) (branch : Option Str)
      → Good u (branch_push u webhook.payload policy config branch)
  unfolding branch_push organization_push
  branch_push-Good policy none = no_work-Good u
  branch_push-Good policy (some branch) =
      let payload = webhook.payload in
      bind-Good u (dict_or (text "webhook omitted repository") (get (text "repository") payload))
        (λ repository _. bind-Good u (repository_name u payload) (λ full_name _.
          if-Good u (not (short_name full_name == u.lower config))
            (authority_of-Good u payload (some full_name) (some branch)
              (text "push.repository_base"))
            (if-Good u
              (not (is_default_branch branch (get (text "default_branch") repository))
                || not (is_truncated payload) && not (contains (changed_paths payload) policy))
              (no_work-Good u)
              (authority_of-Good u payload none none (text "push.organization_policy")))))

  pub push-Good : (policy : Str) → Good u (push_authority_job u webhook policy config)
  unfolding push_authority_job
  push-Good policy =
      if-Good u (is_deleted (get (text "deleted") webhook.payload)) (no_work-Good u)
        (branch_push-Good policy (branch_of (get (text "ref") webhook.payload)))

  pub repository_job-Good : Good u (repository_job u webhook config)
  unfolding repository_job
  repository_job-Good =
      let payload = webhook.payload in
      bind-Good u (dict_or (text "webhook omitted repository") (get (text "repository") payload))
        (λ repository _. bind-Good u (repository_name u payload) (λ full_name _.
          let changes = get (text "changes") payload in
          if-Good u
            (fences_installation webhook.action
              (affects_policy u config full_name (previous_name changes))
              (default_branch_changed changes))
            (authority_of-Good u payload none none (text "repository." ++ webhook.action))
            (no_work-Good u)))

  pub account_job-Good : Good u (account_job u webhook config)
  unfolding account_job repository_fan_out installation_repositories_job added_job removed_job
  account_job-Good =
      let payload = webhook.payload in
      if-Good u (contains (text "label" ∷ text "member" ∷ text "team_add" ∷ []) webhook.event)
        (bind-Good u (installation_id_of payload) (λ _ _.
          bind-Good u (repository_name u payload) (λ name _.
            authority_of-Good u payload (some name) none (reason_of webhook.event webhook.action))))
        (if-Good u
          (contains (text "membership" ∷ text "organization" ∷ text "team" ∷ []) webhook.event)
          (authority_of-Good u payload none none (reason_of webhook.event webhook.action))
          (if-Good u
            (webhook.event == text "installation" && contains installation_actions webhook.action)
            (authority_of-Good u payload none none (text "installation." ++ webhook.action))
            (if-Good u (webhook.event == text "installation_repositories")
              (if-Good u (webhook.action == text "added")
                (authority_of-Good u payload (single_added_repository u payload config) none
                  (text "installation_repositories.added"))
                (if-Good u (webhook.action == text "removed")
                  (if-Good u (loses_policy u config (get (text "repositories_removed") payload))
                    (authority_of-Good u payload none none
                      (text "installation_repositories.removed"))
                    (no_work-Good u))
                  (no_work-Good u)))
              (if-Good u
                (webhook.event == text "installation_target" && webhook.action == text "renamed")
                (authority_of-Good u payload none none (text "installation_target.renamed"))
                (no_work-Good u)))))
