-- ===== src/Webhooks/Jobs.antt =====
-- evaluation_job of webhooks.py.
use extra_codeowners.Prelude.{
  ℕ, false, ◌&&◌, List, [], ◌∷◌, ◌++◌, ◌==◌, nat_eq, list_eq, if◌then◌else◌, contains, Option, none,
  some, Result, ok, ◌>>=◌,
}
use extra_codeowners.Text.{Str, text, Unicode}
use extra_codeowners.Webhooks.{Failure, VerifiedWebhook, Work, no_work}
use extra_codeowners.Webhooks.Pulls.{
  installation_id_of, repository_name, reason_of, pull_request_job, check_run_job,
}
use extra_codeowners.Webhooks.Pushes.{authority_of, push_authority_job}
use extra_codeowners.Webhooks.Installations.{added_job, removed_job, repository_job}

abbrev pub pull_request_actions : List Str
pull_request_actions =
    text "opened"
    ∷ text "reopened"
    ∷ text "synchronize"
    ∷ text "ready_for_review"
    ∷ text "converted_to_draft"
    ∷ text "edited"
    ∷ text "labeled"
    ∷ text "unlabeled"
    ∷ text "review_requested"
    ∷ text "review_request_removed"
    ∷ text "closed"
    ∷ []

abbrev pub review_actions : List Str
review_actions = text "submitted" ∷ text "edited" ∷ text "dismissed" ∷ []

abbrev pub installation_actions : List Str
installation_actions = text "created" ∷ text "unsuspend" ∷ text "new_permissions_accepted" ∷ []

-- label, member and team_add concern one repository
unfoldable pub repository_fan_out : Unicode → VerifiedWebhook → Result Failure Work
unfolding installation_id_of repository_name reason_of authority_of
repository_fan_out u webhook = do
  id ← installation_id_of webhook.payload
  name ← repository_name u webhook.payload
  authority_of u webhook.payload (some name) none (reason_of webhook.event webhook.action)

unfoldable pub installation_repositories_job : Unicode → VerifiedWebhook → Str → Result Failure Work
unfolding added_job removed_job
installation_repositories_job u webhook org_config_repository =
    if webhook.action == text "added"
    then added_job u webhook org_config_repository
    else if webhook.action == text "removed"
    then removed_job u webhook org_config_repository
    else ok no_work

-- the events of teams, organizations and installations
unfoldable pub account_job : Unicode → VerifiedWebhook → Str → Result Failure Work
unfolding contains repository_fan_out reason_of authority_of installation_repositories_job
account_job u webhook org_config_repository =
    if contains (text "label" ∷ text "member" ∷ text "team_add" ∷ []) webhook.event
    then repository_fan_out u webhook
    else if contains (text "membership" ∷ text "organization" ∷ text "team" ∷ []) webhook.event
    then authority_of u webhook.payload none none (reason_of webhook.event webhook.action)
    else if webhook.event == text "installation" && contains installation_actions webhook.action
    then authority_of u webhook.payload none none (text "installation." ++ webhook.action)
    else if webhook.event == text "installation_repositories"
    then installation_repositories_job u webhook org_config_repository
    else if webhook.event == text "installation_target" && webhook.action == text "renamed"
    then authority_of u webhook.payload none none (text "installation_target.renamed")
    else ok no_work

unfoldable pub evaluation_job :
    Unicode → VerifiedWebhook → Str → Str → Option ℕ → Result Failure Work
unfolding contains pull_request_job check_run_job push_authority_job repository_job account_job
evaluation_job u webhook policy_path org_config_repository expected_app_id =
    if webhook.event == text "pull_request"
    then (if contains pull_request_actions webhook.action
        then pull_request_job u webhook (webhook.action == text "closed")
        else ok no_work)
    else if webhook.event == text "pull_request_review"
    then (if contains review_actions webhook.action
        then pull_request_job u webhook false
        else ok no_work)
    else if webhook.event == text "check_run"
        && contains (text "rerequested" ∷ text "requested_action" ∷ []) webhook.action
    then check_run_job u webhook expected_app_id
    else if webhook.event == text "push"
    then push_authority_job u webhook policy_path org_config_repository
    else if webhook.event == text "repository"
    then repository_job u webhook org_config_repository
    else account_job u webhook org_config_repository
