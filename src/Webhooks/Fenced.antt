-- ===== src/Webhooks/Fenced.antt =====
-- Every job that evaluation_job returns, and the deliveries that it may drop.
use extra_codeowners.Prelude.{
  ℕ, true, false, ◌&&◌, [], ◌∷◌, ◌==◌, nat_eq, list_eq, contains, ◌≡◌, ◌≢◌, refl, sym, subst, Memᴰ,
  Option-cases, Option, none, some, ok, arith, inl, inr, bind-inv,
}
use mathlib.Core.List.Memᴰ
use extra_codeowners.Text.{Str, text, Unicode}
use extra_codeowners.Json.{
  Json, null, negative, real, string, list_of, boolean, natural, array, object, Items, no_items,
  item, Fields, get,
}
use extra_codeowners.Webhooks.{VerifiedWebhook, Work, no_work, escaping}
use extra_codeowners.Webhooks.Pulls.{is_full_name, installation_id_of}
use extra_codeowners.Webhooks.Pushes.{
  changes_of, is_truncated, changed_paths, is_default_branch, authority_of, organization_push,
}
use extra_codeowners.Webhooks.Installations.{
  last_name, text_field, loses_policy, any_policy_source, is_policy_source, removed_job,
}
use extra_codeowners.Webhooks.Jobs.{pull_request_actions, review_actions, evaluation_job}
use extra_codeowners.Webhooks.Requests.{new_authority_request}
use extra_codeowners.Webhooks.Listed.{
  IsComplete, changes_of-IsListed, is_cut-size, may_be_forced-false,
}
use extra_codeowners.Webhooks.Requested.{IsFine, if-Good, no_work-Good}
use extra_codeowners.Webhooks.Pulled.{
  pull_request_job-Good, check_run_job-Good, push-Good, repository_job-Good, account_job-Good,
}

-- A job that a delivery asks for has a positive installation and pull number, a canonical head and
-- a canonical repository, and stands in the interactive class; a fan-out has a positive
-- installation and, unless it concerns all repositories, a canonical repository.
pub evaluation_job-IsFine :
    (u : Unicode) (webhook : VerifiedWebhook) (policy config : Str) (app : Option ℕ) (w : Work)
    → evaluation_job u webhook policy config app ≡ ok w
    → IsFine u w
unfolding evaluation_job
evaluation_job-IsFine u webhook policy config app =
    if-Good u (webhook.event == text "pull_request")
      (if-Good u (contains pull_request_actions webhook.action)
        (pull_request_job-Good u webhook (webhook.action == text "closed")) (no_work-Good u))
      (if-Good u (webhook.event == text "pull_request_review")
        (if-Good u (contains review_actions webhook.action) (pull_request_job-Good u webhook false)
          (no_work-Good u))
        (if-Good u
          (webhook.event == text "check_run"
            && contains (text "rerequested" ∷ text "requested_action" ∷ []) webhook.action)
          (check_run_job-Good u webhook app)
          (if-Good u (webhook.event == text "push") (push-Good u webhook config policy) (
            if-Good u (webhook.event == text "repository") (repository_job-Good u webhook config)
              (account_job-Good u webhook config)))))

authority_of-some :
    (u : Unicode) (payload : Fields) (name base_ref : Option Str) (reason : Str)
    → authority_of u payload name base_ref reason ≢ ok no_work
unfolding authority_of
authority_of-some u payload name base_ref reason h =
    let (id, _, h1) = bind-inv (installation_id_of payload) _ h in
    let (r, _, h2) =
      bind-inv
        (escaping (
          new_authority_request u (record {
            installation_id = id;
            repository_full_name = name;
            base_ref = base_ref;
            reason = reason;
          })))
        _ h1 in
    cc

-- A push to the default branch of the repository that holds the organization policy is dropped
-- only when its payload lists commits, at least as many as it says the push has, each with all the
-- paths that it added, modified and removed, none of them the policy's, and says that the push was
-- not forced.
pub dropped_push-IsComplete :
    (u : Unicode) (payload repository : Fields) (policy branch : Str)
    → is_default_branch branch (get (text "default_branch") repository) ≡ true
    → organization_push u payload repository policy branch ≡ ok no_work
    → IsComplete policy payload
unfolding organization_push IsComplete is_truncated changed_paths
dropped_push-IsComplete u payload repository policy branch default h =
    let never = authority_of-some u payload none none (text "push.organization_policy") in
    let (commits, given, counted, listed) =
      changes_of-IsListed policy (get (text "commits") payload) (ground arith) (ground arith) in
    let (n, size, enough) =
      is_cut-size (changes_of (get (text "commits") payload)).1 (get (text "distinct_size") payload)
        (ground arith) in
    (
      commits,
      given,
      listed,
      (n, size, omega (arith, enough, counted)),
      may_be_forced-false (get (text "forced") payload) (ground arith),
    )

-- an entry of a removal with a well-formed name, other than that of the policy's repository
abbrev pub IsOrdinary : Unicode → Str → Json → Type 0
IsOrdinary u config r =
    (fields : Fields) × (name : Str) × (r ≡ object fields)
    × (text_field (text "full_name") fields ≡ some name)
    × (is_full_name name ≡ true)
    × ((u.lower (last_name name) == u.lower config) ≡ false)

is_policy_source-IsOrdinary :
    (u : Unicode) (config : Str) (r : Json)
    → is_policy_source u config r ≡ false
    → IsOrdinary u config r
unfolding is_policy_source
is_policy_source-IsOrdinary u config null h = cc
is_policy_source-IsOrdinary u config (boolean b) h = cc
is_policy_source-IsOrdinary u config (natural n) h = cc
is_policy_source-IsOrdinary u config (negative n) h = cc
is_policy_source-IsOrdinary u config (real r) h = cc
is_policy_source-IsOrdinary u config (string s) h = cc
is_policy_source-IsOrdinary u config (array a) h = cc
is_policy_source-IsOrdinary u config (object o) h =
    elim (Option-cases (text_field (text "full_name") o)) [
      | inl e ↦ absurd (ground (arith, e))
      | inr (name, e) ↦ (o, name, refl, e, ground (arith, e), ground (arith, e))
    ]

any_policy_source-false :
    (u : Unicode) (config : Str) (items : Items)
    → any_policy_source u config items ≡ false
    → (r : Json) → Memᴰ r (list_of items)
    → IsOrdinary u config r
unfolding any_policy_source list_of
any_policy_source-false u config no_items h r m = absurd (Memᴰ.not-nil m)
any_policy_source-false u config (item x rest) h r m = elim (Memᴰ.cases_cons m) [
  | inl e ↦
      subst (IsOrdinary u config) (sym e) (is_policy_source-IsOrdinary u config x (ground arith))
  | inr later ↦ any_policy_source-false u config rest (ground arith) r later
]

loses_policy-false :
    (u : Unicode) (config : Str) (removed : Option Json)
    → loses_policy u config removed ≡ false
    → (items : Items) × (removed ≡ some (array items))
      × ((r : Json) → Memᴰ r (list_of items) → IsOrdinary u config r)
unfolding loses_policy
loses_policy-false u config none h = cc
loses_policy-false u config (some null) h = cc
loses_policy-false u config (some (boolean b)) h = cc
loses_policy-false u config (some (natural n)) h = cc
loses_policy-false u config (some (negative n)) h = cc
loses_policy-false u config (some (real r)) h = cc
loses_policy-false u config (some (string s)) h = cc
loses_policy-false u config (some (array no_items)) h = cc
loses_policy-false u config (some (array (item x rest))) h =
    (item x rest, refl, any_policy_source-false u config (item x rest) h)
loses_policy-false u config (some (object o)) h = cc

-- The removal of repositories is dropped only when the payload lists them, each with a
-- well-formed name that is not that of the repository with the organization policy.
pub dropped_removal-IsOrdinary :
    (u : Unicode) (webhook : VerifiedWebhook) (config : Str)
    → removed_job u webhook config ≡ ok no_work
    → (items : Items) × (get (text "repositories_removed") webhook.payload ≡ some (array items))
      × ((r : Json) → Memᴰ r (list_of items) → IsOrdinary u config r)
unfolding removed_job
dropped_removal-IsOrdinary u webhook config h =
    let never =
      authority_of-some u webhook.payload none none (text "installation_repositories.removed") in
    loses_policy-false u config (get (text "repositories_removed") webhook.payload) (ground arith)
