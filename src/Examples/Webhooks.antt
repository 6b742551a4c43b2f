-- ===== src/Examples/Webhooks.antt =====
-- webhooks.py at three deliveries.
use extra_codeowners.Prelude.{
  ℕ, ◌≤◌, Bool, true, false, List, [], ◌∷◌, ◌++◌, ◌≡◌, ◌≢◌, refl, Option, none, some, Result, ok,
  err, contains, Memᴰ, arith, list_eq, nat_eq, length,
}
use extra_codeowners.Text.{Str, text}
use extra_codeowners.Json.{
  Json, boolean, natural, string, array, object, Items, no_items, item, list_of, Fields, no_fields,
  field, get,
}
use extra_codeowners.Examples.Parsing.{ascii}
use extra_codeowners.Epochs.{interactive}
use extra_codeowners.Webhooks.{LoadsError, undecodable, VerifiedWebhook, JobRequest, no_work, job}
use extra_codeowners.Webhooks.Verify.{verify_webhook}
use extra_codeowners.Webhooks.Pushes.{is_default_branch, organization_push}
use extra_codeowners.Webhooks.Installations.{removed_job}
use extra_codeowners.Webhooks.Jobs.{evaluation_job}
use extra_codeowners.Webhooks.Authentic.{verify_webhook-IsAuthentic, unsigned_is_unread}
use extra_codeowners.Webhooks.Requested.{IsFine}
use extra_codeowners.Webhooks.Listed.{IsComplete}
use extra_codeowners.Webhooks.Fenced.{
  evaluation_job-IsFine, dropped_push-IsComplete, IsOrdinary, dropped_removal-IsOrdinary,
}

-- a digest that names the secret, and a parser that knows one body
abbrev digest : Str → List ℕ → Str
digest secret body = secret ++ body

abbrev sha : Str
sha = text "cccccccccccccccccccccccccccccccccccccccc"

abbrev installation : Fields
installation = field (text "id") (natural 9) no_fields

abbrev repository : Fields
repository =
    field (text "full_name") (string (text "Org/.github"))
      (field (text "default_branch") (string (text "main")) no_fields)

abbrev pull : Fields
pull = field (text "state") (string (text "open")) (
    field (text "number") (natural 3)
      (field (text "head") (object (field (text "sha") (string sha) no_fields)) no_fields))

abbrev pull_payload : Fields
pull_payload = field (text "action") (string (text "opened")) (
    field (text "pull_request") (object pull) (
      field (text "installation") (object installation)
        (field (text "repository") (object repository) no_fields)))

abbrev parse : List ℕ → Result LoadsError Json
parse body = ok (object pull_payload)

abbrev refuse_all : List ℕ → Result LoadsError Json
refuse_all body = err undecodable

abbrev body : List ℕ
body = text "{}"

abbrev delivery : VerifiedWebhook
delivery = record {
  delivery_id = text "d1";
  event = text "pull_request";
  action = text "opened";
  payload = pull_payload;
}

accepted :
    verify_webhook digest parse body
      (some (text "sha256=key{}"))
      (some (text "d1"))
      (some (text "pull_request"))
      (text "key")
    ≡ ok delivery
unfolding verify_webhook text extra_codeowners.Prelude.list_beq
accepted = refl

verify_webhook-IsAuthentic_example :
    (length body ≤ 10485760)
    × (some (text "sha256=key{}") ≡ some (text "sha256=" ++ digest (text "key") body))
    × (some (text "d1") ≡ some delivery.delivery_id)
    × (some (text "pull_request") ≡ some delivery.event)
    × (parse body ≡ ok (object delivery.payload))
verify_webhook-IsAuthentic_example =
    verify_webhook-IsAuthentic digest parse body (some (text "sha256=key{}")) (some (text "d1"))
      (some (text "pull_request")) (text "key") delivery accepted

forged : some (text "sha256=none") ≢ some (text "sha256=" ++ digest (text "key") body)
unfolding text
forged h = cc

unsigned_is_unread_example :
    verify_webhook digest parse body
      (some (text "sha256=none"))
      (some (text "d1"))
      (some (text "push"))
      (text "key")
    ≡ verify_webhook digest refuse_all body
        (some (text "sha256=none"))
        (some (text "d1"))
        (some (text "push"))
        (text "key")
unsigned_is_unread_example =
    unsigned_is_unread digest parse refuse_all body (some (text "sha256=none")) (some (text "d1"))
      (some (text "push")) (text "key") forged

abbrev opened_job : JobRequest
opened_job = record {
  installation_id = 9;
  repository_full_name = text "org/.github";
  pull_number = 3;
  reason = text "pull_request.opened";
  head_sha_hint = some sha;
  work_class = interactive;
  observed_at = none;
  base_ref_hint = none;
}

evaluation_job-opened :
    evaluation_job ascii delivery (text "p") (text ".github") none ≡ ok (job opened_job)
unfolding evaluation_job extra_codeowners.Prelude.list_beq text
evaluation_job-opened = refl

evaluation_job-IsFine_example : IsFine ascii (job opened_job)
evaluation_job-IsFine_example =
    evaluation_job-IsFine ascii delivery (text "p") (text ".github") none (job opened_job)
      evaluation_job-opened

-- a push of one commit that leaves the policy alone
abbrev push_payload : Fields
push_payload =
    field (text "commits")
      (array (
        item
          (object (
            field (text "added") (array (item (string (text "a")) no_items)) (
              field (text "modified") (array no_items)
                (field (text "removed") (array no_items) no_fields))))
          no_items))
      (field (text "distinct_size") (natural 1) (field (text "forced") (boolean false) no_fields))

dropped_push : organization_push ascii push_payload repository (text "p") (text "main") ≡ ok no_work
unfolding organization_push extra_codeowners.Prelude.list_beq text
dropped_push = refl

on_default_branch : is_default_branch (text "main") (get (text "default_branch") repository) ≡ true
unfolding is_default_branch get extra_codeowners.Prelude.list_beq text
on_default_branch = refl

dropped_push-IsComplete_example : IsComplete (text "p") push_payload
dropped_push-IsComplete_example =
    dropped_push-IsComplete ascii push_payload repository (text "p") (text "main") on_default_branch
      dropped_push

abbrev removal : VerifiedWebhook
removal = record {
  delivery_id = text "d2";
  event = text "installation_repositories";
  action = text "removed";
  payload =
      field (text "repositories_removed")
        (array
          (item (object (field (text "full_name") (string (text "org/app")) no_fields)) no_items))
        no_fields;
}

dropped_removal : removed_job ascii removal (text ".github") ≡ ok no_work
unfolding removed_job extra_codeowners.Prelude.list_beq text
dropped_removal = refl

dropped_removal-IsOrdinary_example :
    (items : Items) × (get (text "repositories_removed") removal.payload ≡ some (array items))
    × ((r : Json) → Memᴰ r (list_of items) → IsOrdinary ascii (text ".github") r)
dropped_removal-IsOrdinary_example =
    dropped_removal-IsOrdinary ascii removal (text ".github") dropped_removal
