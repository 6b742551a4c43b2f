-- ===== src/Webhooks/Pulls.antt =====
-- The parts of a payload, and the jobs that pull requests and Check Runs ask for, from webhooks.py.
use extra_codeowners.Prelude.{
  ℕ, Bool, true, false, not, ◌&&◌, ◌||◌, [], ◌++◌, ◌==◌, nat_eq, list_eq, if◌then◌else◌, any,
  Option, none, some, Result, ok, err, ◌>>=◌, ◌>>◌, refuse,
}
use extra_codeowners.Text.{Str, text, slash, split, Unicode}
use extra_codeowners.Json.{
  Json, natural, real, string, array, object, no_items, item, Fields, get, is_truthy,
}
use extra_codeowners.Epochs.{interactive}
use extra_codeowners.Webhooks.{
  Failure, webhook_error, type_error, VerifiedWebhook, Work, no_work, job, value_error_as, escaping,
}
use extra_codeowners.Webhooks.Requests.{
  count_char, validate_base_ref_hint, validate_head_object, new_job_request,
}

-- the fields of a dict, where the value is one
unfoldable pub dict_of : Option Json → Option Fields
dict_of (some (object fields)) = some fields
dict_of _ = none

unfoldable pub dict_or : Str → Option Json → Result Failure Fields
dict_or message (some (object fields)) = ok fields
dict_or message _ = err (webhook_error message)

-- _positive_int
unfoldable pub positive_int : Str → Option Json → Result Failure ℕ
positive_int field (some (natural n)) = do
  refuse (n == 0) (webhook_error (text "webhook " ++ (field ++ text " must be a positive integer")))
  ok n
positive_int field _ =
    err (webhook_error (text "webhook " ++ (field ++ text " must be a positive integer")))

unfoldable pub full_name_of : Option Json → Result Failure Str
unfolding get
full_name_of (some (object repository)) = elim (get (text "full_name") repository) [
  | some (string full_name) ↦ ok full_name
  | _ ↦ err (webhook_error (text "webhook omitted repository.full_name"))
]
full_name_of _ = err (webhook_error (text "webhook omitted repository.full_name"))

-- a name with one slash and a text on both sides
unfoldable pub is_full_name : Str → Bool
unfolding count_char split any
is_full_name name = count_char slash name == 1 && not (any (λ part. part == []) (split slash name))

-- _repository_name
unfoldable pub repository_name : Unicode → Fields → Result Failure Str
unfolding get full_name_of is_full_name
repository_name u payload = do
  full_name ← full_name_of (get (text "repository") payload)
  refuse (not (is_full_name full_name))
      (webhook_error (text "webhook repository.full_name must be owner/repository"))
  ok (u.lower full_name)

-- _installation_id
unfoldable pub installation_id_of : Fields → Result Failure ℕ
unfolding get dict_or positive_int
installation_id_of payload = do
  installation ← dict_or (text "webhook omitted installation") (get (text "installation") payload)
  positive_int (text "installation.id") (get (text "id") installation)

-- _head_sha
unfoldable pub head_sha_of : Str → Option Json → Result Failure Str
unfolding value_error_as validate_head_object
head_sha_of field (some (string value)) =
    value_error_as
      (text "webhook "
        ++ (field ++ text " must be exactly 40 or 64 lowercase hexadecimal characters"))
      (validate_head_object value)
head_sha_of field _ =
    err
      (webhook_error (text "webhook " ++ (field ++ text " must be a non-empty commit identifier")))

-- pull_state not in {"open", "closed"}: a list or a dict has no hash
unfoldable pub is_closed : Option Json → Result Failure Bool
is_closed (some (string state)) = do
  refuse (not (state == text "open" || state == text "closed"))
      (webhook_error (text "webhook pull_request.state must be open or closed"))
  ok (state == text "closed")
is_closed (some (array items)) = err type_error
is_closed (some (object entries)) = err type_error
is_closed _ = err (webhook_error (text "webhook pull_request.state must be open or closed"))

-- a or b, of two optional values
unfoldable pub first_true : Option Json → Option Json → Option Json
unfolding is_truthy
first_true none other = other
first_true (some value) other = if is_truthy value then some value else other

-- the scheduling hint: what is malformed counts as missing
unfoldable pub hint_of_base : Option Json → Option Str
unfolding get dict_of validate_base_ref_hint
hint_of_base base = elim (dict_of base) [
  | none ↦ none
  | some fields ↦ elim (get (text "ref") fields) [
    | some (string ref) ↦ elim (validate_base_ref_hint (some ref)) [ ok hint ↦ hint | err e ↦ none ]
    | _ ↦ none
  ]
]

-- f"{event}.{action or 'received'}"
unfoldable pub reason_of : Str → Str → Str
reason_of event action = event ++ (text "." ++ (if action == [] then text "received" else action))

-- JobRequest(...) of one head, with the defaults of its other fields
unfoldable pub head_job : Unicode → Fields → ℕ → Str → Str → Option Str → Result Failure Work
unfolding installation_id_of repository_name escaping new_job_request
head_job u payload number reason sha hint = do
  id ← installation_id_of payload
  name ← repository_name u payload
  request ← escaping (
      new_job_request u (record {
        installation_id = id;
        repository_full_name = name;
        pull_number = number;
        reason = reason;
        head_sha_hint = some sha;
        work_class = interactive;
        observed_at = none;
        base_ref_hint = hint;
      }))
  ok (job request)

-- the part of the next function behind the test of the state
unfoldable pub current_pull_job : Unicode → VerifiedWebhook → Fields → Result Failure Work
unfolding get first_true positive_int dict_or head_sha_of hint_of_base reason_of head_job
current_pull_job u webhook pull = do
  number ←
      positive_int (text "pull number")
        (first_true (get (text "number") pull) (get (text "number") webhook.payload))
  head ← dict_or (text "webhook omitted pull_request.head") (get (text "head") pull)
  sha ← head_sha_of (text "pull_request.head.sha") (get (text "sha") head)
  head_job u webhook.payload number (reason_of webhook.event webhook.action) sha
      (hint_of_base (get (text "base") pull))

-- _pull_request_job
unfoldable pub pull_request_job : Unicode → VerifiedWebhook → Bool → Result Failure Work
unfolding get dict_or is_closed current_pull_job
pull_request_job u webhook allow_closed = do
  pull ← dict_or (text "webhook omitted pull_request") (get (text "pull_request") webhook.payload)
  closed ← is_closed (get (text "state") pull)
  if closed && not allow_closed then ok no_work else current_pull_job u webhook pull

-- source_id is no bool and equals the number, which a float may do
unfoldable pub is_id : ℕ → Option Json → Bool
is_id expected (some (natural n)) = n == expected
is_id expected (some (real (some n))) = n == expected
is_id expected _ = false

unfoldable pub is_from_app : Option ℕ → Fields → Bool
unfolding get dict_of is_id
is_from_app none check_run = true
is_from_app (some expected) check_run = elim (dict_of (get (text "app") check_run)) [
  | none ↦ false
  | some source ↦ is_id expected (get (text "id") source)
]

-- requested_action.get("identifier") == "re-evaluate"
unfoldable pub asks_again : Fields → Bool
unfolding get dict_of
asks_again payload = elim (dict_of (get (text "requested_action") payload)) [
  | none ↦ false
  | some action ↦ elim (get (text "identifier") action) [
    | some (string identifier) ↦ identifier == text "re-evaluate"
    | _ ↦ false
  ]
]

-- the only item of a list of one dict
unfoldable pub single_dict : Option Json → Option Fields
single_dict (some (array (item (object fields) no_items))) = some fields
single_dict _ = none

abbrev pub requested_action : Str
requested_action = text "requested_action"

unfoldable pub check_pull_job :
    Unicode → VerifiedWebhook → Fields → Option Fields → Result Failure Work
unfolding get positive_int head_sha_of head_job
check_pull_job u webhook check_run none = ok no_work
check_pull_job u webhook check_run (some pull) = do
  number ← positive_int (text "check_run pull number") (get (text "number") pull)
  sha ← head_sha_of (text "check_run.head_sha") (get (text "head_sha") check_run)
  head_job u webhook.payload number
      (if webhook.action == requested_action
        then text "check_run.requested_action.re-evaluate"
        else text "check_run.rerequested")
      sha none

-- _check_run_job
unfoldable pub check_run_job : Unicode → VerifiedWebhook → Option ℕ → Result Failure Work
unfolding get dict_or is_from_app asks_again single_dict check_pull_job
check_run_job u webhook expected_app_id = do
  check_run ← dict_or (text "webhook omitted check_run") (get (text "check_run") webhook.payload)
  if not (is_from_app expected_app_id check_run)
        || webhook.action == requested_action && not (asks_again webhook.payload)
      then ok no_work
      else check_pull_job u webhook check_run (single_dict (get (text "pull_requests") check_run))
