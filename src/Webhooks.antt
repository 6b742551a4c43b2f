-- ===== src/Webhooks.antt =====
-- webhooks.py, and the requests of database.py that it makes: authentication of a delivery, and the
-- work that a delivery asks for.
pub mod Requests
pub mod Verify
pub mod Pulls
pub mod Pushes
pub mod Installations
pub mod Jobs
pub mod Authentic
pub mod Requested
pub mod Pulled
pub mod Listed
pub mod Fenced
use extra_codeowners.Prelude.{ℕ, Option, none, some, Result, ok, err}
use extra_codeowners.Text.{Str}
use extra_codeowners.Json.{Fields}
use extra_codeowners.Epochs.{WorkClass}

-- A WebhookError, or another exception that the handler of the route does not catch.
pub data Failure : Type 0 where
  webhook_error value_error uncaught : Str → Failure
  type_error : Failure

-- What json.loads raises: a UnicodeDecodeError or a JSONDecodeError, which verify_webhook catches, or
-- another error, such as the ValueError on a huge integer or a RecursionError.
pub data LoadsError : Type 0 where
  undecodable : LoadsError
  other_error : Str → LoadsError

pub record VerifiedWebhook : Type 0 where
  pub delivery_id : Str
  pub event : Str
  pub action : Str
  pub payload : Fields

pub record JobRequest : Type 0 where
  pub installation_id : ℕ
  pub repository_full_name : Str
  pub pull_number : ℕ
  pub reason : Str
  pub head_sha_hint : Option Str
  pub work_class : WorkClass
  pub observed_at : Option ℕ
  pub base_ref_hint : Option Str

pub record AuthorityRequest : Type 0 where
  pub installation_id : ℕ
  pub repository_full_name : Option Str
  pub base_ref : Option Str
  pub reason : Str

-- JobRequest | AuthorityRequest | None
pub data Work : Type 0 where
  no_work : Work
  job : JobRequest → Work
  authority : AuthorityRequest → Work

-- try: ... except ValueError as error: raise WebhookError(message) from error
unfoldable pub value_error_as {ℓ} : {A : Type ℓ} → Str → Result Str A → Result Failure A
value_error_as message (ok a) = ok a
value_error_as message (err e) = err (webhook_error message)

-- a ValueError that nothing catches
unfoldable pub escaping {ℓ} : {A : Type ℓ} → Result Str A → Result Failure A
escaping (ok a) = ok a
escaping (err message) = err (value_error message)
