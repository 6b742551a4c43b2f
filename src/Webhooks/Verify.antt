-- ===== src/Webhooks/Verify.antt =====
-- verify_webhook of webhooks.py. The hexadecimal HMAC-SHA256 and json.loads are parameters, and a
-- body is the list of its bytes.
use extra_codeowners.Prelude.{
  ℕ, Bool, true, not, ◌||◌, List, [], ◌++◌, ltb, leb, ◌==◌, nat_eq, list_eq, length, any, Option,
  none, some, Result, ok, err, ◌>>=◌, ◌>>◌, refuse,
}
use extra_codeowners.Text.{Str, text, is_prefix}
use extra_codeowners.Json.{Json, object, string, Fields, get}
use extra_codeowners.Webhooks.{
  LoadsError, undecodable, other_error, uncaught, Failure, webhook_error, type_error,
  VerifiedWebhook,
}

abbrev pub max_webhook_bytes : ℕ
max_webhook_bytes = 10485760

-- not value, of an optional text
unfoldable pub is_blank : Option Str → Bool
is_blank none = true
is_blank (some s) = s == []

unfoldable pub value_or_empty : Option Str → Str
value_or_empty none = []
value_or_empty (some s) = s

-- hmac.compare_digest of two texts, which have to be ASCII
unfoldable pub compare_digest : Str → Str → Result Failure Bool
unfolding any
compare_digest expected signature = do
  refuse (any (leb 128) expected || any (leb 128) signature) type_error
  ok (expected == signature)

unfoldable pub action_of : Fields → Result Failure Str
unfolding get
action_of fields = elim (get (text "action") fields) [
  | none ↦ ok []
  | some (string s) ↦ ok s
  | some _ ↦ err (webhook_error (text "webhook action must be a string"))
]

unfoldable pub object_root : Result LoadsError Json → Result Failure Fields
object_root (err undecodable) = err (webhook_error (text "webhook body is not valid JSON"))
object_root (err (other_error message)) = err (uncaught message)
object_root (ok (object fields)) = ok fields
object_root (ok _) = err (webhook_error (text "webhook JSON root must be an object"))

module _ (hexdigest : Str → List ℕ → Str) (loads : List ℕ → Result LoadsError Json) where
  -- the part behind the comparison of the signature
  unfoldable pub parse_body : List ℕ → Str → Str → Result Failure VerifiedWebhook
  unfolding object_root action_of
  parse_body body delivery_id event = do
    payload ← object_root (loads body)
    action ← action_of payload
    ok (record { delivery_id = delivery_id; event = event; action = action; payload = payload })

  unfoldable pub verify_webhook :
      List ℕ → Option Str → Option Str → Option Str → Str → Result Failure VerifiedWebhook
  unfolding is_blank value_or_empty is_prefix compare_digest parse_body
  verify_webhook body signature delivery_id event secret = do
    refuse (ltb max_webhook_bytes (length body))
        (webhook_error (text "webhook payload exceeds the 10 MiB limit"))
    refuse (is_blank signature || not (is_prefix (text "sha256=") (value_or_empty signature)))
        (webhook_error (text "missing or malformed X-Hub-Signature-256"))
    refuse (is_blank delivery_id || ltb 128 (length (value_or_empty delivery_id)))
        (webhook_error (text "missing or malformed X-GitHub-Delivery"))
    refuse (is_blank event || ltb 128 (length (value_or_empty event)))
        (webhook_error (text "missing or malformed X-GitHub-Event"))
    same ← compare_digest (text "sha256=" ++ hexdigest secret body) (value_or_empty signature)
    refuse (not same) (webhook_error (text "webhook signature mismatch"))
    parse_body body (value_or_empty delivery_id) (value_or_empty event)
