-- ===== src/Webhooks/Requests.antt =====
-- The requests of database.py, with the checks of their constructors.
use extra_codeowners.Prelude.{
  ℕ, Bool, not, ◌&&◌, ◌||◌, [], ltb, leb, ◌==◌, nat_eq, list_eq, if◌then◌else◌, length, any, all,
  keep, Option, none, some, Result, ok, ◌>>=◌, ◌>>◌, refuse,
}
use extra_codeowners.Text.{Str, text, slash, strip, split, Unicode}
use extra_codeowners.Models.Normalize.{ValueError, is_dots}
use extra_codeowners.Epochs.{WorkClass, recovery, is_interactive}
use extra_codeowners.Webhooks.{JobRequest, AuthorityRequest}

-- s.count(c)
unfoldable pub count_char : ℕ → Str → ℕ
unfolding keep
count_char c s = length (keep (λ x. x == c) s)

unfoldable pub normalize_repository_full_name : Unicode → Str → Result ValueError Str
unfolding strip count_char split any is_dots
normalize_repository_full_name u value = do
  refuse
      (value == []
        || not (value == strip value)
        || ltb 512 (length value)
        || not (count_char slash value == 1)
        || any is_dots (split slash value))
      (text "repository_full_name must be a valid owner/repository name")
  ok (u.lower value)

-- ord(char) < 32 or ord(char) == 127
unfoldable pub is_control : ℕ → Bool
is_control c = ltb c 32 || c == 127

unfoldable pub validate_base_ref_hint : Option Str → Result ValueError (Option Str)
unfolding any is_control
validate_base_ref_hint none = ok none
validate_base_ref_hint (some value) = do
  refuse (value == [] || ltb 255 (length value) || any is_control value)
      (text "base_ref_hint must be a valid branch ref of at most 255 characters")
  ok (some value)

-- a character of "0123456789abcdef"
unfoldable pub is_hex_digit : ℕ → Bool
is_hex_digit c = leb b'0' c && leb c b'9' || leb b'a' c && leb c b'f'

unfoldable pub is_object_id : Str → Bool
unfolding all is_hex_digit
is_object_id value = (length value == 40 || length value == 64) && all is_hex_digit value

unfoldable pub validate_head_object : Str → Result ValueError Str
unfolding is_object_id
validate_head_object value = do
  refuse (not (is_object_id value))
      (text "head_sha must be exactly 40 or 64 lowercase ASCII hexadecimal characters")
  ok value

abbrev pub periodic_reconciliation_reason : Str
periodic_reconciliation_reason = text "periodic_reconciliation"

abbrev pub scheduled_recheck_reason : Str
scheduled_recheck_reason = text "scheduled_recheck"

unfoldable pub is_recovery_reason : Str → Bool
is_recovery_reason reason =
    reason == periodic_reconciliation_reason || reason == scheduled_recheck_reason

-- the class that the constructor keeps
unfoldable pub class_of : Str → WorkClass → WorkClass
unfolding is_recovery_reason is_interactive
class_of reason work_class =
    if is_recovery_reason reason && is_interactive work_class then recovery else work_class

-- JobRequest(...): an instant has its timezone, and a class is one of the two
unfoldable pub new_job_request : Unicode → JobRequest → Result ValueError JobRequest
unfolding normalize_repository_full_name class_of validate_base_ref_hint
new_job_request u request = do
  repository_full_name ← normalize_repository_full_name u request.repository_full_name
  hint ← validate_base_ref_hint request.base_ref_hint
  ok (record request {
    repository_full_name = repository_full_name;
    work_class = class_of request.reason request.work_class;
  })

unfoldable pub normalize_optional_name : Unicode → Option Str → Result ValueError (Option Str)
unfolding normalize_repository_full_name
normalize_optional_name u none = ok none
normalize_optional_name u (some name) = do
  normalized ← normalize_repository_full_name u name
  ok (some normalized)

-- AuthorityRequest(...)
unfoldable pub new_authority_request :
    Unicode → AuthorityRequest → Result ValueError AuthorityRequest
unfolding normalize_optional_name
new_authority_request u request = do
  repository_full_name ← normalize_optional_name u request.repository_full_name
  ok (record request { repository_full_name = repository_full_name })
