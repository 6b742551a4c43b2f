-- ===== src/Webhooks/Pushes.antt =====
-- _push_authority_job of webhooks.py: which pushes fan out, and how far.
use extra_codeowners.Prelude.{
  ℕ, Bool, true, false, not, ◌&&◌, ◌||◌, List, [], ◌∷◌, ◌++◌, ltb, ◌==◌, nat_eq, list_eq,
  if◌then◌else◌, contains, ◌+◌, Option, none, some, Result, ok, ◌>>=◌,
}
use extra_codeowners.Text.{Str, text, slash, is_prefix, Unicode}
use extra_codeowners.Json.{
  Json, boolean, natural, string, array, object, Items, no_items, item, Fields, get,
}
use extra_codeowners.Webhooks.{Failure, VerifiedWebhook, Work, no_work, authority, escaping}
use extra_codeowners.Webhooks.Requests.{new_authority_request}
use extra_codeowners.Webhooks.Pulls.{dict_or, installation_id_of, repository_name}

-- s.split("/", 1)[-1]: what stands behind the first slash, or all
unfoldable pub behind_slash : Str → Option Str
behind_slash [] = none
behind_slash (c ∷ s) = let rest = behind_slash s in if c == slash then some s else rest

unfoldable pub short_name : Str → Str
unfolding behind_slash
short_name name = elim (behind_slash name) [ none ↦ name | some rest ↦ rest ]

-- s.removeprefix(p) of a text that starts with p
unfoldable pub without_prefix : Str → Str → Str
without_prefix [] s = s
without_prefix (c ∷ prefix) [] = []
without_prefix (c ∷ prefix) (x ∷ s) = without_prefix prefix s

abbrev pub heads : Str
heads = text "refs/heads/"

-- the branch of a ref that names one
unfoldable pub branch_of : Option Json → Option Str
unfolding is_prefix without_prefix
branch_of (some (string ref)) =
    if is_prefix heads ref then some (without_prefix heads ref) else none
branch_of _ = none

-- What the loop over the commits has found: whether a part was malformed, and the paths.
pub record Changes : Type 0 where
  pub malformed : Bool
  pub changed : List Str

-- the texts of a list, or none where an item is no text
unfoldable pub texts_of : Items → Option (List Str)
texts_of no_items = some []
texts_of (item (string path) items) = elim (texts_of items) [
  | none ↦ none
  | some paths ↦ some (path ∷ paths)
]
texts_of (item _ items) = none

unfoldable pub text_list : Option Json → Option (List Str)
unfolding texts_of
text_list (some (array items)) = texts_of items
text_list _ = none

-- one of "added", "modified" and "removed"
unfoldable pub add_paths : Changes → Option (List Str) → Changes
add_paths changes none = record changes { malformed = true }
add_paths changes (some paths) = record changes { changed = changes.changed ++ paths }

unfoldable pub add_commit : Changes → Json → Changes
unfolding add_paths text_list get
add_commit changes (object commit) =
    add_paths
      (add_paths (add_paths changes (text_list (get (text "added") commit)))
        (text_list (get (text "modified") commit)))
      (text_list (get (text "removed") commit))
add_commit changes _ = record changes { malformed = true }

unfoldable pub add_commits : Changes → Items → Changes
unfolding add_commit
add_commits changes no_items = changes
add_commits changes (item commit commits) = add_commits (add_commit changes commit) commits

unfoldable pub count_items : Items → ℕ
count_items no_items = 0
count_items (item value items) = 1 + count_items items

-- what the payload's commits say, and how many there are
unfoldable pub changes_of : Option Json → Changes × ℕ
unfolding add_commits count_items
changes_of (some (array commits)) =
    (add_commits (record { malformed = false; changed = [] }) commits, count_items commits)
changes_of _ = (record { malformed = true; changed = [] }, 0)

-- distinct_size is no natural number, or larger than the number of commits
unfoldable pub is_cut : ℕ → Option Json → Bool
is_cut listed (some (natural distinct_size)) = ltb listed distinct_size
is_cut listed _ = true

-- forced is not False
unfoldable pub may_be_forced : Option Json → Bool
may_be_forced (some (boolean false)) = false
may_be_forced _ = true

unfoldable pub is_truncated : Fields → Bool
unfolding get changes_of is_cut may_be_forced
is_truncated payload =
    let (changes, listed) = changes_of (get (text "commits") payload) in
    changes.malformed
    || is_cut listed (get (text "distinct_size") payload)
    || may_be_forced (get (text "forced") payload)

unfoldable pub changed_paths : Fields → List Str
unfolding get changes_of
changed_paths payload = (changes_of (get (text "commits") payload)).0.changed

-- branch != default_branch
unfoldable pub is_default_branch : Str → Option Json → Bool
is_default_branch branch (some (string default_branch)) = branch == default_branch
is_default_branch branch _ = false

-- AuthorityRequest(...) of the payload's installation
unfoldable pub authority_of : Unicode → Fields → Option Str → Option Str → Str → Result Failure Work
unfolding installation_id_of escaping new_authority_request
authority_of u payload name base_ref reason = do
  id ← installation_id_of payload
  request ← escaping (
      new_authority_request u (record {
        installation_id = id;
        repository_full_name = name;
        base_ref = base_ref;
        reason = reason;
      }))
  ok (authority request)

-- a push to the default branch of the repository that holds the organization policy
unfoldable pub organization_push : Unicode → Fields → Fields → Str → Str → Result Failure Work
unfolding get is_default_branch is_truncated contains changed_paths authority_of
organization_push u payload repository policy_path branch =
    if not (is_default_branch branch (get (text "default_branch") repository))
      || not (is_truncated payload) && not (contains (changed_paths payload) policy_path)
    then ok no_work
    else authority_of u payload none none (text "push.organization_policy")

unfoldable pub branch_push : Unicode → Fields → Str → Str → Option Str → Result Failure Work
unfolding get dict_or repository_name short_name organization_push authority_of
branch_push u payload policy_path org_config_repository none = ok no_work
branch_push u payload policy_path org_config_repository (some branch) = do
  repository ← dict_or (text "webhook omitted repository") (get (text "repository") payload)
  full_name ← repository_name u payload
  if not (short_name full_name == u.lower org_config_repository)
      then authority_of u payload (some full_name) (some branch) (text "push.repository_base")
      else organization_push u payload repository policy_path branch

-- payload.get("deleted") is True
unfoldable pub is_deleted : Option Json → Bool
is_deleted (some (boolean b)) = b
is_deleted _ = false

-- _push_authority_job
unfoldable pub push_authority_job : Unicode → VerifiedWebhook → Str → Str → Result Failure Work
unfolding get is_deleted branch_of branch_push
push_authority_job u webhook policy_path org_config_repository =
    if is_deleted (get (text "deleted") webhook.payload)
    then ok no_work
    else branch_push u webhook.payload policy_path org_config_repository
        (branch_of (get (text "ref") webhook.payload))
