-- ===== src/Webhooks/Installations.antt =====
-- The parts of evaluation_job of webhooks.py on repositories and installations.
use extra_codeowners.Prelude.{
  ℕ, Bool, true, false, not, ◌&&◌, ◌||◌, [], ◌∷◌, ◌++◌, leb, ◌==◌, nat_eq, list_eq, option_eq,
  if◌then◌else◌, length, all, contains, Option, none, some, Result, ok, ◌>>=◌,
}
use extra_codeowners.Text.{Str, text, slash, Unicode}
use extra_codeowners.Json.{Json, natural, string, array, object, Items, no_items, item, Fields, get}
use extra_codeowners.Webhooks.{Failure, VerifiedWebhook, Work, no_work}
use extra_codeowners.Webhooks.Pulls.{dict_of, dict_or, single_dict, is_full_name, repository_name}
use extra_codeowners.Webhooks.Pushes.{short_name, authority_of}

-- the two regular expressions of a login and of a repository's name
unfoldable pub is_login_char : ℕ → Bool
is_login_char c = leb b'A' c && leb c b'Z' || leb b'a' c && leb c b'z' || leb b'0' c && leb c b'9'

unfoldable pub is_login : Str → Bool
unfolding all is_login_char
is_login [] = false
is_login (c ∷ s) = is_login_char c && all (λ x. is_login_char x || x == b'-') s && leb (length s) 38

unfoldable pub is_repository_name : Str → Bool
unfolding all is_login_char
is_repository_name s =
    leb 1 (length s)
    && leb (length s) 100
    && all (λ x. is_login_char x || x == b'_' || x == b'.' || x == b'-') s
    && not (s == b'.' ∷ [] || s == b'.' ∷ b'.' ∷ [])

-- a field that has to be a text, or an integer above zero
unfoldable pub text_field : Str → Fields → Option Str
unfolding get
text_field key fields = elim (get key fields) [ some (string s) ↦ some s | _ ↦ none ]

unfoldable pub has_positive_id : Fields → Bool
unfolding get
has_positive_id repository = elim (get (text "id") repository) [
  | some (natural n) ↦ not (n == 0)
  | _ ↦ false
]

-- payload.get("repositories_removed") == []
unfoldable pub is_empty_list : Option Json → Bool
is_empty_list (some (array no_items)) = true
is_empty_list _ = false

-- the last test of the next function, on the fields that are texts
unfoldable pub named_repository :
    Unicode → Str → Fields → Option Str → Option Str → Option Str → Option Str
unfolding is_login is_repository_name has_positive_id
named_repository u org_config_repository repository (some login) (some name) (some full_name) =
    if is_login login
      && is_repository_name name
      && u.lower full_name == u.lower (login ++ (slash ∷ name))
      && has_positive_id repository
      && not (u.lower name == u.lower org_config_repository)
    then some (u.lower full_name)
    else none
named_repository u org_config_repository repository _ _ _ = none

unfoldable pub login_of_account : Fields → Option Str
unfolding get dict_of text_field
login_of_account payload = elim (dict_of (get (text "installation") payload)) [
  | none ↦ none
  | some installation ↦ elim (dict_of (get (text "account") installation)) [
    | none ↦ none
    | some account ↦ text_field (text "login") account
  ]
]

-- _single_added_repository
unfoldable pub single_added_repository : Unicode → Fields → Str → Option Str
unfolding get single_dict is_empty_list login_of_account text_field named_repository
single_added_repository u payload org_config_repository =
    elim (single_dict (get (text "repositories_added") payload)) [
      | none ↦ none
      | some repository ↦
          if is_empty_list (get (text "repositories_removed") payload)
          then named_repository u org_config_repository repository (login_of_account payload)
              (text_field (text "name") repository) (text_field (text "full_name") repository)
          else none
    ]

-- s.rsplit("/", 1)[-1]
unfoldable pub behind_last_slash : Str → Option Str
behind_last_slash [] = none
behind_last_slash (c ∷ s) = elim (behind_last_slash s) [
  | some rest ↦ some rest
  | none ↦ if c == slash then some s else none
]

unfoldable pub last_name : Str → Str
unfolding behind_last_slash
last_name name = elim (behind_last_slash name) [ none ↦ name | some rest ↦ rest ]

-- a repository of the list is malformed, or the one that holds the organization policy
unfoldable pub is_policy_source : Unicode → Str → Json → Bool
unfolding text_field is_full_name last_name
is_policy_source u org_config_repository (object repository) =
    elim (text_field (text "full_name") repository) [
      | none ↦ true
      | some full_name ↦
          not (is_full_name full_name)
          || u.lower (last_name full_name) == u.lower org_config_repository
    ]
is_policy_source u org_config_repository _ = true

unfoldable pub any_policy_source : Unicode → Str → Items → Bool
unfolding is_policy_source
any_policy_source u org_config_repository no_items = false
any_policy_source u org_config_repository (item repository rest) =
    is_policy_source u org_config_repository repository
    || any_policy_source u org_config_repository rest

-- malformed or organization_policy_removed
unfoldable pub loses_policy : Unicode → Str → Option Json → Bool
unfolding any_policy_source
loses_policy u org_config_repository (some (array no_items)) = true
loses_policy u org_config_repository (some (array (item repository rest))) =
    any_policy_source u org_config_repository (item repository rest)
loses_policy u org_config_repository _ = true

unfoldable pub added_job : Unicode → VerifiedWebhook → Str → Result Failure Work
unfolding single_added_repository authority_of
added_job u webhook org_config_repository =
    authority_of u webhook.payload (single_added_repository u webhook.payload org_config_repository)
      none (text "installation_repositories.added")

unfoldable pub removed_job : Unicode → VerifiedWebhook → Str → Result Failure Work
unfolding get loses_policy authority_of
removed_job u webhook org_config_repository =
    if loses_policy u org_config_repository (get (text "repositories_removed") webhook.payload)
    then authority_of u webhook.payload none none (text "installation_repositories.removed")
    else ok no_work

-- the name that the repository had before, and whether its default branch changed
unfoldable pub previous_name : Option Json → Option Str
unfolding dict_of get text_field
previous_name changes = elim (dict_of changes) [
  | none ↦ none
  | some fields ↦ elim (dict_of (get (text "repository") fields)) [
    | none ↦ none
    | some change ↦ elim (dict_of (get (text "name") change)) [
      | none ↦ none
      | some name ↦ text_field (text "from") name
    ]
  ]
]

unfoldable pub default_branch_changed : Option Json → Bool
unfolding dict_of get
default_branch_changed changes = elim (dict_of changes) [
  | none ↦ false
  | some fields ↦ elim (get (text "default_branch") fields) [ none ↦ false | some value ↦ true ]
]

-- the repository holds the organization policy, or did under its former name
unfoldable pub affects_policy : Unicode → Str → Str → Option Str → Bool
unfolding short_name
affects_policy u org_config_repository full_name former =
    short_name full_name == u.lower org_config_repository
    || elim former [ none ↦ false | some name ↦ u.lower name == u.lower org_config_repository ]

-- the actions that fence the whole installation
unfoldable pub fences_installation : Str → Bool → Bool → Bool
unfolding contains
fences_installation action affected branch_changed =
    affected
      && (contains (text "deleted" ∷ text "renamed" ∷ text "transferred" ∷ []) action
          || action == text "edited" && branch_changed)
    || contains (text "renamed" ∷ text "transferred" ∷ text "unarchived" ∷ []) action

unfoldable pub repository_job : Unicode → VerifiedWebhook → Str → Result Failure Work
unfolding get dict_or repository_name previous_name default_branch_changed affects_policy
    fences_installation authority_of
repository_job u webhook org_config_repository = do
  repository ← dict_or (text "webhook omitted repository") (get (text "repository") webhook.payload)
  full_name ← repository_name u webhook.payload
  let changes = get (text "changes") webhook.payload
  let affected = affects_policy u org_config_repository full_name (previous_name changes)
  if fences_installation webhook.action affected (default_branch_changed changes)
      then authority_of u webhook.payload none none (text "repository." ++ webhook.action)
      else ok no_work
