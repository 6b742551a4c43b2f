-- ===== src/Policy/Decision.antt =====
-- The decisions about one path: DelegationDecision, CompiledDelegation and CompiledPolicy of
-- policy.py.
use extra_codeowners.Prelude.{
  Bool, true, false, not, ◌&&◌, ◌||◌, List, [], ◌∷◌, ◌++◌, list_eq, nat_eq, if◌then◌else◌, Option,
  none, some, any, keep, contains, intersects, unique, Dict, lookup, assign, map, sort, text_le,
  Result, ok, traverse, ◌>>=◌,
}
use extra_codeowners.Text.{Str, text, join}
use extra_codeowners.Regex.{Regex, fullmatch}
use extra_codeowners.Models.Normalize.{ValueError, normalize_repository_path}
use extra_codeowners.Models.Policies.{
  EnrolledApplication, OrganizationPolicy, Delegation, RepositoryPolicy, star,
}
use extra_codeowners.Codeowners.Pattern.{compile_pattern}

pub record DelegationDecision : Type 0 where
  pub app_alias : Str
  pub eligible : Bool
  pub reasons : List Str

pub record CompiledDelegation : Type 0 where
  pub rule : Delegation
  pub application : EnrolledApplication
  pub path_patterns : List Regex

-- the constructor and its __post_init__
unfoldable pub new_delegation :
    Delegation → EnrolledApplication → Result ValueError CompiledDelegation
new_delegation rule application = do
  path_patterns ← traverse compile_pattern rule.paths
  ok (record { rule = rule; application = application; path_patterns = path_patterns })

-- any(pattern.fullmatch(path) for pattern in patterns)
unfoldable pub any_match : List Regex → Str → Bool
any_match patterns path = any (λ regex. fullmatch regex path) patterns

-- "*" in for_owners or bool(owners & set(for_owners))
unfoldable pub owner_matches : Delegation → List Str → Bool
owner_matches rule owners = contains rule.for_owners star || intersects owners rule.for_owners

unfoldable pub applies_to_path_and_owners :
    CompiledDelegation → Str → List Str → Result ValueError Bool
unfolding any_match owner_matches
applies_to_path_and_owners delegation path owners = do
  normalized_path ← normalize_repository_path path
  ok (any_match delegation.path_patterns normalized_path && owner_matches delegation.rule owners)

unfoldable pub missing_labels : Delegation → List Str → List Str
missing_labels rule labels = keep (λ label. not (contains labels label)) rule.required_labels

unfoldable pub forbidden_present : Delegation → List Str → List Str
forbidden_present rule labels = keep (λ label. contains labels label) rule.forbidden_labels

-- a sentence about the labels, if there are any
unfoldable pub label_reason : Str → List Str → List Str
label_reason message [] = []
label_reason message (label ∷ labels) =
    (message ++ join (text ", ") (sort text_le (label ∷ labels))) ∷ []

unfoldable pub is_nil {ℓ} : {A : Type ℓ} → List A → Bool
is_nil [] = true
is_nil (x ∷ xs) = false

unfoldable pub label_decision : Delegation → List Str → DelegationDecision
unfolding label_reason missing_labels forbidden_present is_nil
label_decision rule labels =
    let reasons =
      label_reason (text "missing required labels: ") (missing_labels rule labels)
      ++ label_reason (text "forbidden labels present: ") (forbidden_present rule labels) in
    record { app_alias = rule.app; eligible = is_nil reasons; reasons = reasons }

unfoldable pub decide :
    CompiledDelegation → Str → List Str → List Str → Result ValueError (Option DelegationDecision)
unfolding applies_to_path_and_owners label_decision
decide delegation path owners labels = do
  applies ← applies_to_path_and_owners delegation path owners
  ok (if applies then some (label_decision delegation.rule labels) else none)

pub record CompiledPolicy : Type 0 where
  pub repository : RepositoryPolicy
  pub organization : OrganizationPolicy
  pub delegations : List CompiledDelegation
  pub non_delegable_patterns : List Str
  pub non_delegable_regexes : List Regex

unfoldable pub is_non_delegable : CompiledPolicy → Str → Result ValueError Bool
unfolding any_match
is_non_delegable policy path = do
  normalized_path ← normalize_repository_path path
  ok (any_match policy.non_delegable_regexes normalized_path)

-- [decision for ... if decision is not None]
unfoldable pub somes {ℓ} : {A : Type ℓ} → List (Option A) → List A
somes [] = []
somes (none ∷ xs) = somes xs
somes (some x ∷ xs) = x ∷ somes xs

-- d.setdefault(k, []).append(v)
unfoldable pub append_at :
    Option (List DelegationDecision) → DelegationDecision → List DelegationDecision
append_at none decision = decision ∷ []
append_at (some decisions) decision = decisions ++ decision ∷ []

unfoldable pub group_by_app :
    Dict Str (List DelegationDecision)
    → List DelegationDecision
    → Dict Str (List DelegationDecision)
unfolding append_at
group_by_app by_app [] = by_app
group_by_app by_app (decision ∷ decisions) =
    let key = decision.app_alias in
    group_by_app (assign key (append_at (lookup key by_app) decision) by_app) decisions

-- the reasons of all decisions, in order
unfoldable pub all_reasons : List DelegationDecision → List Str
all_reasons [] = []
all_reasons (decision ∷ decisions) = decision.reasons ++ all_reasons decisions

unfoldable pub coalesce : Str × List DelegationDecision → DelegationDecision
coalesce (alias, decisions) =
    if any (λ decision. decision.eligible) decisions
    then record { app_alias = alias; eligible = true; reasons = [] }
    else record { app_alias = alias; eligible = false; reasons = unique (all_reasons decisions) }

-- The keys are distinct, so the order of the items is that of the keys.
unfoldable pub alias_le : Str × List DelegationDecision → Str × List DelegationDecision → Bool
alias_le (a, xs) (b, ys) = text_le a b

unfoldable pub delegation_decisions :
    CompiledPolicy → Str → List Str → List Str → Result ValueError (List DelegationDecision)
unfolding group_by_app coalesce somes
delegation_decisions policy path owners labels = do
  decisions ← traverse (λ delegation. decide delegation path owners labels) policy.delegations
  ok (map coalesce (sort alias_le (group_by_app [] (somes decisions))))
