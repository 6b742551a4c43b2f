-- ===== src/Evaluator/Reviews.antt =====
-- Which reviews, applications, people and paths an evaluation considers.
use extra_codeowners.Prelude.{
  ℕ, Bool, true, false, not, ◌&&◌, ◌||◌, List, [], ◌∷◌, ◌++◌, ltb, ◌==◌, ◌≡◌, ◌↔◌, arith, nat_eq,
  list_eq, if◌then◌else◌, Option, none, some, Equality, unique, sort, Dict, lookup, assign, values,
}
use extra_codeowners.Text.{Str, text, decimal, Unicode}
use extra_codeowners.Models.Policies.{EnrolledApplication, OrganizationPolicy}
use extra_codeowners.Models.Evidence.{
  ActorKind, human, application, kind_beq, ReviewActor, ReviewState, approved, changes_requested,
  dismissed, PullRequestReview, ChangedFile, EvaluationInput,
}
use extra_codeowners.Models.Results.{EvaluationMessage}

-- state in _OPINIONATED_STATES
unfoldable pub is_opinionated : ReviewState → Bool
is_opinionated approved = true
is_opinionated changes_requested = true
is_opinionated dismissed = true
is_opinionated _ = false

unfoldable pub is_approved : ReviewState → Bool
is_approved approved = true
is_approved _ = false

-- (review.actor.kind, review.actor.user_id)
pub record ActorKey : Type 0 where
  pub kind : ActorKind
  pub user_id : ℕ

abbrev pub actor_key : PullRequestReview → ActorKey
actor_key review = record { kind = review.actor.kind; user_id = review.actor.user_id }

unfoldable pub key_beq : ActorKey → ActorKey → Bool
unfolding kind_beq
key_beq a b = kind_beq a.kind b.kind && a.user_id == b.user_id

pub key_beq_iff : (a b : ActorKey) → (key_beq a b ≡ true) ↔ (a ≡ b)
unfolding key_beq
key_beq_iff a b = (λ h. ground arith, λ h. ground arith)

instance abbrev pub key_eq : Equality ActorKey
key_eq = record { equals = key_beq; equals_iff = key_beq_iff }

-- (a.submitted_at, a.review_id) > (b.submitted_at, b.review_id)
unfoldable pub is_newer : PullRequestReview → PullRequestReview → Bool
is_newer a b =
    ltb b.submitted_at a.submitted_at
    || b.submitted_at == a.submitted_at && ltb b.review_id a.review_id

abbrev pub Latest : Type 0
Latest = Dict ActorKey PullRequestReview

-- previous is None or ordering > ...
unfoldable pub supersedes : PullRequestReview → Option PullRequestReview → Bool
unfolding is_newer
supersedes review none = true
supersedes review (some previous) = is_newer review previous

unfoldable pub keep_latest : Latest → PullRequestReview → Latest
unfolding supersedes is_opinionated
keep_latest latest review =
    if not (is_opinionated review.state)
    then latest
    else if supersedes review (lookup (actor_key review) latest)
    then assign (actor_key review) review latest
    else latest

-- the loop over `reviews`
unfoldable pub latest_from : Latest → List PullRequestReview → Latest
unfolding keep_latest
latest_from latest [] = latest
latest_from latest (review ∷ reviews) = latest_from (keep_latest latest review) reviews

-- the order of the sort key
unfoldable pub review_le : PullRequestReview → PullRequestReview → Bool
unfolding is_newer
review_le a b = not (is_newer a b)

unfoldable pub latest_opinionated_reviews : List PullRequestReview → List PullRequestReview
unfolding latest_from review_le
latest_opinionated_reviews reviews = sort review_le (values (latest_from [] reviews))

unfoldable pub paths_of : ChangedFile → Option Str → List Str
paths_of file none = file.path ∷ []
paths_of file (some previous_path) = previous_path ∷ file.path ∷ []

unfoldable pub all_paths : List ChangedFile → List Str
unfolding paths_of
all_paths [] = []
all_paths (file ∷ files) = paths_of file file.previous_path ++ all_paths files

unfoldable pub evaluation_paths : EvaluationInput → List Str
unfolding all_paths
evaluation_paths input = unique (all_paths input.changed_files)

-- review.commit_sha != data.head_sha
unfoldable pub is_at : Str → Option Str → Bool
is_at head_sha none = false
is_at head_sha (some sha) = sha == head_sha

unfoldable pub stale_approval : PullRequestReview → EvaluationMessage
stale_approval review = record {
  code = text "stale_approval_ignored";
  message =
      text "approval "
      ++ (decimal review.review_id
          ++ (text " from @"
              ++ (review.actor.login ++ text " does not target the current pull request head")));
}

-- exact_head_reviews and review.commit_sha != data.head_sha
unfoldable pub is_stale : EvaluationInput → PullRequestReview → Bool
unfolding is_at
is_stale input review =
    input.options.exact_head_reviews && not (is_at input.head_sha review.commit_sha)

unfoldable pub approvals_from : EvaluationInput → List PullRequestReview → List PullRequestReview
unfolding is_stale is_approved
approvals_from input [] = []
approvals_from input (review ∷ reviews) =
    let rest = approvals_from input reviews in
    if not (is_approved review.state)
    then rest
    else if is_stale input review
    then rest
    else review ∷ rest

unfoldable pub stale_warnings : EvaluationInput → List PullRequestReview → List EvaluationMessage
unfolding is_stale is_approved
stale_warnings input [] = []
stale_warnings input (review ∷ reviews) =
    let rest = stale_warnings input reviews in
    if not (is_approved review.state)
    then rest
    else if is_stale input review
    then stale_approval review ∷ rest
    else rest

-- the two parts of the pair that `_current_approvals` returns
unfoldable pub current_approvals : EvaluationInput → List PullRequestReview
unfolding approvals_from
current_approvals input = approvals_from input (latest_opinionated_reviews input.reviews)

unfoldable pub approval_warnings : EvaluationInput → List EvaluationMessage
unfolding stale_warnings
approval_warnings input = stale_warnings input (latest_opinionated_reviews input.reviews)

unfoldable pub is_some_equal {ℓ} : {A : Type ℓ} ⦃e : Equality A⦄ → A → Option A → Bool
is_some_equal a none = false
is_some_equal a (some b) = a == b

-- the condition on one enrolled application
unfoldable pub is_enrolled_as : ReviewActor → EnrolledApplication → Bool
unfolding is_some_equal
is_enrolled_as actor enrolled =
    is_some_equal enrolled.app_id actor.app_id
    && is_some_equal enrolled.slug actor.app_slug
    && enrolled.bot_user_id == actor.user_id
    && actor.login == enrolled.slug ++ text "[bot]"

-- next((alias for ...), None)
unfoldable pub find_alias : ReviewActor → Dict Str EnrolledApplication → Option Str
unfolding is_enrolled_as
find_alias actor [] = none
find_alias actor ((alias, enrolled) ∷ apps) =
    if is_enrolled_as actor enrolled then some alias else find_alias actor apps

unfoldable pub untrusted_application : PullRequestReview → EvaluationMessage
untrusted_application review = record {
  code = text "untrusted_application_review_ignored";
  message =
      text "approval "
      ++ (decimal review.review_id
          ++ (text " from @"
              ++ (review.actor.login
                  ++ (text " did not match an "
                      ++ text "organization-enrolled app_id, slug, bot login, and bot_user_id"))));
}

unfoldable pub is_application : ActorKind → Bool
is_application application = true
is_application human = false

unfoldable pub push_alias : Option Str → List Str → List Str
push_alias none aliases = aliases
push_alias (some alias) aliases = alias ∷ aliases

-- the set of aliases; a set is a list whose order and repetitions nothing reads
unfoldable pub recognized_apps : OrganizationPolicy → List PullRequestReview → List Str
unfolding push_alias find_alias is_application
recognized_apps policy [] = []
recognized_apps policy (review ∷ approvals) =
    let rest = recognized_apps policy approvals in
    if is_application review.actor.kind
    then push_alias (find_alias review.actor policy.apps) rest
    else rest

unfoldable pub warn_unknown : PullRequestReview → Option Str → List EvaluationMessage
warn_unknown review none = untrusted_application review ∷ []
warn_unknown review (some alias) = []

unfoldable pub app_warnings : OrganizationPolicy → List PullRequestReview → List EvaluationMessage
unfolding warn_unknown
app_warnings policy [] = []
app_warnings policy (review ∷ approvals) =
    let rest = app_warnings policy approvals in
    if is_application review.actor.kind
    then warn_unknown review (find_alias review.actor policy.apps) ++ rest
    else rest

-- `_human_owner_identities`
unfoldable pub human_owner_identities : Unicode → Str → List Str → Bool → List Str
human_owner_identities u login owner_aliases direct_owner_eligible =
    if direct_owner_eligible then (b'@' ∷ u.lower login) ∷ owner_aliases else owner_aliases

abbrev pub identities_of : Unicode → PullRequestReview → List Str
identities_of u review =
    human_owner_identities u review.actor.login review.actor.owner_aliases
      review.actor.direct_owner_eligible

-- `_human_approvals_by_owner`: each human review beside the identities of its actor
unfoldable pub human_approvals_by_owner :
    Unicode → List PullRequestReview → List (PullRequestReview × List Str)
unfolding is_application
human_approvals_by_owner u [] = []
human_approvals_by_owner u (review ∷ approvals) =
    let rest = human_approvals_by_owner u approvals in
    if is_application review.actor.kind then rest else (review, identities_of u review) ∷ rest
