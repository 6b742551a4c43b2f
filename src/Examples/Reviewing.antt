-- ===== src/Examples/Reviewing.antt =====
-- Reviews of one actor at concrete times.
use extra_codeowners.Prelude.{ℕ, true, false, List, [], ◌∷◌, ◌≡◌, refl, none, some}
use extra_codeowners.Text.{text}
use extra_codeowners.Models.Evidence.{
  ReviewActor, human, ReviewState, approved, changes_requested, PullRequestReview,
}
use extra_codeowners.Evaluator.Reviews
use extra_codeowners.Evaluator.Reviews.{latest_opinionated_reviews}
use extra_codeowners.Evaluator.LatestReviews.{LatestOf, latest_opinionated_reviews-LatestOf}

abbrev ann : ReviewActor
ann = record {
  kind = human;
  login = text "ann";
  user_id = 3;
  app_id = none;
  app_slug = none;
  owner_aliases = [];
  direct_owner_eligible = true;
}

abbrev review : ℕ → ReviewState → ℕ → PullRequestReview
review n state at = record {
  review_id = n;
  actor = ann;
  state = state;
  commit_sha = none;
  submitted_at = at;
}

-- the request for changes is newer than the approval, and was read first
abbrev reviews : List PullRequestReview
reviews = review 2 changes_requested 20 ∷ review 1 approved 10 ∷ []

latest_opinionated_reviews-LatestOf_example : LatestOf reviews (latest_opinionated_reviews reviews)
latest_opinionated_reviews-LatestOf_example = latest_opinionated_reviews-LatestOf reviews

later_review_kept : latest_opinionated_reviews reviews ≡ review 2 changes_requested 20 ∷ []
unfolding latest_opinionated_reviews extra_codeowners.Prelude.sort extra_codeowners.Prelude.values
    extra_codeowners.Prelude.lookup extra_codeowners.Prelude.assign Reviews.key_beq
later_review_kept = refl
