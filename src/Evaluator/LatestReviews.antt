-- ===== src/Evaluator/LatestReviews.antt =====
-- `latest_opinionated_reviews` returns exactly each actor's latest opinionated review.
use extra_codeowners.Prelude.{
  ◌≤◌, Bool, true, not, ◌&&◌, ◌||◌, List, [], ◌∷◌, ◌≡◌, refl, ap, sym, ◌∙◌, arith, ◌==◌, nat_eq,
  none, inl, inr, Bool-cases, any, all, keep, length, values, lookup, assign, all-sort, any-sort,
  length-keep-sort, eq_of_beq,
}
use extra_codeowners.Models.Evidence.{PullRequestReview}
use extra_codeowners.Evaluator.Reviews.{
  is_opinionated, ActorKey, actor_key, key_eq, Latest, keep_latest, latest_from, review_le,
  latest_opinionated_reviews,
}
use extra_codeowners.Evaluator.Latest.{beats, has_key, is_sound, is_counted, Distinct}
use extra_codeowners.Evaluator.LatestStep.{all_mono}
use extra_codeowners.Evaluator.LatestLoop.{dict-IsLatest}

-- opinionated, and beaten by none of the reviews
abbrev pub is_unbeaten : List PullRequestReview → PullRequestReview → Bool
is_unbeaten reviews l = is_opinionated l.state && all (λ r. not (beats r l)) reviews

abbrev pub is_by : ActorKey → PullRequestReview → Bool
is_by k l = actor_key l == k

values-unbeaten :
    (reviews : List PullRequestReview) (latest : Latest)
    → all (is_sound reviews) latest ≡ true
    → all (is_unbeaten reviews) (values latest) ≡ true
unfolding all values
values-unbeaten reviews [] h = refl
values-unbeaten reviews ((k, l) ∷ latest) h =
    let head : is_unbeaten reviews l ≡ true = ground arith in
    let rest : all (is_unbeaten reviews) (values latest) ≡ true =
      values-unbeaten reviews latest (ground arith) in
    rw (head, rest) refl

any-values :
    (reviews : List PullRequestReview) (latest : Latest) (k : ActorKey)
    → all (is_sound reviews) latest ≡ true
    → has_key (lookup k latest) ≡ true
    → any (is_by k) (values latest) ≡ true
unfolding any all values lookup has_key
any-values reviews [] k h e = cc
any-values reviews ((j, l) ∷ latest) k h e = elim (Bool-cases (j == k)) [
  | inl same ↦
      let own : (j == actor_key l) ≡ true = ground arith in
      let by : is_by k l ≡ true = ground (
        arith,
        key_eq.equals_iff j (actor_key l),
        key_eq.equals_iff j k,
        key_eq.equals_iff (actor_key l) k,
      ) in
      rw by refl
  | inr other ↦
      let rest : any (is_by k) (values latest) ≡ true =
        any-values reviews latest k (ground arith) (rw other at e) in
      rw rest (ground arith)
]

-- an entry's review is by the actor that it is under
own_key :
    (reviews : List PullRequestReview) (j k : ActorKey) (l : PullRequestReview)
    → is_sound reviews (j, l) ≡ true
    → (j == k) ≡ is_by k l
own_key reviews j k l h =
    ground (arith, ap (λ i. i == k) (eq_of_beq j (actor_key l) (ground arith)))

none_by :
    (reviews : List PullRequestReview) (latest : Latest) (k : ActorKey)
    → all (is_sound reviews) latest ≡ true
    → lookup k latest ≡ none
    → length (keep (is_by k) (values latest)) ≡ 0
unfolding all values lookup keep
none_by reviews [] k h e = refl
none_by reviews ((j, l) ∷ latest) k h e =
    ground (arith, none_by reviews latest k, own_key reviews j k l)

one_by :
    (reviews : List PullRequestReview) (latest : Latest) (k : ActorKey)
    → all (is_sound reviews) latest ≡ true
    → Distinct latest
    → length (keep (is_by k) (values latest)) ≤ 1
unfolding all values keep Distinct
one_by reviews [] k h d = omega arith
one_by reviews ((j, l) ∷ latest) k h (free, d) = elim (Bool-cases (is_by k l)) [
  | inl by ↦
      let same : (j == k) ≡ true = own_key reviews j k l (ground arith) ∙ by in
      let rest : length (keep (is_by k) (values latest)) ≡ 0 =
        none_by reviews latest k (ground arith)
          (ap (λ i. lookup i latest) (sym (eq_of_beq j k same)) ∙ free) in
      ground (arith, rest)
  | inr other ↦ ground (arith, one_by reviews latest k (ground arith) d)
]

module _ (q : PullRequestReview → Bool) where
  all-assign :
      (latest : Latest) (k : ActorKey) (v : PullRequestReview)
      → q v ≡ true
      → all q (values latest) ≡ true
      → all q (values (assign k v latest)) ≡ true
  unfolding all values assign
  all-assign [] k v h a = rw h refl
  all-assign ((j, l) ∷ latest) k v h a = ground (arith, all-assign latest k v)

  all-latest_from :
      (latest : Latest) (reviews : List PullRequestReview)
      → all q (values latest) ≡ true
      → all q reviews ≡ true
      → all q (values (latest_from latest reviews)) ≡ true
  unfolding all latest_from keep_latest
  all-latest_from latest [] a h = a
  all-latest_from latest (r ∷ reviews) a h =
      all-latest_from (keep_latest latest r) reviews
        (ground (arith, all-assign latest (actor_key r) r)) (ground arith)

-- The result of `latest_opinionated_reviews`, whatever the order of the reviews.
pub record LatestOf (reviews result : List PullRequestReview) : Type 0 where
  pub unbeaten : all (is_unbeaten reviews) result ≡ true
  pub complete :
      all (λ r. not (is_opinionated r.state) || any (is_by (actor_key r)) result) reviews ≡ true
  pub one_each : (k : ActorKey) → length (keep (is_by k) result) ≤ 1
  pub taken : (q : PullRequestReview → Bool) → all q reviews ≡ true → all q result ≡ true

-- Every review in the result is opinionated, and no opinionated review of its actor is newer; every
-- actor with an opinionated review has one in the result, and at most one; and the result has what
-- holds of all the reviews given.
pub latest_opinionated_reviews-LatestOf :
    (reviews : List PullRequestReview) → LatestOf reviews (latest_opinionated_reviews reviews)
unfolding latest_opinionated_reviews
latest_opinionated_reviews-LatestOf reviews =
    let inv = dict-IsLatest reviews in
    let latest = latest_from [] reviews in
    record {
      unbeaten =
          all-sort review_le (is_unbeaten reviews) (values latest)
          ∙ values-unbeaten reviews latest inv.sound;
      complete =
          all_mono (is_counted latest) _ reviews
            (λ r c. ground (
              arith,
              any-values reviews latest (actor_key r) inv.sound,
              any-sort review_le (is_by (actor_key r)) (values latest),
            ))
            inv.counted;
      one_each = λ k.
          let same = length-keep-sort review_le (is_by k) (values latest) in
          let one = one_by reviews latest k inv.sound inv.distinct in omega (arith, same, one);
      taken = λ q h.
          all-sort review_le q (values latest)
          ∙ all-latest_from q [] reviews (unfold all values in refl) h;
    }
