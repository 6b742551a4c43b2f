-- ===== src/Evaluator/LatestLoop.antt =====
-- The loop of `latest_opinionated_reviews` keeps, in its dict, each actor's latest.
use mathlib.Core.List.{append_assoc, append-nil}
use extra_codeowners.Prelude.{
  true, false, not, List, [], ◌∷◌, ◌++◌, ◌≡◌, refl, sym, ◌∙◌, subst, arith, nat_eq, Option, none,
  some, inl, inr, Bool-cases, Option-cases, all, lookup, assign, lookup-assign, all-append,
  eq_of_beq, beq_self,
}
use extra_codeowners.Models.Evidence.{PullRequestReview}
use extra_codeowners.Evaluator.Reviews.{
  is_opinionated, actor_key, key_eq, is_newer, Latest, supersedes, keep_latest, latest_from,
}
use extra_codeowners.Evaluator.Latest.{
  beats, has_key, is_sound, is_counted, Distinct, IsLatest, is_sound-snoc, unbeaten-newer,
  unbeaten-first,
}
use extra_codeowners.Evaluator.LatestStep.{
  all_mono, lookup_sound, assign-Distinct, sound_kept, sound_assigned,
}

module _ (latest : Latest) (seen : List PullRequestReview) (r : PullRequestReview)
    (inv : IsLatest latest seen) where
  -- a comment changes nothing
  skip-IsLatest : is_opinionated r.state ≡ false → IsLatest latest (seen ++ r ∷ [])
  skip-IsLatest comment = record {
    sound =
        all_mono (is_sound seen) (is_sound (seen ++ r ∷ [])) latest
          (λ (k, l) h. is_sound-snoc seen r k l h (unfold beats in rw comment refl)) inv.sound;
    counted =
        all-append (is_counted latest) seen (r ∷ [])
        ∙ rw inv.counted (unfold all in rw comment refl);
    distinct = inv.distinct;
  }

  keep-IsLatest :
      (previous : PullRequestReview)
      → lookup (actor_key r) latest ≡ some previous
      → is_newer r previous ≡ false
      → IsLatest latest (seen ++ r ∷ [])
  keep-IsLatest previous e old = record {
    sound = sound_kept seen r latest previous inv.distinct e old inv.sound;
    counted =
        all-append (is_counted latest) seen (r ∷ [])
        ∙ rw inv.counted (unfold all has_key in rw e (ground arith));
    distinct = inv.distinct;
  }

  -- nothing seen before beats a review that supersedes
  unbeaten :
      supersedes r (lookup (actor_key r) latest) ≡ true → all (λ x. not (beats x r)) seen ≡ true
  unbeaten newer = elim (Option-cases (lookup (actor_key r) latest)) [
    | inl free ↦ unbeaten-first latest seen r free inv.counted
    | inr (previous, e) ↦
        let entry : is_sound seen (actor_key r, previous) ≡ true =
          lookup_sound seen latest (actor_key r) previous inv.sound e in
        let same : actor_key r ≡ actor_key previous =
          eq_of_beq (actor_key r) (actor_key previous) (ground arith) in
        let newer' : is_newer r previous ≡ true = unfold supersedes in rw e at newer in
        unbeaten-newer seen r previous same newer' (ground arith)
  ]

  assign-counted :
      (x : PullRequestReview)
      → is_counted latest x ≡ true
      → is_counted (assign (actor_key r) r latest) x ≡ true
  unfolding has_key
  assign-counted x h = rw (lookup-assign (actor_key r) (actor_key x) r latest) (ground arith)

  assign-IsLatest :
      is_opinionated r.state ≡ true
      → supersedes r (lookup (actor_key r) latest) ≡ true
      → IsLatest (assign (actor_key r) r latest) (seen ++ r ∷ [])
  assign-IsLatest opinionated newer = record {
    sound = sound_assigned seen r opinionated (unbeaten newer) latest inv.distinct inv.sound;
    counted =
        all-append (is_counted (assign (actor_key r) r latest)) seen (r ∷ [])
        ∙ rw
            (all_mono (is_counted latest) (is_counted (assign (actor_key r) r latest)) seen
              assign-counted inv.counted)
            (unfold all has_key in
              rw (lookup-assign (actor_key r) (actor_key r) r latest, beq_self (actor_key r))
                (ground arith));
    distinct = assign-Distinct (actor_key r) r latest inv.distinct;
  }

  step-IsLatest : IsLatest (keep_latest latest r) (seen ++ r ∷ [])
  step-IsLatest = elim (Bool-cases (is_opinionated r.state)) [
    | inr comment ↦
        let same : keep_latest latest r ≡ latest = unfold keep_latest in rw comment refl in
        subst (λ d. IsLatest d (seen ++ r ∷ [])) (sym same) (skip-IsLatest comment)
    | inl opinionated ↦ elim (Bool-cases (supersedes r (lookup (actor_key r) latest))) [
      | inl newer ↦
          let put : keep_latest latest r ≡ assign (actor_key r) r latest =
            unfold keep_latest in rw (opinionated, newer) refl in
          subst (λ d. IsLatest d (seen ++ r ∷ [])) (sym put) (assign-IsLatest opinionated newer)
      | inr old ↦
          let same : keep_latest latest r ≡ latest =
            unfold keep_latest in rw (opinionated, old) refl in
          let (previous, e, not_newer) = superseded (lookup (actor_key r) latest) refl old in
          subst (λ d. IsLatest d (seen ++ r ∷ [])) (sym same) (keep-IsLatest previous e not_newer)
    ]
  ]
    where
      superseded :
          (o : Option PullRequestReview)
          → lookup (actor_key r) latest ≡ o
          → supersedes r o ≡ false
          → (previous : PullRequestReview) × (lookup (actor_key r) latest ≡ some previous)
            × (is_newer r previous ≡ false)
      superseded none e old = absurd (unfold supersedes in ground arith)
      superseded (some previous) e old = (previous, e, unfold supersedes in old)

loop-IsLatest :
    (latest : Latest) (seen reviews : List PullRequestReview)
    → IsLatest latest seen
    → IsLatest (latest_from latest reviews) (seen ++ reviews)
unfolding latest_from
loop-IsLatest latest seen [] inv = rw append-nil inv
loop-IsLatest latest seen (r ∷ reviews) inv =
    subst (IsLatest (latest_from (keep_latest latest r) reviews))
      (append_assoc seen (r ∷ []) reviews)
      (loop-IsLatest (keep_latest latest r) (seen ++ r ∷ []) reviews
        (step-IsLatest latest seen r inv))

-- the dict that the loop ends with
pub dict-IsLatest : (reviews : List PullRequestReview) → IsLatest (latest_from [] reviews) reviews
dict-IsLatest reviews = loop-IsLatest [] [] reviews (record {
  sound = unfold all in refl;
  counted = unfold all in refl;
  distinct = unfold Distinct in tt;
})
