-- ===== src/Evaluator/LatestStep.antt =====
-- One round of the loop of `latest_opinionated_reviews` keeps each actor's latest.
use extra_codeowners.Prelude.{
  Bool, true, false, not, List, [], ◌∷◌, ◌++◌, ◌≡◌, refl, ◌∙◌, subst, arith, ◌==◌, nat_eq, none,
  some, inl, inr, Bool-cases, all, lookup, assign, lookup-assign, eq_of_beq, beq_self,
}
use extra_codeowners.Models.Evidence.{PullRequestReview}
use extra_codeowners.Evaluator.Reviews.{
  is_opinionated, ActorKey, actor_key, key_eq, is_newer, Latest,
}
use extra_codeowners.Evaluator.Latest.{beats, is_sound, Distinct, is_sound-snoc, is_newer_irrefl}

pub all_mono {ℓ} :
    {A : Type ℓ} (p q : A → Bool) (xs : List A)
    → ((x : A) → p x ≡ true → q x ≡ true)
    → all p xs ≡ true
    → all q xs ≡ true
unfolding all
all_mono p q [] f h = refl
all_mono p q (x ∷ xs) f h =
    let both : (p x ≡ true) × (all p xs ≡ true) = ground arith in
    rw (f x both.0, all_mono p q xs f both.1) refl

-- the entry that a lookup finds
pub lookup_sound :
    (seen : List PullRequestReview) (latest : Latest) (k : ActorKey) (l : PullRequestReview)
    → all (is_sound seen) latest ≡ true
    → lookup k latest ≡ some l
    → is_sound seen (k, l) ≡ true
unfolding all lookup
lookup_sound seen [] k l h e = cc
lookup_sound seen ((j, x) ∷ latest) k l h e = elim (Bool-cases (j == k)) [
  | inl same ↦
      let found : some x ≡ some l = rw same at e in
      let head : is_sound seen (j, x) ≡ true = ground arith in
      let value : x ≡ l = ground arith in
      subst (λ (p : ActorKey × PullRequestReview). is_sound seen p ≡ true)
        (λ i. (eq_of_beq j k same i, value i)) head
  | inr other ↦ lookup_sound seen latest k l (ground arith) (rw other at e)
]

pub assign-Distinct :
    (k : ActorKey) (v : PullRequestReview) (latest : Latest)
    → Distinct latest
    → Distinct (assign k v latest)
unfolding Distinct assign lookup
assign-Distinct k v [] h = (refl, tt)
assign-Distinct k v ((j, x) ∷ latest) (free, h) = elim (Bool-cases (j == k)) [
  | inl same ↦ rw same (free, h)
  | inr other ↦
      let apart : (k == j) ≡ false = ground (arith, key_eq.equals_iff k j, key_eq.equals_iff j k) in
      rw other (lookup-assign k j v latest ∙ rw apart free, assign-Distinct k v latest h)
]

module _ (seen : List PullRequestReview) (r : PullRequestReview) where
  abbrev pub later : List PullRequestReview
  later = seen ++ r ∷ []

  -- an entry of another actor is not touched by `r`
  sound_other :
      (k : ActorKey) (l : PullRequestReview)
      → (k == actor_key r) ≡ false
      → is_sound seen (k, l) ≡ true
      → is_sound later (k, l) ≡ true
  sound_other k l apart h = is_sound-snoc seen r k l h (
      let own : (k == actor_key l) ≡ true = ground arith in
      let keys : (actor_key r == actor_key l) ≡ false = ground (
        arith,
        key_eq.equals_iff (actor_key r) (actor_key l),
        key_eq.equals_iff k (actor_key l),
        key_eq.equals_iff k (actor_key r),
      ) in
      unfold beats in ground (arith, keys))

  sound_others :
      (latest : Latest)
      → lookup (actor_key r) latest ≡ none
      → all (is_sound seen) latest ≡ true
      → all (is_sound later) latest ≡ true
  unfolding all lookup
  sound_others [] free h = refl
  sound_others ((k, l) ∷ latest) free h = elim (Bool-cases (k == actor_key r)) [
    | inl same ↦ absurd (ground arith)
    | inr apart ↦
        let head : is_sound later (k, l) ≡ true = sound_other k l apart (ground arith) in
        let rest : all (is_sound later) latest ≡ true =
          sound_others latest (ground arith) (ground arith) in
        rw (head, rest) refl
  ]

  -- the entry of `r` itself is not older
  pub sound_kept :
      (latest : Latest) (previous : PullRequestReview)
      → Distinct latest
      → lookup (actor_key r) latest ≡ some previous
      → is_newer r previous ≡ false
      → all (is_sound seen) latest ≡ true
      → all (is_sound later) latest ≡ true
  unfolding all lookup Distinct
  sound_kept [] previous d e old h = cc
  sound_kept ((k, l) ∷ latest) previous (free, d) e old h = elim (Bool-cases (k == actor_key r)) [
    | inl same ↦
        let key : k ≡ actor_key r = eq_of_beq k (actor_key r) same in
        let value : l ≡ previous = ground arith in
        let unbeaten : beats r l ≡ false = rw value (unfold beats in ground (arith, old)) in
        let head : is_sound later (k, l) ≡ true =
          is_sound-snoc seen r k l (ground arith) unbeaten in
        let rest : all (is_sound later) latest ≡ true =
          sound_others latest (subst (λ j. lookup j latest ≡ none) key free) (ground arith) in
        rw (head, rest) refl
    | inr apart ↦
        let head : is_sound later (k, l) ≡ true = sound_other k l apart (ground arith) in
        let rest : all (is_sound later) latest ≡ true =
          sound_kept latest previous d (ground arith) old (ground arith) in
        rw (head, rest) refl
  ]

  module _ (opinionated : is_opinionated r.state ≡ true)
      (unbeaten : all (λ x. not (beats x r)) seen ≡ true) where
    sound_new : (k : ActorKey) → (k == actor_key r) ≡ true → is_sound later (k, r) ≡ true
    sound_new k same =
        is_sound-snoc seen r k r (rw (same, opinionated, unbeaten) refl)
          (unfold beats in ground (arith, is_newer_irrefl r))

    pub sound_assigned :
        (latest : Latest)
        → Distinct latest
        → all (is_sound seen) latest ≡ true
        → all (is_sound later) (assign (actor_key r) r latest) ≡ true
    unfolding all assign Distinct
    sound_assigned [] d h = rw (sound_new (actor_key r) (beq_self (actor_key r))) refl
    sound_assigned ((k, l) ∷ latest) (free, d) h = elim (Bool-cases (k == actor_key r)) [
      | inl same ↦
          let key : k ≡ actor_key r = eq_of_beq k (actor_key r) same in
          let rest : all (is_sound later) latest ≡ true =
            sound_others latest (subst (λ j. lookup j latest ≡ none) key free) (ground arith) in
          rw same (rw (sound_new k same, rest) refl)
      | inr apart ↦
          let head : is_sound later (k, l) ≡ true = sound_other k l apart (ground arith) in
          let rest : all (is_sound later) (assign (actor_key r) r latest) ≡ true =
            sound_assigned latest d (ground arith) in
          rw apart (rw (head, rest) refl)
    ]
