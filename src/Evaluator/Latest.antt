-- ===== src/Evaluator/Latest.antt =====
-- Each actor's latest opinionated review.
use extra_codeowners.Prelude.{
  Bool, true, false, not, ◌&&◌, ◌||◌, List, [], ◌∷◌, ◌++◌, ◌≡◌, refl, ap, sym, subst, arith, ◌==◌,
  nat_eq, Option, none, some, inl, inr, Bool-cases, all, lookup, all-append, eq_of_beq,
}
use extra_codeowners.Models.Evidence.{PullRequestReview}
use extra_codeowners.Evaluator.Reviews.{
  is_opinionated, ActorKey, actor_key, key_eq, is_newer, Latest,
}

-- `r` is an opinionated review of the same actor as `l`, and newer
unfoldable pub beats : PullRequestReview → PullRequestReview → Bool
beats r l = is_opinionated r.state && actor_key r == actor_key l && is_newer r l

unfoldable pub has_key : Option PullRequestReview → Bool
has_key none = false
has_key (some l) = true

-- an entry of the dict is under its actor, opinionated, and beaten by nothing that was seen
abbrev pub is_sound : List PullRequestReview → ActorKey × PullRequestReview → Bool
is_sound seen (k, l) = k == actor_key l && is_opinionated l.state && all (λ r. not (beats r l)) seen

-- a review is comment, or its actor has an entry
abbrev pub is_counted : Latest → PullRequestReview → Bool
is_counted latest r = not (is_opinionated r.state) || has_key (lookup (actor_key r) latest)

-- no actor has two entries
unfoldable pub Distinct : Latest → Type 0
Distinct [] = Unit
Distinct ((k, l) ∷ latest) = (lookup k latest ≡ none) × Distinct latest

pub record IsLatest (latest : Latest) (seen : List PullRequestReview) : Type 0 where
  pub sound : all (is_sound seen) latest ≡ true
  pub counted : all (is_counted latest) seen ≡ true
  pub distinct : Distinct latest

is_newer_trans :
    (a b c : PullRequestReview) → is_newer a b ≡ true → is_newer b c ≡ true → is_newer a c ≡ true
unfolding is_newer
is_newer_trans a b c h k = ground arith

pub is_newer_irrefl : (a : PullRequestReview) → is_newer a a ≡ false
unfolding is_newer
is_newer_irrefl a = ground arith

-- One more review is seen that does not beat the entry.
pub is_sound-snoc :
    (seen : List PullRequestReview) (r : PullRequestReview) (k : ActorKey) (l : PullRequestReview)
    → is_sound seen (k, l) ≡ true
    → beats r l ≡ false
    → is_sound (seen ++ r ∷ []) (k, l) ≡ true
is_sound-snoc seen r k l h b =
    let split = all-append (λ x. not (beats x l)) seen (r ∷ []) in
    let last : all (λ x. not (beats x l)) (r ∷ []) ≡ true = unfold all in rw b refl in
    ground (arith, split, last)

beats-older :
    (x r previous : PullRequestReview)
    → actor_key r ≡ actor_key previous
    → is_newer r previous ≡ true
    → beats x previous ≡ false
    → beats x r ≡ false
unfolding beats
beats-older x r previous same newer h =
    let keys : (actor_key x == actor_key r) ≡ (actor_key x == actor_key previous) =
      ap (λ k. actor_key x == k) same in
    ground (arith, keys, is_newer_trans x r previous)

-- What beats a newer review of the same actor beats the older one.
pub unbeaten-newer :
    (seen : List PullRequestReview) (r previous : PullRequestReview)
    → actor_key r ≡ actor_key previous
    → is_newer r previous ≡ true
    → all (λ x. not (beats x previous)) seen ≡ true
    → all (λ x. not (beats x r)) seen ≡ true
unfolding all
unbeaten-newer [] r previous same newer h = refl
unbeaten-newer (x ∷ seen) r previous same newer h =
    let ih : all (λ y. not (beats y r)) seen ≡ true =
      unbeaten-newer seen r previous same newer (ground arith) in
    let here : beats x r ≡ false = beats-older x r previous same newer (ground arith) in
    rw (here, ih) refl

-- Nothing of an actor without an entry was opinionated, so nothing beats its first review.
pub unbeaten-first :
    (latest : Latest) (seen : List PullRequestReview) (r : PullRequestReview)
    → lookup (actor_key r) latest ≡ none
    → all (is_counted latest) seen ≡ true
    → all (λ x. not (beats x r)) seen ≡ true
unfolding all
unbeaten-first latest [] r free h = refl
unbeaten-first latest (x ∷ seen) r free h =
    let ih : all (λ y. not (beats y r)) seen ≡ true =
      unbeaten-first latest seen r free (ground arith) in
    let here : beats x r ≡ false = first_unbeaten x (ground arith) in rw (here, ih) refl
  where
    first_unbeaten : (y : PullRequestReview) → is_counted latest y ≡ true → beats y r ≡ false
    first_unbeaten y c = elim (Bool-cases (actor_key y == actor_key r)) [
      | inl same ↦
          let entry : has_key (lookup (actor_key y) latest) ≡ false =
            subst (λ k. has_key (lookup k latest) ≡ false)
              (sym (eq_of_beq (actor_key y) (actor_key r) same)) (unfold has_key in rw free refl) in
          unfold beats in ground arith
      | inr other ↦ unfold beats in ground arith
    ]
