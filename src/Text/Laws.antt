-- ===== src/Text/Laws.antt =====
-- Laws of the text methods: stripping, and the test for a character.
use mathlib.Core.List.{reverse, reverse-append, reverse-reverse}
use extra_codeowners.Prelude.{
  ℕ, Bool, false, ◌||◌, [], ◌∷◌, ◌++◌, ◌≡◌, refl, ap, ◌∙◌, arith, inl, inr, Bool-cases, contains,
  nat_eq, ◌==◌, any-append,
}
use extra_codeowners.Text.{Str, drop_while, drop_while_end, is_space, strip, ends_with}

pub contains-append :
    (xs ys : Str) (c : ℕ) → contains (xs ++ ys) c ≡ (contains xs c || contains ys c)
unfolding contains
contains-append xs ys c = any-append (λ y. y == c) xs ys

module _ (p : ℕ → Bool) where
  drop_while_idem : (s : Str) → drop_while p (drop_while p s) ≡ drop_while p s
  unfolding drop_while
  drop_while_idem [] = refl
  drop_while_idem (c ∷ s) = ground (arith, drop_while_idem s)

  drop_while-snoc :
      (s : Str) (c : ℕ) → p c ≡ false → drop_while p (s ++ c ∷ []) ≡ drop_while p s ++ c ∷ []
  unfolding drop_while
  drop_while-snoc [] c h = rw h refl
  drop_while-snoc (x ∷ s) c h = elim (Bool-cases (p x)) [
    | inl dropped ↦ rw (dropped, drop_while-snoc s c h) refl
    | inr kept ↦ rw kept refl
  ]

  -- a first character that stays keeps the stripping at the end away from it
  pub drop_while_end-cons :
      (c : ℕ) (s : Str) → p c ≡ false → drop_while_end p (c ∷ s) ≡ c ∷ drop_while_end p s
  unfolding drop_while_end
  drop_while_end-cons c s h =
      ap (λ t. reverse (drop_while p t)) (reverse-append (c ∷ []) s)
      ∙ ap reverse (drop_while-snoc (reverse s) c h)
      ∙ reverse-append (drop_while p (reverse s)) (c ∷ [])

  pub drop_while_end-snoc :
      (s : Str) (c : ℕ) → p c ≡ false → drop_while_end p (s ++ c ∷ []) ≡ s ++ c ∷ []
  unfolding drop_while_end drop_while
  drop_while_end-snoc s c h =
      ap (λ t. reverse (drop_while p t)) (reverse-append s (c ∷ []))
      ∙ rw h (reverse-append (c ∷ []) (reverse s) ∙ ap (λ t. t ++ c ∷ []) (reverse-reverse s))

  drop_while_end_idem : (s : Str) → drop_while_end p (drop_while_end p s) ≡ drop_while_end p s
  unfolding drop_while_end
  drop_while_end_idem s =
      ap (λ t. reverse (drop_while p t)) (reverse-reverse (drop_while p (reverse s)))
      ∙ ap reverse (drop_while_idem (reverse s))

  -- stripping the start of what is stripped at both ends changes nothing
  drop_while-both :
      (s : Str)
      → drop_while p (drop_while_end p (drop_while p s)) ≡ drop_while_end p (drop_while p s)
  unfolding drop_while
  drop_while-both [] = unfold drop_while_end in refl
  drop_while-both (c ∷ s) = elim (Bool-cases (p c)) [
    | inl dropped ↦ rw dropped (drop_while-both s)
    | inr kept ↦ rw (kept, drop_while_end-cons c s kept, kept) refl
  ]

  pub strip_by_idem :
      (s : Str) → let t = drop_while_end p (drop_while p s) in drop_while_end p (drop_while p t) ≡ t
  strip_by_idem s = ap (drop_while_end p) (drop_while-both s) ∙ drop_while_end_idem (drop_while p s)

-- Stripping twice is stripping once.
pub strip_idem : (s : Str) → strip (strip s) ≡ strip s
unfolding strip
strip_idem s = strip_by_idem is_space s

pub ends_with-append : (c x : ℕ) (s t : Str) → ends_with c (s ++ x ∷ t) ≡ ends_with c (x ∷ t)
unfolding ends_with
ends_with-append c x [] t = refl
ends_with-append c x (a ∷ []) t = refl
ends_with-append c x (a ∷ b ∷ s) t = ends_with-append c x (b ∷ s) t
