-- ===== src/Dco/Ordered.antt =====
-- What the order check of dco.py decides.
use extra_codeowners.Prelude.{
  suc, ◌+◌, ◌≤◌, Bool, true, false, not, ◌||◌, List, [], ◌∷◌, ◌≡◌, refl, sym, ◌∙◌, ◌↔◌, ◌⊎◌, inl,
  inr, ◌==◌, subst, nat_eq, list_eq, if◌then◌else◌, some, any, all, contains, Dict, lookup, assign,
  length, Result, ok, arith, list_beq, list_beq_iff, Bool-cases, Memᴰ, all-contains, lookup-assign,
}
use mathlib.Core.List.Memᴰ
use extra_codeowners.Text.{Str}
use extra_codeowners.Dco.{PullCommit, CommitEvidence, DcoError}
use extra_codeowners.Dco.Order.{
  pull_shas, commit_shas, any_differ, positions_from, any_late, by_sha_from, is_some, walk,
  same_members, last, reaches_all, commit_order_is_valid,
}
use extra_codeowners.Dco.Walk.{
  Known, Edge, Ancestor, Ancestor-map, unmet-le, unmet-cons_lt, Inv, walk-Reaches, true_of_and,
  here, step,
}
use extra_codeowners.Dco.Positions.{ParentsFirst, any_late-ParentsFirst}

-- the loop over the pairs tells whether the lists differ
any_differ-eq : (xs ys : List Str) → length xs ≡ length ys → any_differ xs ys ≡ ok (not (xs == ys))
unfolding any_differ list_beq
any_differ-eq [] [] h = refl
any_differ-eq [] (y ∷ ys) h = absurd (omega arith)
any_differ-eq (x ∷ xs) [] h = absurd (omega arith)
any_differ-eq (x ∷ xs) (y ∷ ys) h = ground (arith, any_differ-eq xs ys)

known-by_sha_from :
    (seen : Dict Str CommitEvidence) (commits : List CommitEvidence) (v : Str)
    → is_some (lookup v (by_sha_from seen commits))
      ≡ (is_some (lookup v seen) || contains (commit_shas commits) v)
unfolding by_sha_from is_some contains any
known-by_sha_from seen [] v = ground arith
known-by_sha_from seen (c ∷ cs) v =
    ground (arith, known-by_sha_from (assign c.sha c seen) cs v, lookup-assign c.sha v c seen)

known-by_sha :
    (commits : List CommitEvidence) (v : Str)
    → is_some (lookup v (by_sha_from [] commits)) ≡ contains (commit_shas commits) v
unfolding lookup is_some
known-by_sha commits v = known-by_sha_from [] commits v

length-assign :
    (k : Str) (c : CommitEvidence) (d : Dict Str CommitEvidence)
    → length (assign k c d) ≤ suc (length d)
unfolding assign
length-assign k c [] = omega arith
length-assign k c ((j, w) ∷ d) = ground (arith, length-assign k c d)

length-by_sha_from :
    (seen : Dict Str CommitEvidence) (commits : List CommitEvidence)
    → length (by_sha_from seen commits) ≤ length seen + length commits
unfolding by_sha_from
length-by_sha_from seen [] = omega arith
length-by_sha_from seen (c ∷ cs) =
    omega (arith, length-by_sha_from (assign c.sha c seen) cs, length-assign c.sha c seen)

-- A SHA of no commit behind keeps what was found before.
lookup-by_sha_from :
    (seen : Dict Str CommitEvidence) (commits : List CommitEvidence) (v : Str)
    → contains (commit_shas commits) v ≡ false
    → lookup v (by_sha_from seen commits) ≡ lookup v seen
unfolding by_sha_from contains any
lookup-by_sha_from seen [] v h = refl
lookup-by_sha_from seen (c ∷ cs) v h =
    ground (arith, lookup-by_sha_from (assign c.sha c seen) cs v, lookup-assign c.sha v c seen)

found-assign :
    (seen : Dict Str CommitEvidence) (b c : CommitEvidence) (v : Str)
    → lookup v (assign b.sha b seen) ≡ some c
    → (lookup v seen ≡ some c) ⊎ ((b ≡ c) × (c.sha ≡ v))
found-assign seen b c v h = ground (arith, lookup-assign b.sha v b seen, list_beq_iff b.sha v)

-- a commit found by its SHA is one of the list, or was there before
mem-by_sha_from :
    (seen : Dict Str CommitEvidence) (commits : List CommitEvidence) (v : Str) (c : CommitEvidence)
    → lookup v (by_sha_from seen commits) ≡ some c
    → (lookup v seen ≡ some c) ⊎ (Memᴰ c commits × (c.sha ≡ v))
unfolding by_sha_from
mem-by_sha_from seen [] v c h = inl h
mem-by_sha_from seen (b ∷ cs) v c h = elim (mem-by_sha_from (assign b.sha b seen) cs v c h) [
  | inr (m, e) ↦ inr (Memᴰ.tail m, e)
  | inl old ↦ elim (found-assign seen b c v old) [
    | inl older ↦ inl older
    | inr (same, e) ↦ inr (Memᴰ.head (sym same), e)
  ]
]

-- No SHA stands twice.
abbrev pub Distinct : List Str → Type 0
Distinct [] = Unit
Distinct (x ∷ xs) = (contains xs x ≡ false) × Distinct xs

lookup-of_mem :
    (seen : Dict Str CommitEvidence) (commits : List CommitEvidence) (c : CommitEvidence)
    → Distinct (commit_shas commits)
    → Memᴰ c commits
    → lookup c.sha (by_sha_from seen commits) ≡ some c
unfolding by_sha_from
lookup-of_mem seen [] c d m = absurd (Memᴰ.not-nil m)
lookup-of_mem seen (b ∷ cs) c d m = elim (Memᴰ.cases_cons m) [
  | inl e ↦ ground (
    arith,
    e,
    lookup-by_sha_from (assign b.sha b seen) cs b.sha d.0,
    lookup-assign b.sha b.sha b seen,
    list_beq_iff b.sha b.sha,
  )
  | inr rest ↦ lookup-of_mem (assign b.sha b seen) cs c d.1 rest
]

lookup-nil : (u : Str) (c : CommitEvidence) → lookup u [] ≡ some c → ⊥
unfolding lookup
lookup-nil u c h = cc

-- The commit u of the list has the commit v of the list as a parent.
pub Parent : List CommitEvidence → Str → Str → Type 0
Parent commits u v =
    (c : CommitEvidence) × Memᴰ c commits
    × (c.sha ≡ u)
    × (contains c.parents v ≡ true)
    × (contains (commit_shas commits) v ≡ true)

Edge-iff :
    (commits : List CommitEvidence)
    → Distinct (commit_shas commits)
    → (u v : Str) → Edge (by_sha_from [] commits) u v ↔ Parent commits u v
unfolding Parent
Edge-iff commits d u v =
    let same = known-by_sha commits v in
    (
      λ (c, found, p, k). elim (mem-by_sha_from [] commits u c found) [
        | inl nothing ↦ absurd (lookup-nil u c nothing)
        | inr (m, e) ↦ (c, m, e, p, sym same ∙ k)
      ],
      λ (c, m, e, p, k). (
        c,
        subst (λ s. lookup s (by_sha_from [] commits) ≡ some c) e (lookup-of_mem [] commits c d m),
        p,
        same ∙ k,
      ),
    )

Inv-start :
    (d : Dict Str CommitEvidence) (head : Str) → Known d head → Inv d head (head ∷ []) (head ∷ [])
unfolding contains any
Inv-start d head k =
    let self = list_beq_iff head head in
    record {
      start = ground arith;
      sound = λ v m. subst (Ancestor (Edge d) head) ((list_beq_iff head v).0 (ground arith)) here;
      queued = λ v m. (m, ground (arith, list_beq_iff head v));
      closed = λ u v m e. inl m;
    }

all_of_contains :
    (p : Str → Bool) (xs : List Str)
    → ((x : Str) → contains xs x ≡ true → p x ≡ true)
    → all p xs ≡ true
unfolding all contains any
all_of_contains p [] h = refl
all_of_contains p (x ∷ xs) h =
    ground (arith, all_of_contains p xs (λ y m. h y (ground arith)), h x, list_beq_iff x x)

same_members_iff :
    (xs ys : List Str)
    → (same_members xs ys ≡ true) ↔ (
        ((v : Str) → contains xs v ≡ true → contains ys v ≡ true)
        × ((v : Str) → contains ys v ≡ true → contains xs v ≡ true))
unfolding same_members
same_members_iff xs ys = (
  λ h.
      let (a, b) = true_of_and (all (contains ys) xs) (all (contains xs) ys) h in
      (λ v m. all-contains (contains ys) xs v m a, λ v m. all-contains (contains xs) ys v m b),
  λ (f, g). ground (arith, all_of_contains (contains ys) xs f, all_of_contains (contains xs) ys g),
)

contains-last : (shas : List Str) (head : Str) → last shas ≡ ok head → contains shas head ≡ true
unfolding last contains any
contains-last [] head h = cc
contains-last (x ∷ []) head h = ground (arith, list_beq_iff x head)
contains-last (x ∷ y ∷ ys) head h = ground (arith, contains-last (y ∷ ys) head h)

module _ (commits : List CommitEvidence) (head : Str) where
  abbrev shas : List Str
  shas = commit_shas commits

  -- every commit is an ancestor of the head
  abbrev pub Reaches : Type 0
  Reaches = (v : Str) → contains shas v ≡ true → Ancestor (Parent commits) head v

  walk-commits :
      Distinct shas
      → contains shas head ≡ true
      → (t : List Str) × (walk (by_sha_from [] commits) (length commits) (head ∷ []) (head ∷ [])
          ≡ ok t)
        × ((v : Str) → (contains t v ≡ true) ↔ Ancestor (Parent commits) head v)
  unfolding contains any
  walk-commits distinct there =
      let d = by_sha_from [] commits in
      let k = known-by_sha commits head ∙ there in
      let (t, ends, says) =
        walk-Reaches d head (length commits) (head ∷ []) (head ∷ []) (Inv-start d head k) (
          omega (
            arith,
            unmet-cons_lt d head [] k refl,
            unmet-le d [],
            length-by_sha_from [] commits,
          )) in
      (
        t,
        ends,
        λ v. (
          λ m.
              Ancestor-map (Edge d) (Parent commits) (λ u w. (Edge-iff commits distinct u w).0)
                ((says v).0 m),
          λ a.
              (says v).1 (
                Ancestor-map (Parent commits) (Edge d) (λ u w. (Edge-iff commits distinct u w).1)
                  a),
        ),
      )

  -- an ancestor of a commit is a commit
  Ancestor-contained :
      (v : Str)
      → contains shas head ≡ true
      → Ancestor (Parent commits) head v
      → contains shas v ≡ true
  unfolding Parent
  Ancestor-contained v h here = h
  Ancestor-contained v h (step p (c, m, e, q, there)) = there

  reaches_all-Reaches :
      Distinct shas
      → last shas ≡ ok head
      → (b : Bool) × (reaches_all shas commits ≡ ok b) × ((b ≡ true) ↔ Reaches)
  unfolding reaches_all
  reaches_all-Reaches distinct at =
      let there = contains-last shas head at in
      let (t, ends, says) = walk-commits distinct there in
      let members = same_members_iff t shas in
      (
        same_members t shas,
        rw (at, ends) refl,
        (
          λ h v m. (says v).0 ((members.0 h).1 v m),
          λ f.
              members.1
                (λ v m. Ancestor-contained v there ((says v).0 m), λ v m. (says v).1 (f v m)),
        ),
      )

  -- the part behind the comparison of the two lists of SHAs
  abbrev rest_of_check : List Str → Result DcoError Bool
  rest_of_check own =
      if any_late (positions_from 0 [] own) 0 commits then ok false else reaches_all own commits

  rest_of_check-decides :
      Distinct shas
      → last shas ≡ ok head
      → (b : Bool) × (rest_of_check shas ≡ ok b) × ((b ≡ true) ↔ (ParentsFirst commits × Reaches))
  rest_of_check-decides distinct at =
      let first = any_late-ParentsFirst commits in
      let (b, ends, says) = reaches_all-Reaches distinct at in
      elim (Bool-cases (any_late (positions_from 0 [] shas) 0 commits)) [
        | inl late ↦ (false, rw late refl, (λ h. cc, λ (f, r). ground (arith, first.1 f)))
        | inr fine ↦ (b, rw fine ends, (λ h. (first.0 fine, says.0 h), λ (f, r). says.1 r))
      ]

-- The commits come in the order of the pull request, parents before children, and all of them
-- lead to the head.
pub record InOrder (pull_commits : List PullCommit) (commits : List CommitEvidence) (head : Str)
    : Type 0 where
  pub same : commit_shas commits ≡ pull_shas pull_commits
  pub parents_first : ParentsFirst commits
  pub reached : Reaches commits head

-- When the two lists are equally long, the SHAs of the pull request's commits differ and the head is
-- the last of them, the order check returns, and says yes exactly when the commits come in the
-- order of the pull request, parents before children, and all of them lead to the head.
pub commit_order_is_valid-InOrder :
    (pull_commits : List PullCommit) (commits : List CommitEvidence) (head : Str)
    → length (commit_shas commits) ≡ length (pull_shas pull_commits)
    → Distinct (pull_shas pull_commits)
    → last (pull_shas pull_commits) ≡ ok head
    → (b : Bool) × (commit_order_is_valid pull_commits commits ≡ ok b)
      × ((b ≡ true) ↔ InOrder pull_commits commits head)
unfolding commit_order_is_valid
commit_order_is_valid-InOrder pull_commits commits head len distinct at =
    let shas = pull_shas pull_commits in
    let differ = any_differ-eq (commit_shas commits) shas len in
    let equal = list_beq_iff (commit_shas commits) shas in
    elim (Bool-cases (commit_shas commits == shas)) [
      | inl e ↦
          let same = equal.0 e in
          let (b, ends, says) =
            subst
              (λ own.
                Distinct own
                → last own ≡ ok head
                → (b : Bool) × (rest_of_check commits head own ≡ ok b)
                  × ((b ≡ true) ↔ (ParentsFirst commits × Reaches commits head)))
              same (rest_of_check-decides commits head) distinct at in
          (
            b,
            rw (differ, e) ends,
            (
              λ h. record { same = same; parents_first = (says.0 h).0; reached = (says.0 h).1 },
              λ o. says.1 (o.parents_first, o.reached),
            ),
          )
      | inr n ↦ (false, rw (differ, n) refl, (λ h. cc, λ h. ground arith))
    ]
