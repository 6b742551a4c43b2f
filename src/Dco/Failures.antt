-- ===== src/Dco/Failures.antt =====
-- The tests before the commits return, and pass exactly when the evidence is of one pull request.
use extra_codeowners.Prelude.{
  ℕ, suc, ◌≤◌, Bool, true, false, not, ◌||◌, List, [], ◌∷◌, ◌≡◌, refl, ◌∙◌, ◌↔◌, ◌==◌, ap, nat_eq,
  list_eq, list_beq_iff, if◌then◌else◌, Option, none, some, contains, any, length, Result, ok,
  ◌>>=◌, arith, Bool-cases, length-map, inl, inr, unique, remove_all, any-unique,
}
use extra_codeowners.Text.{Str}
use extra_codeowners.Dco.{
  PullState, opened, PullRequestSnapshot, PullCommit, PullCommitComparison, CommitEvidence,
  DcoEvidenceInput, DcoFailure, DcoError, head_mismatch, commit_order_mismatch, state_beq_iff,
  pull_beq_iff, repository_beq_iff, repository_eq, pull_eq, state_eq,
}
use extra_codeowners.Dco.Order.{pull_shas, commit_shas, last}
use extra_codeowners.Dco.Evaluate.{is_of_pull, has_count, head_failure, first_failure}
use extra_codeowners.Dco.Ordered.{Distinct, InOrder, commit_order_is_valid-InOrder}

-- Whatever the outcome, there is one, and it is no failure exactly when Q holds.
abbrev pub Decides : Result DcoError (Option DcoFailure) → Type 0 → Type 0
Decides r Q = (o : Option DcoFailure) × (r ≡ ok o) × ((o ≡ none) ↔ Q)

guard :
    (b : Bool) (f : DcoFailure) (rest : Result DcoError (Option DcoFailure)) (P Q : Type 0)
    → (b ≡ false) ↔ P
    → (P → Decides rest Q)
    → Decides (if b then ok (some f) else rest) (P × Q)
guard true f rest P Q e r = (some f, refl, (λ h. cc, λ h. absurd (ground (arith, e.1 h.0))))
guard false f rest P Q e r =
    let p = e.0 refl in
    let (o, ends, says) = r p in (o, ends, (λ h. (p, says.0 h), λ h. says.1 h.1))

-- the comparison is the one of the pull request
abbrev pub IsCompared : PullCommitComparison → PullRequestSnapshot → Type 0
IsCompared c pull =
    (c.repository ≡ pull.repository)
    × (c.pull_number ≡ pull.number)
    × (c.base_sha ≡ pull.base_sha)
    × (c.head_sha ≡ pull.head_sha)
    × (c.base_commit_sha ≡ pull.base_sha)

is_of_pull_iff :
    (c : PullCommitComparison) (pull : PullRequestSnapshot)
    → (not (is_of_pull c pull) ≡ false) ↔ IsCompared c pull
unfolding is_of_pull
is_of_pull_iff c pull =
    let repositories = repository_beq_iff c.repository pull.repository in
    let bases = list_beq_iff c.base_sha pull.base_sha in
    let heads = list_beq_iff c.head_sha pull.head_sha in
    let base_commits = list_beq_iff c.base_commit_sha pull.base_sha in
    (λ h. ground arith, λ h. ground arith)

-- all four counts are those of the pull request
abbrev pub IsCounted : DcoEvidenceInput → ℕ → Type 0
IsCounted e n =
    (e.comparison.total_commits ≡ n)
    × (e.comparison.ahead_by ≡ n)
    × (length e.comparison.commits ≡ n)
    × (length e.commits ≡ n)

has_count_iff : (e : DcoEvidenceInput) (n : ℕ) → (not (has_count e n) ≡ false) ↔ IsCounted e n
unfolding has_count
has_count_iff e n = (λ h. ground arith, λ h. ground arith)

length-remove_all :
    (x : Str) (xs : List Str)
    → (contains xs x ≡ true → suc (length (remove_all x xs)) ≤ length xs)
      × (contains xs x ≡ false → remove_all x xs ≡ xs)
      × (length (remove_all x xs) ≤ length xs)
unfolding contains any remove_all
length-remove_all x [] = (λ h. ground arith, λ h. refl, omega arith)
length-remove_all x (y ∷ ys) =
    let (fewer, same, most) = length-remove_all x ys in
    (λ h. ground arith, λ h. ground arith, ground arith)

length-unique : (xs : List Str) → length (unique xs) ≤ length xs
unfolding unique
length-unique [] = omega arith
length-unique (x ∷ xs) = omega (arith, length-unique xs, (length-remove_all x (unique xs)).2)

contains-unique : (xs : List Str) (v : Str) → contains (unique xs) v ≡ contains xs v
unfolding contains
contains-unique xs v = any-unique (λ y. y == v) xs

Distinct-unique : (xs : List Str) → (length (unique xs) ≡ length xs) ↔ Distinct xs
unfolding unique
Distinct-unique [] = (λ _. tt, λ _. refl)
Distinct-unique (x ∷ xs) =
    let ih = Distinct-unique xs in
    let most = length-unique xs in
    let removed = length-remove_all x (unique xs) in
    let there = contains-unique xs x in
    (λ h. (ground arith, ih.0 (ground arith)), λ d. ground (arith, ih.1 d.1))

unique_iff : (xs : List Str) → (not (length (unique xs) == length xs) ≡ false) ↔ Distinct xs
unique_iff xs =
    let all = Distinct-unique xs in (λ h. all.0 (ground arith), λ d. ground (arith, all.1 d))

last-there : (xs : List Str) → 1 ≤ length xs → (x : Str) × (last xs ≡ ok x)
unfolding last
last-there [] h = absurd (omega arith)
last-there (x ∷ []) h = (x, refl)
last-there (x ∷ y ∷ ys) h = last-there (y ∷ ys) (omega arith)

opened_iff : (s : PullState) → (not (s == opened) ≡ false) ↔ (s ≡ opened)
opened_iff s = let same = state_beq_iff s opened in (λ h. ground arith, λ h. ground arith)

unchanged_iff :
    (a b pull : PullRequestSnapshot)
    → ((not (a == pull) || not (b == pull)) ≡ false) ↔ ((a ≡ pull) × (b ≡ pull))
unchanged_iff a b pull =
    by_tests (a == pull) (b == pull) (pull_beq_iff a pull) (pull_beq_iff b pull)
  where
    by_tests :
        (p q : Bool)
        → (p ≡ true) ↔ (a ≡ pull)
        → (q ≡ true) ↔ (b ≡ pull)
        → ((not p || not q) ≡ false) ↔ ((a ≡ pull) × (b ≡ pull))
    by_tests p q f g =
        (λ h. (f.0 (ground arith), g.0 (ground arith)), λ h. ground (arith, f.1 h.0, g.1 h.1))

head_failure-Decides :
    (pull : PullRequestSnapshot) (pull_commits : List PullCommit) (commits : List CommitEvidence)
    → length commits ≡ length pull_commits
    → 1 ≤ length pull_commits
    → Distinct (pull_shas pull_commits)
    → Decides (last (pull_shas pull_commits) >>= head_failure pull pull_commits commits) (
        (last (pull_shas pull_commits) ≡ ok pull.head_sha)
        × InOrder pull_commits commits pull.head_sha)
unfolding head_failure
head_failure-Decides pull pull_commits commits len some_there distinct =
    let shas = pull_shas pull_commits in
    let (head, at) =
      last-there shas (omega (arith, length-map (λ (c : PullCommit). c.sha) pull_commits)) in
    elim (Bool-cases (head == pull.head_sha)) [
      | inl e ↦
          let same : head ≡ pull.head_sha = (list_beq_iff head pull.head_sha).0 e in
          let own = at ∙ ap ok same in
          let lengths : length (commit_shas commits) ≡ length shas = omega (
            arith,
            length-map (λ (c : PullCommit). c.sha) pull_commits,
            length-map (λ (c : CommitEvidence). c.sha) commits,
            len,
          ) in
          let (b, ends, says) =
            commit_order_is_valid-InOrder pull_commits commits pull.head_sha lengths distinct own in
          (
            if b then none else some commit_order_mismatch,
            rw (at, e, ends) refl,
            (λ h. (own, says.0 (ground arith)), λ h. ground (arith, says.1 h.1)),
          )
      | inr n ↦ (
        some head_mismatch,
        rw (at, n) refl,
        (λ h. cc, λ h. absurd (ground (arith, list_beq_iff head pull.head_sha, at, h.0))),
      )
    ]

-- the pull request is open and unchanged, and the comparison and the commits are its own
unfoldable pub IsReady : DcoEvidenceInput → Type 0
IsReady e =
    (e.event.state ≡ opened)
    × (((e.before ≡ e.event) × (e.after ≡ e.event))
        × (IsCompared e.comparison e.event
            × (IsCounted e e.event.commit_count
                × (Distinct (pull_shas e.comparison.commits)
                    × ((last (pull_shas e.comparison.commits) ≡ ok e.event.head_sha)
                        × InOrder e.comparison.commits e.commits e.event.head_sha)))))

pub first_failure-Decides :
    (e : DcoEvidenceInput) → 1 ≤ e.event.commit_count → Decides (first_failure e) (IsReady e)
unfolding first_failure IsReady
first_failure-Decides e positive =
    let pull = e.event in
    guard _ _ _ _ _ (opened_iff pull.state) (λ _.
      guard _ _ _ _ _ (unchanged_iff e.before e.after pull) (λ _.
        guard _ _ _ _ _ (is_of_pull_iff e.comparison pull) (λ _.
          guard _ _ _ _ _ (has_count_iff e pull.commit_count) (λ counted.
            guard _ _ _ _ _ (unique_iff (pull_shas e.comparison.commits)) (λ distinct.
              head_failure-Decides pull e.comparison.commits e.commits (omega (arith, counted))
                (omega (arith, counted)) distinct)))))
