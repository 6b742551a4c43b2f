-- ===== src/Dco/Exceptions.antt =====
-- What a passing result says of commits that their author did not sign off.
use extra_codeowners.Prelude.{
  true, List, [], ◌∷◌, ◌≡◌, ◌⊎◌, inl, inr, nat_eq, list_eq, option_eq, list_beq_iff, some, length,
  ok, arith, Memᴰ, Option-cases,
}
use mathlib.Core.List.Memᴰ
use extra_codeowners.Text.{Unicode}
use extra_codeowners.Dco.{
  PullRequestSnapshot, CommitEvidence, CommitVerification, DcoEvidenceInput, DcoEvaluationResult,
  user_eq, identity_eq,
}
use extra_codeowners.Dco.Evaluate.{
  dependabot_login, dependabot_id, is_official_dependabot_pull, is_official_dependabot_commit,
  is_github_signature, evaluate_dco,
}
use extra_codeowners.Dco.Failures.{IsReady}
use extra_codeowners.Dco.Correct.{IsValidated, IsSigned, evaluate_dco-IsSigned}

-- GitHub made the commit, as the only one of the pull request, for the account of Dependabot.
pub record IsDependabots (e : DcoEvidenceInput) (c : CommitEvidence) : Type 0 where
  pub only : e.commits ≡ c ∷ []
  pub opened_by : (e.event.author.login ≡ dependabot_login) × (e.event.author.id ≡ dependabot_id)
  pub same_repository : e.event.head_repository.id ≡ e.event.repository.id
  pub is_head : c.sha ≡ e.event.head_sha
  pub on_base : c.parents ≡ e.event.base_sha ∷ []
  pub verified :
      (v : CommitVerification) × (c.verification ≡ some v)
      × ((v.is_valid ≡ true) × (v.was_signed_by_github ≡ true))
  pub trailer : c.dependabot_signoff_present ≡ true

pull_facts :
    (pull : PullRequestSnapshot)
    → is_official_dependabot_pull pull ≡ true
    → (pull.author.login ≡ dependabot_login)
      × (pull.author.id ≡ dependabot_id)
      × (pull.head_repository.id ≡ pull.repository.id)
      × (pull.commit_count ≡ 1)
unfolding is_official_dependabot_pull
pull_facts pull h =
    let logins = list_beq_iff pull.author.login dependabot_login in
    (ground arith, ground arith, ground arith, ground arith)

commit_facts :
    (c : CommitEvidence) (pull : PullRequestSnapshot)
    → is_official_dependabot_commit c pull ≡ true
    → (c.sha ≡ pull.head_sha)
      × (c.parents ≡ pull.base_sha ∷ [])
      × (c.dependabot_signoff_present ≡ true)
      × ((v : CommitVerification) × (c.verification ≡ some v)
          × ((v.is_valid ≡ true) × (v.was_signed_by_github ≡ true)))
unfolding is_official_dependabot_commit is_github_signature
commit_facts c pull h =
    let shas = list_beq_iff c.sha pull.head_sha in
    let parents = list_beq_iff c.parents (pull.base_sha ∷ []) in
    elim (Option-cases c.verification) [
      | inl e ↦ absurd (ground (arith, e))
      | inr (v, e) ↦ (
        ground (arith, e),
        ground (arith, e),
        ground (arith, e),
        (v, e, (ground (arith, e), ground (arith, e))),
      )
    ]

single : (cs : List CommitEvidence) (c : CommitEvidence) → length cs ≡ 1 → Memᴰ c cs → cs ≡ c ∷ []
single [] c h m = absurd (omega arith)
single (x ∷ []) c h m = ground (arith, Memᴰ.eq_of_singleton m)
single (x ∷ y ∷ cs) c h m = absurd (omega arith)

commits_counted : (e : DcoEvidenceInput) → IsReady e → length e.commits ≡ e.event.commit_count
unfolding IsReady
commits_counted e ready = ready.1.1.1.0.3

-- When validated evidence passes, each of its commits is signed off by its author, or is the only
-- commit of a pull request that Dependabot opened inside the repository, on top of the base, with a
-- valid signature of GitHub and Dependabot's own sign-off.
pub unsigned-IsDependabots :
    (u : Unicode) (e : DcoEvidenceInput) (r : DcoEvaluationResult) (c : CommitEvidence)
    → IsValidated u e
    → evaluate_dco e ≡ ok r
    → r.passed ≡ true
    → Memᴰ c e.commits
    → (c.author_signoff_present ≡ true) ⊎ IsDependabots e c
unsigned-IsDependabots u e r c v ends passed m =
    let (r', ends', _, says) = evaluate_dco-IsSigned u e v in
    let all_signed : IsSigned e = says.0 (ground arith) in
    elim (all_signed.signed c m) [
      | inl author ↦ inl author
      | inr (p, q) ↦
          let (login, id, inside, count) = pull_facts e.event p in
          let (sha, parents, trailer, verified) = commit_facts c e.event q in
          let counted : length e.commits ≡ e.event.commit_count =
            commits_counted e all_signed.ready in
          inr (record {
            only = single e.commits c (omega (arith, counted, count)) m;
            opened_by = (login, id);
            same_repository = inside;
            is_head = sha;
            on_base = parents;
            verified = verified;
            trailer = trailer;
          })
    ]
