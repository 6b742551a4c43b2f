-- ===== src/Dco/Message.antt =====
-- CommitEvidence.from_graphql of dco.py: the message is read for sign-offs and dropped.
use extra_codeowners.Prelude.{
  ℕ, Bool, true, false, not, List, ◌++◌, ltb, ◌==◌, nat_eq, list_eq, length, any, ◌≡◌, ◌↔◌,
  contains, Result, ok, err, ◌>>=◌, ◌>>◌, refuse, traverse, bind-inv, arith, Memᴰ, any-true,
  list_beq_iff, subst, ap, ◌∙◌, ◌≤◌, Option-cases, some, inl, inr,
}
use extra_codeowners.Text.{Str, text, newline, split, decimal, is_surrogate, utf8_length, Unicode}
use extra_codeowners.Json.{
  Json, null, negative, real, object, boolean, natural, string, array, Fields, get, list_of,
}
use extra_codeowners.Models.Normalize.{ValueError}
use extra_codeowners.Dco.{GitCommitIdentity, CommitEvidence}
use extra_codeowners.Dco.Validate.{
  max_commit_parents, text_bytes, validate_identity, validate_sha, validate_parents,
  validate_commit,
}
use extra_codeowners.Dco.Read.{mapping, required, as_text, optional_user, optional_verification}

abbrev pub max_commit_message_bytes : ℕ
max_commit_message_bytes = 1000000

abbrev pub dependabot_signoff : Str
dependabot_signoff = text "Signed-off-by: dependabot[bot] <support@github.com>"

unfoldable pub identity_from_graphql : Unicode → Fields → Str → Result ValueError GitCommitIdentity
unfolding required as_text validate_identity
identity_from_graphql u payload name = do
  raw_name ← required payload (text "name") name
  raw_email ← required payload (text "email") name
  own_name ← as_text raw_name
  email ← as_text raw_email
  validate_identity u (record { name = own_name; email = email })

unfoldable pub as_message : Json → Result ValueError Str
unfolding contains text_bytes
as_message (string message) = do
  refuse (contains message 0) (text "commit message must not contain NUL")
  size ← text_bytes message
  refuse (ltb max_commit_message_bytes size) (
      text "commit message exceeds the "
      ++ (decimal max_commit_message_bytes ++ text "-byte limit"))
  ok message
as_message _ = err (text "commit message must be text")

unfoldable pub message_from_graphql : Fields → Result ValueError Str
unfolding required as_message
message_from_graphql payload = do
  raw ← required payload (text "message") (text "GraphQL Commit")
  as_message raw

-- f"Signed-off-by: {author.name} <{author.email}>"
unfoldable pub signoff_of : GitCommitIdentity → Str
signoff_of author =
    text "Signed-off-by: " ++ (author.name ++ (text " <" ++ (author.email ++ text ">")))

unfoldable pub as_parent_count : Json → Result ValueError ℕ
as_parent_count (natural n) = do
  refuse (ltb max_commit_parents n) (text "commit parent count exceeds the supported limit")
  ok n
as_parent_count _ = err (text "commit parent count exceeds the supported limit")

-- hasNextPage has to be False
unfoldable pub no_next_page : Json → Result ValueError (Unit {0})
no_next_page (boolean false) = ok tt
no_next_page _ = err (text "commit parent list exceeds the supported limit")

unfoldable pub complete_list : Json → ℕ → Result ValueError (List Json)
unfolding list_of
complete_list (array items) count = do
  refuse (not (length (list_of items) == count)) (text "commit parents must be a complete list")
  ok (list_of items)
complete_list _ count = err (text "commit parents must be a complete list")

unfoldable pub parent_oid : Json → Result ValueError Json
unfolding mapping required
parent_oid parent = do
  fields ← mapping parent (text "commit parent")
  required fields (text "oid") (text "commit parent")

unfoldable pub parents_from_graphql : Fields → Result ValueError (List Json)
unfolding mapping required as_parent_count no_next_page complete_list parent_oid traverse
parents_from_graphql payload = do
  raw_parents ← required payload (text "parents") (text "GraphQL Commit")
  parents ← mapping raw_parents (text "commit parents")
  raw_count ← required parents (text "totalCount") (text "commit parents")
  raw_nodes ← required parents (text "nodes") (text "commit parents")
  raw_page ← required parents (text "pageInfo") (text "commit parents")
  page_info ← mapping raw_page (text "commit parent page info")
  has_next_page ← required page_info (text "hasNextPage") (text "commit parent page info")
  count ← as_parent_count raw_count
  no_next_page has_next_page
  nodes ← complete_list raw_nodes count
  traverse parent_oid nodes

-- the message of the payload, as the constructor takes it
pub record IsMessage (payload : Fields) (message : Str) : Type 0 where
  pub given : get (text "message") payload ≡ some (string message)
  pub no_nul : contains message 0 ≡ false
  pub encodes : any is_surrogate message ≡ false
  pub bounded : utf8_length message ≤ 1000000

as_message-inv :
    (raw : Json) (message : Str)
    → as_message raw ≡ ok message
    → (raw ≡ string message)
      × (contains message 0 ≡ false)
      × (any is_surrogate message ≡ false)
      × (utf8_length message ≤ 1000000)
unfolding as_message text_bytes
as_message-inv null message h = cc
as_message-inv (boolean b) message h = cc
as_message-inv (natural n) message h = cc
as_message-inv (negative n) message h = cc
as_message-inv (real r) message h = cc
as_message-inv (array a) message h = cc
as_message-inv (object o) message h = cc
as_message-inv (string s) message h =
    let same : s ≡ message = ground arith in
    let no_nul : contains s 0 ≡ false = ground arith in
    let encodes : any is_surrogate s ≡ false = ground arith in
    let small : ltb max_commit_message_bytes (utf8_length s) ≡ false = ground arith in
    (
      ap string same,
      ground (arith, same, no_nul),
      ground (arith, same, encodes),
      subst (λ m. utf8_length m ≤ 1000000) same (ground (arith, small)),
    )

required-given :
    (fields : Fields) (name where_ : Str) (raw : Json)
    → required fields name where_ ≡ ok raw
    → get name fields ≡ some raw
unfolding required
required-given fields name where_ raw h = elim (Option-cases (get name fields)) [
  | inl nothing ↦ absurd (ground (arith, nothing))
  | inr (j, e) ↦ ground (arith, e)
]

message_from_graphql-IsMessage :
    (payload : Fields) (message : Str)
    → message_from_graphql payload ≡ ok message
    → IsMessage payload message
unfolding message_from_graphql
message_from_graphql-IsMessage payload message h =
    let (raw, found, h1) =
      bind-inv (required payload (text "message") (text "GraphQL Commit")) _ h in
    let (same, no_nul, encodes, bounded) = as_message-inv raw message h1 in
    record {
      given =
          required-given payload (text "message") (text "GraphQL Commit") raw found ∙ ap some same;
      no_nul = no_nul;
      encodes = encodes;
      bounded = bounded;
    }

module _ (casefold : Str → Str) where
  -- any(line.casefold() == expected_signoff for line in message_lines)
  unfoldable pub has_signoff : GitCommitIdentity → Str → Bool
  unfolding any split signoff_of
  has_signoff author message =
      any (λ line. casefold line == casefold (signoff_of author)) (split newline message)

  -- the part behind the message
  unfoldable pub finish_commit :
      Unicode
      → Fields
      → Fields
      → GitCommitIdentity
      → GitCommitIdentity
      → Str
      → Result ValueError CommitEvidence
  unfolding required get as_text parents_from_graphql optional_user optional_verification traverse
      validate_commit has_signoff contains split
  finish_commit u payload author_payload author committer message = do
    raw_parents ← parents_from_graphql payload
    github_author ← optional_user u (get (text "user") author_payload) (text "GitHub commit author")
    verification ← optional_verification u (get (text "signature") payload)
    raw_sha ← required payload (text "oid") (text "GraphQL Commit")
    sha ← as_text raw_sha
    parents ← traverse as_text raw_parents
    validate_commit (record {
      sha = sha;
      parents = parents;
      author = author;
      committer = committer;
      author_signoff_present = has_signoff author message;
      dependabot_signoff_present = contains (split newline message) dependabot_signoff;
      github_author = github_author;
      verification = verification;
    })

  unfoldable pub commit_from_graphql : Unicode → Fields → Result ValueError CommitEvidence
  unfolding mapping required identity_from_graphql message_from_graphql finish_commit
  commit_from_graphql u payload = do
    raw_author ← required payload (text "author") (text "GraphQL Commit")
    author_payload ← mapping raw_author (text "Git commit author")
    raw_committer ← required payload (text "committer") (text "GraphQL Commit")
    committer_payload ← mapping raw_committer (text "Git commit committer")
    author ← identity_from_graphql u author_payload (text "Git commit author")
    committer ← identity_from_graphql u committer_payload (text "Git commit committer")
    message ← message_from_graphql payload
    finish_commit u payload author_payload author committer message

  -- a line of the message is the author's sign-off
  abbrev pub HasLine : GitCommitIdentity → Str → Type 0
  HasLine author message =
      (line : Str) × Memᴰ line (split newline message)
      × (casefold line ≡ casefold (signoff_of author))

  has_signoff_iff :
      (author : GitCommitIdentity) (message : Str)
      → (has_signoff author message ≡ true) ↔ HasLine author message
  unfolding has_signoff
  has_signoff_iff author message =
      let expected = casefold (signoff_of author) in
      let (to, from) = any-true (λ line. casefold line == expected) (split newline message) in
      (
        λ h. let (line, m, e) = to h in (line, m, (list_beq_iff (casefold line) expected).0 e),
        λ (line, m, e). from (line, m, (list_beq_iff (casefold line) expected).1 e),
      )

  validate_commit_id :
      (c d : CommitEvidence) → validate_commit c ≡ ok d → (c ≡ d) × (validate_commit d ≡ ok d)
  unfolding validate_commit
  validate_commit_id c d h =
      let (_, sha, h1) = bind-inv (validate_sha c.sha) _ h in
      let (_, parents, h2) = bind-inv (validate_parents c.parents) _ h1 in
      let same : c ≡ d = ground (arith, h2) in (same, subst (λ x. validate_commit x ≡ ok d) same h)

  finish_commit-flag :
      (u : Unicode) (payload author_payload : Fields) (author committer : GitCommitIdentity)
      (message : Str) (c : CommitEvidence)
      → finish_commit u payload author_payload author committer message ≡ ok c
      → ((c.author_signoff_present ≡ true) ↔ HasLine c.author message) × (validate_commit c ≡ ok c)
  unfolding finish_commit
  finish_commit-flag u payload author_payload author committer message c h =
      let (raw_parents, _, h1) = bind-inv (parents_from_graphql payload) _ h in
      let (github_author, _, h2) =
        bind-inv (optional_user u (get (text "user") author_payload) (text "GitHub commit author"))
          _ h1 in
      let (verification, _, h3) =
        bind-inv (optional_verification u (get (text "signature") payload)) _ h2 in
      let (raw_sha, _, h4) =
        bind-inv (required payload (text "oid") (text "GraphQL Commit")) _ h3 in
      let (sha, _, h5) = bind-inv (as_text raw_sha) _ h4 in
      let (parents, _, h6) = bind-inv (traverse as_text raw_parents) _ h5 in
      let built : CommitEvidence = record {
        sha = sha;
        parents = parents;
        author = author;
        committer = committer;
        author_signoff_present = has_signoff author message;
        dependabot_signoff_present = contains (split newline message) dependabot_signoff;
        github_author = github_author;
        verification = verification;
      } in
      let (same, valid) = validate_commit_id built c h6 in
      (
        subst (λ d. (d.author_signoff_present ≡ true) ↔ HasLine d.author message) same
            (has_signoff_iff author message),
        valid,
      )

  -- A commit that was read has a message, the text of the payload, which has no NUL and no lone
  -- surrogate and at most 1,000,000 bytes in UTF-8; its author is marked as
  -- having signed off exactly when a line of that message is the author's sign-off, letter case
  -- apart; and the commit is a valid model.
  pub commit_from_graphql-IsRead :
      (u : Unicode) (payload : Fields) (c : CommitEvidence)
      → commit_from_graphql u payload ≡ ok c
      → (message : Str) × IsMessage payload message
        × ((c.author_signoff_present ≡ true) ↔ HasLine c.author message)
        × (validate_commit c ≡ ok c)
  unfolding commit_from_graphql
  commit_from_graphql-IsRead u payload c h =
      let (raw_author, _, h1) =
        bind-inv (required payload (text "author") (text "GraphQL Commit")) _ h in
      let (author_payload, _, h2) = bind-inv (mapping raw_author (text "Git commit author")) _ h1 in
      let (raw_committer, _, h3) =
        bind-inv (required payload (text "committer") (text "GraphQL Commit")) _ h2 in
      let (committer_payload, _, h4) =
        bind-inv (mapping raw_committer (text "Git commit committer")) _ h3 in
      let (author, _, h5) =
        bind-inv (identity_from_graphql u author_payload (text "Git commit author")) _ h4 in
      let (committer, _, h6) =
        bind-inv (identity_from_graphql u committer_payload (text "Git commit committer")) _ h5 in
      let (message, read, h7) = bind-inv (message_from_graphql payload) _ h6 in
      let (flag, valid) =
        finish_commit-flag u payload author_payload author committer message c h7 in
      (message, message_from_graphql-IsMessage payload message read, flag, valid)
