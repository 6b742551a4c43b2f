-- ===== src/Codeowners/Reads.antt =====
-- What `parse_codeowners` makes of each line.
use mathlib.Core.List.{append_assoc, append-nil}
use extra_codeowners.Prelude.{
  ℕ, suc, false, List, [], ◌∷◌, ◌++◌, ◌≡◌, refl, ap, sym, ◌∙◌, subst, arith, ltb, Result, ok, err,
  ◌>>=◌, Result-cases, inl, inr, any,
}
use extra_codeowners.Text.{Str, strip, utf8_length, is_surrogate, split_lines, Unicode}
use extra_codeowners.Text.Laws.{strip_idem}
use extra_codeowners.Models.Normalize.{ValueError}
use extra_codeowners.Codeowners.Pattern.{validate_pattern, regex_of_value}
use extra_codeowners.Codeowners.Document.{CodeownersRule, new_rule, CodeownersDocument}
use extra_codeowners.Codeowners.Parser.{
  max_codeowners_bytes, CodeownersIssue, ParseFailure, parse_error, Line, skipped, refused,
  accepted, Owners, parse_rule_owners, parse_rule, parse_owners, before_comment, split_line,
  parse_tokens, parse_line, Parsed, add_line, parse_lines, finish, parse_encodable,
  parse_codeowners,
}

-- a validated pattern is stripped, and passes again
validate_pattern_idem :
    (raw : Str) {value : Str} → validate_pattern raw ≡ ok value → validate_pattern value ≡ ok value
validate_pattern_idem raw {value} h =
    let stripped : value ≡ strip raw = unfold validate_pattern in ground arith in
    let again : validate_pattern (strip raw) ≡ validate_pattern raw =
      unfold validate_pattern in rw (strip_idem raw) refl in
    subst (λ v. validate_pattern v ≡ ok value) (sym stripped) (again ∙ h)

-- the rule that an accepted line becomes
abbrev pub rule_at : Str → List Str → ℕ → CodeownersRule
rule_at pattern owners n = record {
  pattern = pattern;
  owners = owners;
  line_number = n;
  regex = regex_of_value pattern;
}

-- every line in turn: blank lines and comments give nothing, a malformed line its issues, any
-- other line a rule with its number
pub data Reads (u : Unicode)
    : ℕ → List Str → List CodeownersRule → List CodeownersIssue → Type 0 where
  done : {n : ℕ} → Reads u n [] [] []
  skip :
      {n : ℕ} {line : Str} {lines : List Str} {rules : List CodeownersRule}
      {issues : List CodeownersIssue}
      → parse_line u n line ≡ skipped
      → Reads u (suc n) lines rules issues
      → Reads u n (line ∷ lines) rules issues
  refuse_line :
      {n : ℕ} {line : Str} {lines : List Str} {rules : List CodeownersRule}
      {found issues : List CodeownersIssue}
      → parse_line u n line ≡ refused found
      → Reads u (suc n) lines rules issues
      → Reads u n (line ∷ lines) rules (found ++ issues)
  accept_line :
      {n : ℕ} {line pattern : Str} {owners : List Str} {lines : List Str}
      {rules : List CodeownersRule} {issues : List CodeownersIssue}
      → parse_line u n line ≡ accepted pattern owners
      → Reads u (suc n) lines rules issues
      → Reads u n (line ∷ lines) (rule_at pattern owners n ∷ rules) issues

module _ (u : Unicode) where
  parse_tokens-valid :
      (n : ℕ) (tokens : List Str) {pattern : Str} {owners : List Str}
      → parse_tokens u n tokens ≡ accepted pattern owners
      → validate_pattern pattern ≡ ok pattern
  unfolding parse_rule parse_tokens
  parse_tokens-valid n [] h = absurd (ground arith)
  parse_tokens-valid n (raw ∷ raws) {pattern} {owners} h =
      elim (Result-cases (validate_pattern raw)) [
        | inl (value, e) ↦
            let kept : value ≡ pattern =
              kept_pattern value (parse_owners u n raws)
                (ap (λ r. parse_rule u n r raws) (sym e) ∙ h) in
            subst (λ v. validate_pattern v ≡ ok v) kept (validate_pattern_idem raw e)
        | inr (error, e) ↦ absurd (ground arith)
      ]
    where
      kept_pattern :
          (value : Str) (found : Owners)
          → parse_rule_owners value found ≡ accepted pattern owners
          → value ≡ pattern
      kept_pattern value found h' = unfold parse_rule_owners in ground arith

  parse_line-valid :
      (n : ℕ) (line : Str) {pattern : Str} {owners : List Str}
      → parse_line u n line ≡ accepted pattern owners
      → validate_pattern pattern ≡ ok pattern
  parse_line-valid n line {pattern} {owners} h =
      let read : parse_tokens u n (before_comment (split_line (strip line)))
          ≡ accepted pattern owners =
        unfold parse_line in ground arith in
      parse_tokens-valid n (before_comment (split_line (strip line))) read

  new_rule-valid :
      (pattern : Str) (owners : List Str) (n : ℕ)
      → validate_pattern pattern ≡ ok pattern
      → new_rule pattern owners n ≡ ok (rule_at pattern owners n)
  unfolding new_rule validate_pattern
  new_rule-valid pattern owners n h =
      ap
        (λ r. (r >>= λ value. ok (regex_of_value value)) >>= λ regex.
          ok (record (rule_at pattern owners n) { regex = regex }))
        h

  -- the loop returns, and has read every line
  abbrev ReadsAll : ℕ → List Str → Parsed → Result ValueError Parsed → Type 0
  ReadsAll n lines parsed result =
      (rules : List CodeownersRule) × (issues : List CodeownersIssue) × Reads u n lines rules issues
      × (result ≡ ok (record { rules = parsed.rules ++ rules; issues = parsed.issues ++ issues }))

  parse_lines-ReadsAll :
      (n : ℕ) (lines : List Str) (parsed : Parsed)
      → ReadsAll n lines parsed (parse_lines u n lines parsed)
  unfolding parse_lines
  parse_lines-ReadsAll n [] parsed = ([], [], done, rw (append-nil, append-nil) refl)
  parse_lines-ReadsAll n (line ∷ lines) parsed =
      by_line (parse_line u n line) refl (λ p. parse_lines-ReadsAll (suc n) lines p)
    where
      by_line :
          (l : Line)
          → parse_line u n line ≡ l
          → ((p : Parsed) → ReadsAll (suc n) lines p (parse_lines u (suc n) lines p))
          → ReadsAll n
              (line ∷ lines)
              parsed
              (add_line n l parsed >>= λ p. parse_lines u (suc n) lines p)
      by_line skipped e rec =
          let (rules, issues, reads, h) = rec parsed in (rules, issues, skip e reads, h)
      by_line (refused found) e rec =
          let (rules, issues, reads, h) = rec (record parsed { issues = parsed.issues ++ found }) in
          (rules, found ++ issues, refuse_line e reads, rw (← append_assoc) h)
      by_line (accepted pattern owners) e rec =
          let rule = rule_at pattern owners n in
          let (rules, issues, reads, h) =
            rec (record parsed { rules = parsed.rules ++ rule ∷ [] }) in
          (
            rule ∷ rules,
            issues,
            accept_line e reads,
            rw (new_rule-valid pattern owners n (parse_line-valid n line e))
                (h ∙ rw append_assoc refl),
          )

  -- the outcome for a file that was read: a document, or the issues
  abbrev pub outcome :
      List CodeownersRule → List CodeownersIssue → Result ParseFailure CodeownersDocument
  outcome rules [] = ok (record { rules = rules })
  outcome rules (issue ∷ issues) = err (parse_error (issue ∷ issues))

  -- A file without lone surrogates and within the size limit is read line by line, from line 1. If no line is malformed, the
  -- result is the document of the rules of all lines, in order. Otherwise it is a parse error with
  -- the issues of all malformed lines, in order; no other error is raised.
  pub parse_codeowners-Reads :
      (content : Str)
      → any is_surrogate content ≡ false
      → ltb max_codeowners_bytes (utf8_length content) ≡ false
      → (rules : List CodeownersRule) × (issues : List CodeownersIssue) × Reads u 1
          (split_lines content)
          rules
          issues
        × (parse_codeowners u content ≡ outcome rules issues)
  unfolding parse_codeowners parse_encodable finish
  parse_codeowners-Reads content encodes fits =
      let start : Parsed = record { rules = []; issues = [] } in
      let (rules, issues, reads, h) = parse_lines-ReadsAll 1 (split_lines content) start in
      (rules, issues, reads, rw encodes (rw fits (ap finish h ∙ finish_outcome rules issues)))
    where
      finish_outcome :
          (rules : List CodeownersRule) (issues : List CodeownersIssue)
          → finish (ok (record { rules = rules; issues = issues })) ≡ outcome rules issues
      finish_outcome rules [] = refl
      finish_outcome rules (issue ∷ issues) = refl
