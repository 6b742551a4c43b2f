-- ===== src/Examples/Reports.antt =====
-- The report of a result whose texts try to forge a line.
use extra_codeowners.Prelude.{[], ◌∷◌, ◌≡◌, nat_eq}
use extra_codeowners.Text.{Str, text, newline, split}
use extra_codeowners.Models.Results.{EvaluationResult, failure}
use extra_codeowners.Models.Rendering.{check_lines, check_output}
use extra_codeowners.Models.Layout.{check_output_lines}
use extra_codeowners.Examples.Parsing.{ascii}

-- a path with a newline and a tag in it
abbrev forged : Str
forged = b'a' ∷ newline ∷ text "</code>"

abbrev result : EvaluationResult
result = record {
  conclusion = failure;
  summary = forged;
  requirements = [];
  errors = record { code = text "c"; message = forged } ∷ [];
  warnings = [];
  unowned_paths = forged ∷ [];
}

check_output_lines_example : split newline (check_output ascii result) ≡ check_lines ascii result
check_output_lines_example = check_output_lines ascii result
