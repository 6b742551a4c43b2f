-- ===== src/Models/Results.antt =====
-- The result of one evaluation, from models.py.
use extra_codeowners.Prelude.{Bool, true, false, List}
use extra_codeowners.Text.{Str}

pub data EvaluationConclusion : Type 0 where
  success failure : EvaluationConclusion

-- The messages of this program leave `paths` empty.
pub record EvaluationMessage : Type 0 where
  pub code : Str
  pub message : Str

pub record PathEvidence : Type 0 where
  pub path : Str
  pub non_delegable : Bool
  pub eligible_apps : List Str
  pub approved_apps : List Str
  pub explanation : Str

pub record OwnerSetResult : Type 0 where
  pub owners : List Str
  pub paths : List Str
  pub satisfied : Bool
  pub satisfied_by : List Str
  pub explanation : Str
  pub path_evidence : List PathEvidence

pub record EvaluationResult : Type 0 where
  pub conclusion : EvaluationConclusion
  pub summary : Str
  pub requirements : List OwnerSetResult
  pub errors : List EvaluationMessage
  pub warnings : List EvaluationMessage
  pub unowned_paths : List Str

unfoldable pub is_success : EvaluationConclusion → Bool
is_success success = true
is_success failure = false

unfoldable pub passed : EvaluationResult → Bool
unfolding is_success
passed result = is_success result.conclusion
