-- ===== src/Models/Paths.antt =====
-- Repository paths that models.py accepts.
use extra_codeowners.Prelude.{◌≡◌, arith, ok}
use extra_codeowners.Text.{Str}
use extra_codeowners.Models.Normalize.{normalize_repository_path}

-- the path of a `ChangedFile`: the validator returned it
abbrev pub IsNormalized : Str → Type 0
IsNormalized path = normalize_repository_path path ≡ ok path

-- Validation never changes a path.
pub normalize_repository_path-eq :
    (path : Str) {p : Str} → normalize_repository_path path ≡ ok p → p ≡ path
unfolding normalize_repository_path
normalize_repository_path-eq path h = ground arith
