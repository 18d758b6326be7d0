-- ===== src/Ai/Review.antt =====
-- The pydantic models `ReviewComment` and `ReviewResult`: their fields, and the constraints that
-- pydantic checks of them.
use revix.Prelude.{ℕ, Text, Json, Option, List}

pub record ReviewComment : Type 0 where
  pub path : Text
  pub line : ℕ
  pub side : Text
  pub body : Text
  pub severity : Text
  pub suggested_fix : Option Text
  pub agent_id : Option Text

pub record ReviewResult : Type 0 where
  pub summary : Text
  pub score : ℕ
  pub comments : List ReviewComment
  pub agent_reports : Json
