-- ===== src/Evaluation/Types.antt =====
-- types/evaluation.ts. Scores are numbers of thousandths of a point, so that the fractions a run's
-- average can have are kept; free text is compared nowhere and stands as it is.
use prompt_maker_studio.Base.{ℕ, Bool, List, Option, Text}

pub data EvalMethod : Type 0 where
  rule judge manual : EvalMethod

abbrev pub Variables : Type 0
Variables = List (Text × Text)

pub record EvalCaseInput : Type 0 where
  pub method : EvalMethod
  pub name : Text
  pub criteria : Text
  pub variables : Variables
  pub intentionally_empty : Bool

pub record EvalCase : Type 0 where
  pub id : ℕ
  pub method : EvalMethod
  pub name : Option Text
  pub criteria : Option Text
  pub variables : Variables
  pub intentionally_empty : Bool
  pub position : ℕ

pub record EvalProposal : Type 0 where
  pub method : EvalMethod
  pub name : Text
  pub criteria : Option Text
  pub variables : Variables
  pub rationale : Text

pub record EvalResult : Type 0 where
  pub id : ℕ
  pub method : EvalMethod
  pub score : Option ℕ
  pub human_score : Option ℕ
  pub is_pending : Bool
  pub output_text : Option Text

pub record EvalRun : Type 0 where
  pub id : ℕ
  pub prompt_version_number : ℕ
  pub tested_version : Option ℕ
  pub score : Option ℕ
  pub results : List EvalResult
