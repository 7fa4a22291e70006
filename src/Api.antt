-- ===== src/Api.antt =====
-- lib/api/errors.ts (under frontend/src): what a call of the server ends with, as the hooks read it.

-- `ApiError` with its status, another error, or a thrown value that is none.
use prompt_maker_studio.Base.{ℕ, Text}

pub data Failure : Type 0 where
  api_error : (status : ℕ) (message : Text) → Failure
  other_error : (message : Text) → Failure
  not_an_error : Failure

pub data Outcome (A : Type 0) : Type 0 where
  answered : A → Outcome A
  failed : Failure → Outcome A
