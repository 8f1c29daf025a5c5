-- ===== src/Grading/Types.antt =====
-- internal/grading/engine.go: the types of the grader. `F` is float64.
use mindengage_lms.Prelude.{ℕ, ℤ, String, Bool, Option, List, Result}
use mindengage_lms.Exam.Models.{Value}

-- A minimal view of a question needed for grading.
pub record Q (F : Type 0) : Type 0 where
  pub q_type : String
  pub points : F
  pub answer_key : List String

-- The notes that a strategy attaches, one constructor for each text.
pub data Feedback : Type 0 where
  no_strategy close_match manual_required ocr_not_configured no_keywords : Feedback
  ocr_failed : String → Feedback
  keyword_hits : ℕ → ℕ → Feedback

pub record GradeResult (F : Type 0) : Type 0 where
  pub auto_points : F
  pub max_points : F
  pub needs_manual : Bool
  pub feedback : List Feedback

abbrev pub graded :
    {F : Type 0} → (points max : F) → (manual : Bool) → List Feedback → GradeResult F
graded p m b notes = record { auto_points = p; max_points = m; needs_manual = b; feedback = notes }

pub data GradeError : Type 0 where
  response_must_be_string response_must_be_strings response_must_be_bytes_or_path : GradeError

-- The interfaces Grader and Strategy: their method Grade. The result that Go returns beside an error
-- follows from it: it has no points and no feedback, and only that of a scan needs manual grading.
abbrev pub Grade : Type 0 → Type 0
Grade F = Q F → Value F → Result GradeError (GradeResult F)

-- The interface OCR, implemented outside the engine.
pub record Ocr : Type 0 where
  pub extract : String → Result String String
  pub extract_path : String → Result String String

-- Engine options.
pub record Config : Type 0 where
  pub max_edit_distance : ℤ
  pub allow_partial_multi : Bool
  pub ocr : Option Ocr
