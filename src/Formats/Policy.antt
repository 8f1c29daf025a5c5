-- ===== src/Formats/Policy.antt =====
-- internal/formats/policy.go and internal/formats/adapter.go. The parts of a policy that no code
-- reads (calculator, item constraints, proctor, meta) are left out.
use mindengage_lms.Prelude.{
  ℤ, pos, ltb_ℤ, String, Bool, Option, none, some, List, [], ◌∷◌, any, Result, ok, err, ◌>>◌,
  fail_if, str_eq,
}
use mindengage_lms.Strings.{is_empty}

pub record Module : Type 0 where
  pub id : String
  pub time_limit_sec : ℤ

pub record Section : Type 0 where
  pub id : String
  pub title : String
  pub modules : List Module

pub record Navigation : Type 0 where
  pub allow_back : Bool
  pub module_locked : Bool

pub record Policy : Type 0 where
  pub sections : List Section
  pub navigation : Navigation

-- The errors of the package, each with the values that its text shows.
pub data FormatError : Type 0 where
  policy_required section_id_required : FormatError
  duplicate_section : String → FormatError
  module_id_required : String → FormatError
  duplicate_module : String → String → FormatError
  negative_time_limit : String → String → FormatError
  wrong_module_time : String → String → ℤ → FormatError
  wrong_choice_count unsupported_type : String → FormatError
  numeric_not_supported allow_back_set module_not_locked import_not_implemented : FormatError

-- The set that `seen` and `modSeen` stand for.
unfoldable pub is_seen : String → List String → Bool
is_seen k seen = any (λ j. str_eq j k) seen

-- The loop over the modules of the section `s`.
unfoldable pub validate_modules :
    (s : String) → (mod_seen : List String) → List Module → Result FormatError (Unit {0})
validate_modules s mod_seen [] = ok tt
validate_modules s mod_seen (m ∷ ms) = do
  fail_if (is_empty m.id) (module_id_required s)
  fail_if (is_seen m.id mod_seen) (duplicate_module m.id s)
  fail_if (ltb_ℤ m.time_limit_sec (pos 0)) (negative_time_limit s m.id)
  validate_modules s (m.id ∷ mod_seen) ms

-- The loop over the sections.
unfoldable pub validate_sections :
    (seen : List String) → List Section → Result FormatError (Unit {0})
validate_sections seen [] = ok tt
validate_sections seen (s ∷ ss) = do
  fail_if (is_empty s.id) section_id_required
  fail_if (is_seen s.id seen) (duplicate_section s.id)
  validate_modules s.id [] s.modules
  validate_sections (s.id ∷ seen) ss

-- A nil policy is `none`. The profile is not read.
unfoldable pub validate_policy : (profile : String) → Option Policy → Result FormatError (Unit {0})
validate_policy profile none = err policy_required
validate_policy profile (some pol) = validate_sections [] pol.sections

-- ExamLike and QuestionLike, as far as the adapters call them.
pub record QuestionLike : Type 0 where
  pub id : String
  pub q_type : String
  pub choices : List String

pub record ExamLike : Type 0 where
  pub id : String
  pub title : String
  pub questions : List QuestionLike
