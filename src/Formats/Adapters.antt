-- ===== src/Formats/Adapters.antt =====
-- internal/formats/adapter.go, and the adapters of internal/formats/sat, act, jee and stem. The
-- placeholders that Export prints are left out.
use mindengage_lms.Prelude.{
  ℤ, pos, ltb, eqb_ℤ, ◌==◌, String, Bool, not, ◌&&◌, ◌||◌, Option, some, List, [], ◌∷◌, length,
  GoMap, lookup, insert, Result, ok, err, ◌>>◌, fail_if, str_eq, if◌then◌else◌,
}
use mindengage_lms.Formats.Policy.{
  FormatError, import_not_implemented, wrong_choice_count, wrong_module_time, allow_back_set,
  module_not_locked, numeric_not_supported, unsupported_type, ExamLike, QuestionLike, Policy,
  Section, validate_policy,
}

-- Adapter: its Import and Validate.
pub record Adapter : Type 0 where
  pub import_exam : String → Result FormatError (ExamLike × Policy)
  pub validate : ExamLike → Policy → Result FormatError (Unit {0})

unfoldable pub register : String → Adapter → GoMap Adapter → GoMap Adapter
register profile a registry = insert profile a registry

unfoldable pub lookup_adapter : String → GoMap Adapter → Option Adapter
lookup_adapter profile registry = lookup profile registry

-- The Import of each adapter.
unfoldable pub import_stub : String → Result FormatError (ExamLike × Policy)
import_stub r = err import_not_implemented

-- `for _, x := range xs { ... return err ... }`
unfoldable pub for_each {ℓ} :
    {A : Type ℓ} → (A → Result FormatError (Unit {0})) → List A → Result FormatError (Unit {0})
for_each f [] = ok tt
for_each f (x ∷ xs) = do f x; for_each f xs

abbrev choices_set : QuestionLike → Bool
choices_set q = ltb 0 (length q.choices)

-- A single-answer question with choices has four of them.
unfoldable pub check_four_choices : QuestionLike → Result FormatError (Unit {0})
check_four_choices q =
    fail_if (str_eq q.q_type "mcq_single" && choices_set q && not (length q.choices == 4))
      (wrong_choice_count q.id)

-- AdapterSAT.Validate: the modules of the sections rw and math.
unfoldable pub check_times : ℤ → Section → Result FormatError (Unit {0})
check_times exp s =
    for_each
      (λ m.
        fail_if (not (eqb_ℤ m.time_limit_sec (pos 0)) && not (eqb_ℤ m.time_limit_sec exp))
          (wrong_module_time s.id m.id exp))
      s.modules

unfoldable pub check_sat_section : Section → Result FormatError (Unit {0})
check_sat_section s =
    if str_eq s.id "rw"
    then check_times (pos 2340) s
    else if str_eq s.id "math"
    then check_times (pos 2580) s
    else ok tt

unfoldable pub validate_sat : ExamLike → Policy → Result FormatError (Unit {0})
validate_sat ex pol = do
  validate_policy "sat.v1" (some pol)
  for_each check_sat_section pol.sections
  for_each check_four_choices ex.questions
  fail_if pol.navigation.allow_back allow_back_set
  fail_if (not pol.navigation.module_locked) module_not_locked

-- AdapterACT.Validate: one question.
unfoldable pub check_act_question : QuestionLike → Result FormatError (Unit {0})
check_act_question q = do
  check_four_choices q
  fail_if (str_eq q.q_type "numeric" && length q.choices == 0) numeric_not_supported

unfoldable pub validate_act : ExamLike → Policy → Result FormatError (Unit {0})
validate_act ex pol = do
  validate_policy "act.v1" (some pol)
  for_each check_act_question ex.questions

unfoldable pub check_jee_type : QuestionLike → Result FormatError (Unit {0})
check_jee_type q =
    let t = q.q_type in
    let is_known =
      str_eq t "mcq_single"
      || str_eq t "mcq_multi"
      || str_eq t "numeric"
      || str_eq t "integer"
      || str_eq t "short_word"
      || str_eq t "essay" in
    fail_if (not is_known) (unsupported_type t)

unfoldable pub check_jee_choices : QuestionLike → Result FormatError (Unit {0})
check_jee_choices q = fail_if (choices_set q && ltb (length q.choices) 2) (wrong_choice_count q.id)

unfoldable pub validate_jee : ExamLike → Policy → Result FormatError (Unit {0})
validate_jee ex pol = do
  validate_policy "jee.v1" (some pol)
  for_each check_jee_type ex.questions
  for_each check_jee_choices ex.questions

unfoldable pub validate_stem : ExamLike → Policy → Result FormatError (Unit {0})
validate_stem ex pol = do
  validate_policy "stem.v1" (some pol)
  for_each check_four_choices ex.questions

-- The adapters that the subpackages register in init.
unfoldable pub registered_adapters : GoMap Adapter
registered_adapters =
    register "sat.v1" (record { import_exam = import_stub; validate = validate_sat })
      (register "act.v1" (record { import_exam = import_stub; validate = validate_act })
        (register "jee.v1" (record { import_exam = import_stub; validate = validate_jee })
          (register "stem.v1" (record { import_exam = import_stub; validate = validate_stem }) [])))
