-- ===== src/Grading/Numeric.antt =====
-- internal/grading/numeric.go: numbers compared within the tolerances of the answer key.
use mindengage_lms.Prelude.{
  String, Bool, true, false, ◌&&◌, ◌||◌, Option, none, some, List, [], ◌∷◌, ok, err, str_eq,
  if◌then◌else◌,
}
use mindengage_lms.Strings.{Unicode, trim_space, to_lower, has_prefix, trim_prefix, first_field}
use mindengage_lms.Float.{Float64, zero_f}
use mindengage_lms.Exam.Models.{str}
use mindengage_lms.Grading.Types.{graded, Grade, response_must_be_string}

module _ {F : Type 0} ⦃fl : Float64 F⦄ where
  unfoldable pub parse_float_loose : String → Option F
  parse_float_loose s =
      let t = trim_space s in
      elim (fl.parse t) [
        | some v ↦ some v
        | none ↦ elim (first_field t) [ some w ↦ fl.parse w | none ↦ none ]
      ]

  -- The value that a key with the prefix gives, else the one before it.
  unfoldable pub tolerance_of : (prefix key : String) → F → F
  tolerance_of prefix k tol =
      if has_prefix k prefix
      then elim (fl.parse (trim_prefix k prefix)) [ some v ↦ v | none ↦ tol ]
      else tol

  unfoldable pub tolerances_from : Unicode → (abs_tol rel_tol : F) → List String → F × F
  tolerances_from u abs_tol rel_tol [] = (abs_tol, rel_tol)
  tolerances_from u abs_tol rel_tol (key ∷ keys) =
      let k = trim_space (to_lower u key) in
      tolerances_from u (tolerance_of "tol=" k abs_tol) (tolerance_of "reltol=" k rel_tol) keys

  unfoldable pub parse_tolerances : Unicode → List String → F × F
  parse_tolerances u keys = tolerances_from u fl.minus_one fl.minus_one keys

  unfoldable pub passes : (abs_tol rel_tol rv tv : F) → Bool
  passes abs_tol rel_tol rv tv =
      let diff = fl.abs (fl.sub rv tv) in
      fl.le zero_f abs_tol && fl.le diff abs_tol
      || fl.le zero_f rel_tol && fl.le diff (fl.mul rel_tol (fl.abs tv))

module _ (F : Type 0) ⦃fl : Float64 F⦄ where
  unfoldable pub numeric_matches : Unicode → (response target : String) → List String → Bool
  numeric_matches u s target keys =
      if str_eq s target then true else elim (parse_float_loose {F = F} s) [
        | none ↦ false
        | some rv ↦ elim (parse_float_loose {F = F} target) [
          | none ↦ false
          | some tv ↦ let t = parse_tolerances u keys in passes t.0 t.1 rv tv
        ]
      ]

module _ {F : Type 0} ⦃fl : Float64 F⦄ where
  -- numericStrategy.Grade
  unfoldable pub grade_numeric : Unicode → Grade F
  grade_numeric u q (str s) = elim q.answer_key [
    | [] ↦ ok (graded zero_f q.points false [])
    | target ∷ keys ↦
        ok (
          graded (if numeric_matches F u s target keys then q.points else zero_f) q.points false [])
  ]
  grade_numeric u q _ = err response_must_be_string
