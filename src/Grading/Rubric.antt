-- ===== src/Grading/Rubric.antt =====
-- internal/grading/rubric.go: the score of a rubric. A note holds the key and the awarded value
-- that the program formats.
use mindengage_lms.Prelude.{
  String, ◌&&◌, Option, none, some, List, [], ◌∷◌, GoMap, lookup, if◌then◌else◌,
}
use mindengage_lms.Float.{Float64, zero_f}

pub record Criterion (F : Type 0) : Type 0 where
  pub key : String
  pub desc : String
  pub max_points : F

pub record Rubric (F : Type 0) : Type 0 where
  pub criteria : List (Criterion F)
  pub max : F

module _ {F : Type 0} ⦃fl : Float64 F⦄ where
  abbrev value_or_zero : Option F → F
  value_or_zero none = zero_f
  value_or_zero (some v) = v

  -- What a criterion counts for: the awarded value, not below 0 and not above its maximum.
  unfoldable pub clamp : (v top : F) → F
  clamp v top = let w = if fl.lt v zero_f then zero_f else v in if fl.lt top w then top else w

  unfoldable pub awarded_points : GoMap F → Criterion F → F
  awarded_points awarded c = clamp (value_or_zero (lookup c.key awarded)) c.max_points

  unfoldable pub sum_criteria : GoMap F → F → List (Criterion F) → F × List (String × F)
  sum_criteria awarded total [] = (total, [])
  sum_criteria awarded total (c ∷ cs) =
      let v = awarded_points awarded c in
      let rest = sum_criteria awarded (fl.add total v) cs in (rest.0, (c.key, v) ∷ rest.1)

  unfoldable pub score_rubric : Rubric F → GoMap F → F × List (String × F)
  score_rubric r awarded =
      let s = sum_criteria awarded zero_f r.criteria in
      (if fl.lt zero_f r.max && fl.lt r.max s.0 then r.max else s.0, s.1)
