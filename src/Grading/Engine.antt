-- ===== src/Grading/Engine.antt =====
-- internal/grading/engine.go: the strategies and the grader that routes to them by question type.
use mindengage_lms.Prelude.{
  ℕ, ◌+◌, ℤ, pos, ltb_ℤ, leb_ℤ, ltb, ◌==◌, String, Bool, true, false, not, ◌&&◌, ◌||◌, Option, none,
  some, List, [], ◌∷◌, length, any, all, GoMap, lookup, Result, ok, err, str_eq, if◌then◌else◌,
}
use mindengage_lms.Strings.{Unicode, trim_space, to_lower, contains, is_empty}
use mindengage_lms.Float.{Float64, zero_f}
use mindengage_lms.Exam.Models.{Value, Values, nil, cons, str, strings, arr, bytes}
use mindengage_lms.Grading.Types.{
  graded, Q, GradeResult, Feedback, Grade, Config, Ocr, response_must_be_string,
  response_must_be_strings, response_must_be_bytes_or_path, close_match, manual_required,
  no_keywords, keyword_hits, ocr_failed, ocr_not_configured, no_strategy,
}
use mindengage_lms.Grading.TextMatch.{normalize, levenshtein}
use mindengage_lms.Grading.Numeric.{grade_numeric}

-- toSet: a map[string]struct{} as the list of its keys.
unfoldable pub has_key : String → List String → Bool
has_key k m = any (str_eq k) m

unfoldable pub set_add : String → List String → List String
set_add k m = if has_key k m then m else (k ∷ m)

unfoldable pub to_set : List String → List String
to_set [] = []
to_set (s ∷ ks) = set_add s (to_set ks)

unfoldable pub set_equal : List String → List String → Bool
set_equal a b = if not (length a == length b) then false else all (λ k. has_key k b) a

-- How many of the keys are in the set.
unfoldable pub count_in : List String → List String → ℕ
count_in correct [] = 0
count_in correct (k ∷ ks) = (if has_key k correct then 1 else 0) + count_in correct ks

-- The loop of shortWordStrategy.Grade over the keys: `none` where it returns on an exact match,
-- else whether a close match was met.
unfoldable pub match_keys :
    Unicode → (max_edit : ℤ) → (resp : String) → Bool → List String → Option Bool
match_keys u max_edit resp best [] = some best
match_keys u max_edit resp best (k ∷ ks) =
    let nk = normalize u k in
    let close = ltb_ℤ (pos 0) max_edit && leb_ℤ (pos (levenshtein nk resp)) max_edit in
    let rest = match_keys u max_edit resp (best || close) ks in
    if str_eq nk resp then none else rest

unfoldable pub count_hits : Unicode → (low : String) → List String → ℕ
count_hits u low [] = 0
count_hits u low (k ∷ ks) =
    (if is_empty k then 0 else if contains low (to_lower u k) then 1 else 0) + count_hits u low ks

-- Options of NewDefaultGrader.
unfoldable pub with_max_edit_distance : ℤ → Config → Config
with_max_edit_distance n c = record c { max_edit_distance = n }

unfoldable pub with_partial_multi : Bool → Config → Config
with_partial_multi b c = record c { allow_partial_multi = b }

unfoldable pub with_ocr : Ocr → Config → Config
with_ocr o c = record c { ocr = some o }

unfoldable pub apply_options : List (Config → Config) → Config → Config
apply_options [] c = c
apply_options (o ∷ opts) c = apply_options opts (o c)

module _ {F : Type 0} where
  -- The texts of a []interface{}; other elements are dropped.
  unfoldable pub texts_of : Values F → List String
  texts_of nil = []
  texts_of (cons (str s) vs) = s ∷ texts_of vs
  texts_of (cons _ vs) = texts_of vs

  unfoldable pub to_string_slice : Value F → Option (List String)
  unfolding texts_of
  to_string_slice (strings t) = some t
  to_string_slice (arr vs) = some (texts_of vs)
  to_string_slice _ = none

module _ {F : Type 0} ⦃fl : Float64 F⦄ where
  -- A fraction of the points: points * (float64(n) / float64(d)).
  abbrev share : F → ℕ → ℕ → F
  share points n d = fl.mul points (fl.div (fl.of_ℕ n) (fl.of_ℕ d))

  -- mcqSingleStrategy.Grade
  unfoldable pub grade_single : Grade F
  grade_single q (str resp) =
      ok (graded (if any (str_eq resp) q.answer_key then q.points else zero_f) q.points false [])
  grade_single q _ = err response_must_be_string

  unfoldable pub multi_points : (allow_partial : Bool) → F → (correct resp : List String) → F
  multi_points allow_partial points correct resp =
      let has_false_positive = any (λ r. not (has_key r correct)) resp in
      if set_equal correct resp
      then points
      else if allow_partial && not has_false_positive && ltb 0 (length correct)
      then share points (count_in correct resp) (length correct)
      else zero_f

  -- mcqMultiStrategy.Grade
  unfoldable pub grade_multi : (allow_partial : Bool) → Grade F
  grade_multi allow_partial q response = elim (to_string_slice response) [
    | none ↦ err response_must_be_strings
    | some t ↦ ok (
        graded (multi_points allow_partial q.points (to_set q.answer_key) (to_set t)) q.points false
          [])
  ]

  -- shortWordStrategy.Grade
  unfoldable pub grade_short : Unicode → (max_edit : ℤ) → Grade F
  grade_short u max_edit q (str resp) =
      elim (match_keys u max_edit (normalize u resp) false q.answer_key) [
        | none ↦ ok (graded q.points q.points false [])
        | some true ↦ ok (graded (fl.mul q.points fl.half) q.points false (close_match ∷ []))
        | some false ↦ ok (graded zero_f q.points false [])
      ]
  grade_short u max_edit q _ = err response_must_be_string

  -- essayStrategy.Grade
  unfoldable pub grade_essay : Grade F
  grade_essay q response = ok (graded zero_f q.points true (manual_required ∷ []))

  unfoldable pub keyword_heuristic : Unicode → String → List String → F → F × List Feedback
  keyword_heuristic u text required max =
      let found = count_hits u (to_lower u text) required in
      if length required == 0 || is_empty (trim_space text)
      then (zero_f, no_keywords ∷ [])
      else (share max found (length required), keyword_hits found (length required) ∷ [])

  unfoldable pub graded_text : Unicode → Q F → Result String String → GradeResult F
  graded_text u q (err e) = graded zero_f q.points true (ocr_failed e ∷ [])
  graded_text u q (ok text) =
      let h = keyword_heuristic u text q.answer_key q.points in graded h.0 q.points true h.1

  -- scanStrategy.Grade
  unfoldable pub grade_scan : Unicode → Option Ocr → Grade F
  grade_scan u none q response = ok (graded zero_f q.points true (ocr_not_configured ∷ []))
  grade_scan u (some o) q (bytes b) = ok (graded_text u q (o.extract b))
  grade_scan u (some o) q (str path) = ok (graded_text u q (o.extract_path path))
  grade_scan u (some o) q _ = err response_must_be_bytes_or_path

  unfoldable pub built_in_strategies : Unicode → Config → GoMap (Grade F)
  built_in_strategies u cfg =
      ("mcq_single", grade_single)
      ∷ ("true_false", grade_single)
      ∷ ("mcq_multi", grade_multi cfg.allow_partial_multi)
      ∷ ("short_word", grade_short u cfg.max_edit_distance)
      ∷ ("numeric", grade_numeric u)
      ∷ ("essay", grade_essay)
      ∷ ("scan", grade_scan u cfg.ocr)
      ∷ []

  -- defaultGrader.Grade
  unfoldable pub grade_with : GoMap (Grade F) → Grade F
  grade_with strategies q response = elim (lookup q.q_type strategies) [
    | none ↦ ok (graded zero_f q.points true (no_strategy ∷ []))
    | some s ↦ s q response
  ]

  unfoldable pub new_default_grader : Unicode → List (Config → Config) → Grade F
  new_default_grader u opts = grade_with (
      built_in_strategies u (
        apply_options opts
          (record { max_edit_distance = pos 1; allow_partial_multi = true; ocr = none })))
