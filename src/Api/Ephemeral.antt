-- ===== src/Api/Ephemeral.antt =====
-- internal/api/http/offerings_link.go: the grading of responses that are sent with the token of an
-- offering and not stored, and the counters of the answers.
pub mod Told
pub mod Counted
use mindengage_lms.Prelude.{
  ℕ, ◌+◌, ℤ, ltb_ℤ, String, Bool, true, false, not, ◌&&◌, ◌||◌, Option, none, some, List, [], ◌∷◌,
  ◌++◌, lookup, Result, ok, err, str_eq, if◌then◌else◌,
}
use mindengage_lms.Strings.{Unicode, trim_space, is_empty}
use mindengage_lms.Float.{Float64, zero_f}
use mindengage_lms.Grading.Types.{
  Q, Grade, GradeResult, GradeError, response_must_be_bytes_or_path, Feedback, graded,
}
use mindengage_lms.Exam.Models.{Question, Exam, Value, null, Responses, Db, StoreError}
use mindengage_lms.Exam.Store.{get_exam_admin}
use mindengage_lms.Platform.Http.{Request, get, Outcome, refused, served}
use mindengage_lms.Api.Catalog.{OfferingRow, Catalog}
use mindengage_lms.Api.Normalize.{Texts, normalize_for_type, bucket_keys}

pub record ItemResult (F : Type 0) : Type 0 where
  pub question_id : String
  pub points : F
  pub points_max : F
  pub needs_manual : Bool
  pub feedback : List Feedback
  pub correct : Bool
  pub correct_answer : List String

pub record EphemeralGradeResp (F : Type 0) : Type 0 where
  pub score : F
  pub score_max : F
  pub items : List (ItemResult F)

-- A row of ephemeral_stats.
pub record StatRow (F : Type 0) : Type 0 where
  pub offering_id : String
  pub question_id : String
  pub bucket : String
  pub count : ℕ
  pub correct : ℕ
  pub sum_points : F
  pub max_points : F
  pub updated_at : ℤ

-- The key of a counter: its question and its bucket.
abbrev pub is_counter : {F : Type 0} → (off qid bucket : String) → StatRow F → Bool
is_counter off qid bucket row =
    str_eq row.offering_id off && str_eq row.question_id qid && str_eq row.bucket bucket

abbrev is_scan_error : GradeError → Bool
is_scan_error response_must_be_bytes_or_path = true
is_scan_error e = false

abbrev one_if : Bool → ℕ
one_if true = 1
one_if false = 0

module _ {F : Type 0} ⦃fl : Float64 F⦄ where
  unfoldable pub bump_ephemeral :
      (now : ℤ) (off qid bucket : String)
      → (correct : Bool) → (auto max : F) → List (StatRow F)
      → List (StatRow F)
  bump_ephemeral now off qid bucket correct auto max [] =
      record {
        offering_id = off;
        question_id = qid;
        bucket = bucket;
        count = 1;
        correct = one_if correct;
        sum_points = auto;
        max_points = max;
        updated_at = now;
      }
      ∷ []
  bump_ephemeral now off qid bucket correct auto max (row ∷ rows) =
      let rest = bump_ephemeral now off qid bucket correct auto max rows in
      if is_counter off qid bucket row
      then record row {
        count = row.count + 1;
        correct = row.correct + one_if correct;
        sum_points = fl.add row.sum_points auto;
        max_points = if fl.lt max row.max_points then row.max_points else max;
        updated_at = now;
      }
        ∷ rows
      else row ∷ rest

  -- The bumps of one question.
  unfoldable pub bump_keys :
      (now : ℤ) (off qid : String)
      → (correct : Bool) → (auto max : F) → List String
      → List (StatRow F)
      → List (StatRow F)
  bump_keys now off qid correct auto max [] rows = rows
  bump_keys now off qid correct auto max (k ∷ ks) rows =
      bump_keys now off qid correct auto max ks (bump_ephemeral now off qid k correct auto max rows)

  -- The result of a grading, also beside an error.
  unfoldable pub result_of : Q F → Result GradeError (GradeResult F) → GradeResult F
  result_of q (ok res) = res
  result_of q (err e) = graded zero_f q.points (is_scan_error e) []

  abbrev pub is_full : Question F → GradeResult F → Bool
  is_full q res = fl.lt zero_f q.points && fl.le q.points res.auto_points

  unfoldable pub item_result : (show_answers : Bool) → Question F → GradeResult F → ItemResult F
  item_result show_answers q res = record {
    question_id = q.id;
    points = res.auto_points;
    points_max = q.points;
    needs_manual = res.needs_manual;
    feedback = res.feedback;
    correct = is_full q res;
    correct_answer = if show_answers then q.answer_key else [];
  }

  abbrev pub add_item : EphemeralGradeResp F → ItemResult F → EphemeralGradeResp F
  add_item out item = record {
    score = fl.add out.score item.points;
    score_max = fl.add out.score_max item.points_max;
    items = out.items ++ item ∷ [];
  }

  abbrev pub response_to : Responses F → String → Value F
  response_to responses id = elim (lookup id responses) [ none ↦ null | some v ↦ v ]

module _ {F : Type 0} ⦃fl : Float64 F⦄ (u : Unicode) (texts : Texts F) (grade : Grade F) where
  -- The normalized response to a question, its grading, and the counters that it adds to.
  unfoldable pub norm_response : Responses F → Question F → Value F
  norm_response responses q = normalize_for_type u texts q.q_type (response_to responses q.id)

  unfoldable pub grade_question : Responses F → Question F → GradeResult F
  unfolding result_of
  grade_question responses q =
      let gq : Q F = record { q_type = q.q_type; points = q.points; answer_key = q.answer_key } in
      result_of gq (grade gq (norm_response responses q))

  unfoldable pub counters_of : Responses F → Question F → List String
  counters_of responses q = "*" ∷ bucket_keys u q.q_type (norm_response responses q)

  -- The loop over the questions.
  unfoldable pub grade_loop :
      (now : ℤ) (off : String)
      → (show_answers : Bool) → Responses F
      → List (Question F)
      → EphemeralGradeResp F
      → List (StatRow F)
      → EphemeralGradeResp F × List (StatRow F)
  grade_loop now off show_answers responses [] out rows = (out, rows)
  grade_loop now off show_answers responses (q ∷ qs) out rows =
      let res = grade_question responses q in
      grade_loop now off show_answers responses qs (add_item out (item_result show_answers q res)) (
        bump_keys now off q.id (is_full q res) res.auto_points q.points (counters_of responses q)
          rows)

-- The offering that a link may open: its token is that of the request.
abbrev pub stored_token : OfferingRow → String
stored_token o = elim o.access_token [ none ↦ "" | some t ↦ t ]

unfoldable pub find_offering : String → List OfferingRow → Option OfferingRow
find_offering id [] = none
find_offering id (o ∷ os) =
    let rest = find_offering id os in if str_eq o.id id then some o else rest

abbrev pub is_early : ℤ → Option ℤ → Bool
is_early now none = false
is_early now (some t) = ltb_ℤ now t

abbrev pub is_late : ℤ → Option ℤ → Bool
is_late now none = false
is_late now (some t) = ltb_ℤ t now

-- Why a request may not use the link, `none` where it may.
unfoldable pub link_refusal : (now : ℤ) (token : String) → OfferingRow → Option String
link_refusal now token o =
    if not (str_eq o.visibility "link") || not (str_eq (stored_token o) token)
    then some "forbidden"
    else if is_early now o.start_at
    then some "not started"
    else if is_late now o.end_at
    then some "ended"
    else none

module _ {F : Type 0} ⦃fl : Float64 F⦄ where
  abbrev pub no_items : EphemeralGradeResp F
  no_items = record { score = zero_f; score_max = zero_f; items = [] }

module _ {F : Type 0} ⦃fl : Float64 F⦄ (u : Unicode) (texts : Texts F) (grade : Grade F) where
  abbrev pub graded_body :
      (now : ℤ) (off : String)
      → (show_answers : Bool) → List (Question F)
      → Option (Responses F)
      → List (StatRow F)
      → Outcome (EphemeralGradeResp F) × List (StatRow F)
  graded_body now off show_answers qs none rows = (refused 400 "bad json", rows)
  graded_body now off show_answers qs (some responses) rows =
      let (out, rows') = grade_loop u texts grade now off show_answers responses qs no_items rows in
      (served out, rows')

  abbrev pub graded_exam :
      (now : ℤ) (off : String)
      → (show_answers : Bool) → Result StoreError (Exam F)
      → Option (Responses F)
      → List (StatRow F)
      → Outcome (EphemeralGradeResp F) × List (StatRow F)
  graded_exam now off show_answers (err e) body rows = (refused 404 "exam not found", rows)
  graded_exam now off show_answers (ok e) body rows =
      graded_body now off show_answers e.questions body rows

  abbrev pub open_offering :
      (now : ℤ) (off token : String)
      → (show_answers : Bool) → Db F
      → Option OfferingRow
      → Option (Responses F)
      → List (StatRow F)
      → Outcome (EphemeralGradeResp F) × List (StatRow F)
  open_offering now off token show_answers db none body rows = (refused 404 "not found", rows)
  open_offering now off token show_answers db (some o) body rows = elim (link_refusal now token o) [
    | some message ↦ (refused 403 message, rows)
    | none ↦ graded_exam now off show_answers (get_exam_admin o.exam_id db) body rows
  ]

  -- GradeEphemeralHandler. The times of the bumps are `now`; the body has no responses where they are
  -- null.
  unfoldable pub grade_ephemeral :
      (now : ℤ)
      → Request
      → Option (Responses F)
      → Catalog F
      → List (StatRow F)
      → Outcome (EphemeralGradeResp F) × List (StatRow F)
  grade_ephemeral now r body db rows =
      let off = get "offeringID" r.params in
      let token = trim_space (get "access_token" r.query) in
      let show_answers = str_eq (get "show_answers" r.query) "1" in
      if is_empty off || is_empty token
      then (refused 400 "bad request", rows)
      else open_offering now off token show_answers db.store (find_offering off db.offerings) body
          rows
