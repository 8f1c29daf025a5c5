-- ===== src/Exam/Submit.antt =====
-- internal/exam/store_sql.go: Submit, with needsManualForType, and the event of internal/sync.
pub mod Items
pub mod Graded
pub mod Laws
pub mod Again
use mindengage_lms.Prelude.{
  ℤ, String, Bool, true, false, none, some, List, [], ◌∷◌, ◌++◌, lookup, str_eq, if◌then◌else◌,
  Result, ok, err, ◌>>=◌, required,
}
use mindengage_lms.Strings.{Unicode, trim_space, to_lower}
use mindengage_lms.Float.{Float64, zero_f}
use mindengage_lms.Grading.Types.{Grade, GradeResult}
use mindengage_lms.Exam.Models.{
  Question, null, Attempt, AttemptRow, ItemRow, EventRow, Responses, Db, submitted, StoreError,
  no_rows, bad_questions,
}
use mindengage_lms.Exam.Store.{find_exam, update_attempt, items_of, is_item, coalesce}
use mindengage_lms.Exam.Attempts.{Env, get_attempt, commit}

abbrev is_nil {ℓ} : {A : Type ℓ} → List A → Bool
is_nil [] = true
is_nil (x ∷ xs) = false

unfoldable pub needs_manual_for_type : Unicode → String → List String → Bool
needs_manual_for_type u t answer_key =
    let k = to_lower u (trim_space t) in
    if str_eq k "essay" then true else if str_eq k "short_word" then is_nil answer_key else false

module _ {F : Type 0} ⦃fl : Float64 F⦄ where
  -- The points of a graded response; an error of the grader gives none.
  unfoldable pub points_of {ι} : {E : Type ι} → Result E (GradeResult F) → F
  points_of (ok r) = r.auto_points
  points_of (err e) = zero_f

  unfoldable pub auto_points : Grade F → Question F → Responses F → F
  unfolding points_of
  auto_points grade q responses = elim (lookup q.id responses) [
    | none ↦ zero_f
    | some resp ↦
        points_of
          (grade (record { q_type = q.q_type; points = q.points; answer_key = q.answer_key }) resp)
  ]

  -- The row that the upsert writes where there is none yet.
  unfoldable pub new_item : Env F → String → Question F → Responses F → ItemRow F
  unfolding auto_points
  new_item env id q responses = record {
    attempt_id = id;
    question_id = q.id;
    q_type = q.q_type;
    points_max = q.points;
    auto_points = auto_points env.grade q responses;
    manual_points = zero_f;
    needs_manual = needs_manual_for_type env.unicode q.q_type q.answer_key;
    comment = none;
    response_json = coalesce (lookup q.id responses) null;
    graded_by = none;
    graded_at = none;
  }

  -- INSERT INTO attempt_items ... ON CONFLICT (attempt_id, question_id) DO UPDATE: the manual
  -- points, the comment and the grader of an old row stay.
  unfoldable pub upsert_item : ItemRow F → List (ItemRow F) → List (ItemRow F)
  upsert_item new [] = new ∷ []
  upsert_item new (it ∷ its) =
      if is_item new.attempt_id new.question_id it
      then record it {
        q_type = new.q_type;
        points_max = new.points_max;
        auto_points = new.auto_points;
        needs_manual = new.needs_manual;
        response_json = new.response_json;
      }
        ∷ its
      else it ∷ upsert_item new its

  -- The loop over the questions: the total of the automatic points, and the items.
  unfoldable pub grade_questions :
      Env F → String → Responses F → List (Question F) → F → List (ItemRow F) → F × List (ItemRow F)
  unfolding new_item upsert_item
  grade_questions env id responses [] total items = (total, items)
  grade_questions env id responses (q ∷ qs) total items =
      grade_questions env id responses qs (fl.add total (auto_points env.grade q responses))
        (upsert_item (new_item env id q responses) items)

  -- SELECT COALESCE(SUM(manual_points), 0) ... WHERE attempt_id = $1, in the order of the table.
  unfoldable pub sum_manual : F → List (ItemRow F) → F
  sum_manual acc [] = acc
  sum_manual acc (it ∷ its) = sum_manual (fl.add acc it.manual_points) its

  unfoldable pub sum_auto : F → List (ItemRow F) → F
  sum_auto acc [] = acc
  sum_auto acc (it ∷ its) = sum_auto (fl.add acc it.auto_points) its

  unfoldable pub manual_total : String → List (ItemRow F) → F
  unfolding sum_manual
  manual_total id items = sum_manual zero_f (items_of id items)

  unfoldable pub auto_total : String → List (ItemRow F) → F
  unfolding sum_auto
  auto_total id items = sum_auto zero_f (items_of id items)

  -- The row after the UPDATE. The column submitted_at is NOT NULL, so its COALESCE keeps it.
  unfoldable pub submit_row : ℤ → F → F → AttemptRow F → AttemptRow F
  submit_row now auto manual r = record r {
    status = submitted;
    auto_score = auto;
    manual_score = manual;
    score = fl.add auto manual;
    submitted_at = coalesce (some r.submitted_at) now;
  }

-- The event that is appended after the transaction.
unfoldable pub submitted_event : ℤ → String → EventRow
submitted_event now id = record {
  site_id = "local";
  typ = "AttemptSubmitted";
  key = id;
  event_data = "{}";
  created_at = now;
}

-- The attempt and the questions with their keys.
module _ {F : Type 0} where
  unfoldable pub submit_plan : ℤ → String → Db F → Result StoreError (Attempt F × List (Question F))
  submit_plan now id db = do
    a ← get_attempt now id db
    e ← required (find_exam a.exam_id db.exams) no_rows
    qs ← required e.questions_json bad_questions
    ok (a, qs)

module _ {F : Type 0} ⦃fl : Float64 F⦄ where
  -- The transaction, and the event after it.
  unfoldable pub submit_tx : Env F → ℤ → String → Responses F → List (Question F) → Db F → Db F
  unfolding grade_questions manual_total submit_row submitted_event
  submit_tx env now id responses qs db =
      let (auto, items) = grade_questions env id responses qs zero_f db.items in
      record db {
        items = items;
        attempts = update_attempt id (submit_row now auto (manual_total id items)) db.attempts;
        events = db.events ++ submitted_event now id ∷ [];
      }

  unfoldable pub submit : Env F → ℤ → String → Db F → Result StoreError (Attempt F) × Db F
  submit env now id db =
      commit now id db (λ p. submit_tx env now id p.0.responses p.1 db) (submit_plan now id db)
