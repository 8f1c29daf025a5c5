-- ===== src/Exam/Store.antt =====
-- internal/exam/store_sql.go, the queries and updates that its methods share. A table is the list
-- of its rows; a primary key finds the first row. Statements fail only on a missing row or on a
-- duplicate key.
pub mod Rows
use mindengage_lms.Prelude.{
  String, Bool, Option, none, some, List, [], ◌∷◌, str_eq, if◌then◌else◌, ◌&&◌, Result, ok, ◌>>=◌,
  required,
}
use mindengage_lms.Exam.Models.{
  Exam, ExamRow, AttemptRow, ItemRow, Db, StoreError, no_rows, bad_questions,
}

-- SQL's COALESCE of a column and a default.
abbrev pub coalesce {ℓ} : {A : Type ℓ} → Option A → A → A
coalesce none d = d
coalesce (some a) d = a

module _ {F : Type 0} where
  -- SELECT ... FROM exams WHERE id = $1
  unfoldable pub find_exam : String → List (ExamRow F) → Option (ExamRow F)
  find_exam id [] = none
  find_exam id (e ∷ es) = if str_eq e.id id then some e else find_exam id es

  -- SELECT ... FROM attempts WHERE id = $1
  unfoldable pub find_attempt : String → List (AttemptRow F) → Option (AttemptRow F)
  find_attempt id [] = none
  find_attempt id (a ∷ as') = if str_eq a.id id then some a else find_attempt id as'

  -- UPDATE attempts SET ... WHERE id = $1
  unfoldable pub update_attempt :
      String → (AttemptRow F → AttemptRow F) → List (AttemptRow F) → List (AttemptRow F)
  update_attempt id f [] = []
  update_attempt id f (a ∷ as') = (if str_eq a.id id then f a else a) ∷ update_attempt id f as'

  abbrev pub is_item : String → String → ItemRow F → Bool
  is_item attempt_id question_id it =
      str_eq it.attempt_id attempt_id && str_eq it.question_id question_id

  -- SELECT ... FROM attempt_items WHERE attempt_id = $1
  unfoldable pub items_of : String → List (ItemRow F) → List (ItemRow F)
  items_of id [] = []
  items_of id (it ∷ its) =
      let rest = items_of id its in if str_eq it.attempt_id id then it ∷ rest else rest

  unfoldable pub find_item : String → String → List (ItemRow F) → Option (ItemRow F)
  find_item id qid [] = none
  find_item id qid (it ∷ its) = if is_item id qid it then some it else find_item id qid its

  -- GetExamAdmin
  unfoldable pub exam_of_row : ExamRow F → Result StoreError (Exam F)
  exam_of_row r = do
    qs ← required r.questions_json bad_questions
    ok (record {
      id = r.id;
      title = r.title;
      time_limit_sec = r.time_limit_sec;
      questions = qs;
      profile = r.profile;
      policy_raw = r.policy_json;
      created_at = r.created_at;
    })

  unfoldable pub get_exam_admin : String → Db F → Result StoreError (Exam F)
  unfolding exam_of_row
  get_exam_admin id db = do r ← required (find_exam id db.exams) no_rows; exam_of_row r
