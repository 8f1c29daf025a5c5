-- ===== src/Exam/Exams.antt =====
-- internal/exam/store_sql.go: PutExam and GetExam.
pub mod Laws
use mindengage_lms.Prelude.{
  ℤ, pos, String, none, some, List, [], ◌∷◌, ltb_ℤ, str_eq, if◌then◌else◌, Result, ok, ◌>>=◌,
  required,
}
use mindengage_lms.Exam.Models.{Question, Exam, PolicyRaw, ExamRow, Db, StoreError, exam_not_found}
use mindengage_lms.Exam.Store.{find_exam, exam_of_row}

module _ {F : Type 0} where
  -- INSERT INTO exams ... ON CONFLICT (id) DO UPDATE: the row's creation time stays.
  unfoldable pub upsert_exam : ExamRow F → List (ExamRow F) → List (ExamRow F)
  upsert_exam r [] = r ∷ []
  upsert_exam r (e ∷ es) =
      if str_eq e.id r.id then record r { created_at = e.created_at } ∷ es else e ∷ upsert_exam r es

  unfoldable pub row_of_exam : ℤ → Exam F → ExamRow F
  row_of_exam now e = record {
    id = e.id;
    title = e.title;
    time_limit_sec = if ltb_ℤ e.time_limit_sec (pos 0) then pos 0 else e.time_limit_sec;
    questions_json = some e.questions;
    created_at = now;
    profile = e.profile;
    policy_json = e.policy_raw;
  }

  unfoldable pub put_exam : ℤ → Exam F → Db F → Db F
  unfolding upsert_exam row_of_exam
  put_exam now e db = record db { exams = upsert_exam (row_of_exam now e) db.exams }

  unfoldable pub strip_keys : List (Question F) → List (Question F)
  strip_keys [] = []
  strip_keys (q ∷ qs) = record q { answer_key = [] } ∷ strip_keys qs

-- A policy text of white space alone is left out of the student's view.
abbrev pub visible_policy : PolicyRaw → PolicyRaw
visible_policy none = none
visible_policy (some p) = if p.is_blank then none else some p

module _ {F : Type 0} where
  unfoldable pub get_exam : String → Db F → Result StoreError (Exam F)
  unfolding strip_keys exam_of_row
  get_exam id db = do
    r ← required (find_exam id db.exams) exam_not_found
    e ← exam_of_row r
    ok (record e { policy_raw = visible_policy e.policy_raw; questions = strip_keys e.questions })
