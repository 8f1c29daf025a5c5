-- ===== src/Exam/Exams/Laws.antt =====
-- PutExam, GetExamAdmin and GetExam of internal/exam/store_sql.go together.
use mindengage_lms.Prelude.{
  ℤ, pos, ltb_ℤ, String, ◌≡◌, ◌≢◌, refl, Option, none, some, List, [], ◌∷◌, arith, str_eq,
  str_eq_cases, str_eq_refl, if◌then◌else◌, ok,
}
use mindengage_lms.Exam.Models.{Question, Exam, ExamRow, Db}
use mindengage_lms.Exam.Store.{find_exam, exam_of_row, get_exam_admin}
use mindengage_lms.Exam.Exams.{upsert_exam, row_of_exam, put_exam, strip_keys, get_exam}

module _ {F : Type 0} where
  -- The row of the id after the upsert: the new one, with the creation time of the old one.
  abbrev pub stamped : ExamRow F → Option (ExamRow F) → ExamRow F
  stamped r none = r
  stamped r (some old) = record r { created_at = old.created_at }

  pub find_exam-upsert_exam :
      (r : ExamRow F) (id : String) (rows : List (ExamRow F))
      → find_exam id (upsert_exam r rows)
        ≡ (if str_eq r.id id then some (stamped r (find_exam id rows)) else find_exam id rows)
  unfolding find_exam upsert_exam
  find_exam-upsert_exam r id [] = refl
  find_exam-upsert_exam r id (e ∷ rows) = ground (
    arith,
    str_eq_cases e.id r.id,
    str_eq_cases e.id id,
    str_eq_cases r.id id,
    find_exam-upsert_exam r id rows,
  )

abbrev pub created : {F : Type 0} → ℤ → Option (ExamRow F) → ℤ
created now none = now
created now (some old) = old.created_at

module _ {F : Type 0} where
  -- An exam that was put is read back by GetExamAdmin as it was, but for a negative time limit,
  -- which is 0, and for its creation time: that of the first put.
  pub get_exam_admin-put_exam :
      (now : ℤ) (e : Exam F) (db : Db F)
      → get_exam_admin e.id (put_exam now e db)
        ≡ ok (record e {
          time_limit_sec = if ltb_ℤ e.time_limit_sec (pos 0) then pos 0 else e.time_limit_sec;
          created_at = created now (find_exam e.id db.exams);
        })
  unfolding get_exam_admin put_exam row_of_exam
  get_exam_admin-put_exam now e db =
      ground (arith, find_exam-upsert_exam (row_of_exam now e) e.id db.exams, str_eq_refl e.id)

  -- Putting one exam changes no other.
  pub get_exam_admin-put_exam_ne :
      (now : ℤ) (e : Exam F) (db : Db F) (id : String)
      → e.id ≢ id
      → get_exam_admin id (put_exam now e db) ≡ get_exam_admin id db
  unfolding get_exam_admin put_exam row_of_exam
  get_exam_admin-put_exam_ne now e db id h =
      ground (arith, find_exam-upsert_exam (row_of_exam now e) id db.exams, str_eq_cases e.id id)

-- The exam with other answer keys.
abbrev pub rekey_all :
    {F : Type 0} → (Question F → List String) → List (Question F) → List (Question F)
rekey_all g [] = []
rekey_all g (q ∷ qs) = record q { answer_key = g q } ∷ rekey_all g qs

module _ {F : Type 0} where
  strip_keys-rekey_all :
      (g : Question F → List String) (qs : List (Question F))
      → strip_keys (rekey_all g qs) ≡ strip_keys qs
  unfolding strip_keys
  strip_keys-rekey_all g [] = refl
  strip_keys-rekey_all g (q ∷ qs) = rw (strip_keys-rekey_all g qs)

  -- What GetExam shows to a student does not depend on the answer keys: putting an exam with any
  -- other keys gives the same answer, for every id.
  pub get_exam-rekey :
      (now : ℤ) (g : Question F → List String) (e : Exam F) (db : Db F) (id : String)
      → get_exam id (put_exam now (record e { questions = rekey_all g e.questions }) db)
        ≡ get_exam id (put_exam now e db)
  unfolding get_exam put_exam row_of_exam exam_of_row
  get_exam-rekey now g e db id = ground (
    arith,
    find_exam-upsert_exam (row_of_exam now (record e { questions = rekey_all g e.questions })) id
        db.exams,
    find_exam-upsert_exam (row_of_exam now e) id db.exams,
    strip_keys-rekey_all g e.questions,
  )
