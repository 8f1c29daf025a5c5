-- ===== src/Exam/Machine.antt =====
-- The store of internal/exam/store_sql.go under any sequence of calls of its writing methods.
-- An operation has the time at which it runs; concurrent requests run one at a time, in the order
-- of the sequence.
pub mod Change
pub mod Frozen
pub mod Failing
pub mod Invariants
use mindengage_lms.Prelude.{ℤ, String, Bool, List, [], ◌∷◌, GoMap}
use mindengage_lms.Float.{Float64}
use mindengage_lms.Exam.Models.{Exam, Responses, Db}
use mindengage_lms.Exam.Attempts.{Env, new_attempt}
use mindengage_lms.Exam.Exams.{put_exam}
use mindengage_lms.Exam.Save.{save_responses}
use mindengage_lms.Exam.Navigate.{navigate}
use mindengage_lms.Exam.Submit.{submit}
use mindengage_lms.Exam.Advance.{advance_module}
use mindengage_lms.Exam.ManualGrade.{ManualGradeInput, apply_manual_grades}

-- The methods of the interface Store that write.
pub data Op (F : Type 0) : Type 0 where
  put : ℤ → Exam F → Op F
  start : ℤ → String → String → String → Op F
  save : ℤ → String → Responses F → Op F
  move : ℤ → String → ℤ → Op F
  advance : ℤ → String → Op F
  finish : ℤ → String → Op F
  grade : ℤ → String → GoMap (ManualGradeInput F) → String → Bool → Op F

module _ {F : Type 0} ⦃fl : Float64 F⦄ where
  unfoldable pub exec : Env F → Op F → Db F → Db F
  exec env (put now e) db = put_exam now e db
  exec env (start now id exam_id user_id) db = (new_attempt now id exam_id user_id db).1
  exec env (save now id resp) db = (save_responses now id resp db).1
  exec env (move now id target) db = (navigate now id target db).1
  exec env (advance now id) db = (advance_module env now id db).1
  exec env (finish now id) db = (submit env now id db).1
  exec env (grade now id updates by finalize) db =
      (apply_manual_grades now id updates by finalize db).1

  unfoldable pub run : Env F → List (Op F) → Db F → Db F
  unfolding exec
  run env [] db = db
  run env (op ∷ ops) db = run env ops (exec env op db)

abbrev pub empty_db : {F : Type 0} → Db F
empty_db = record { exams = []; attempts = []; items = []; events = [] }
