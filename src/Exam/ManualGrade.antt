-- ===== src/Exam/ManualGrade.antt =====
-- internal/exam/store_sql.go: ApplyManualGrades.
pub mod Effect
use mindengage_lms.Prelude.{
  ℤ, String, Bool, true, false, some, List, [], ◌∷◌, GoMap, if◌then◌else◌, Result, err,
}
use mindengage_lms.Float.{Float64}
use mindengage_lms.Exam.Models.{Attempt, AttemptRow, ItemRow, Db, StoreError, bad_sql}
use mindengage_lms.Exam.Store.{update_attempt, is_item}
use mindengage_lms.Exam.Attempts.{get_attempt}
use mindengage_lms.Exam.Submit.{auto_total, manual_total}

pub record ManualGradeInput (F : Type 0) : Type 0 where
  pub manual_points : F
  pub comment : String

module _ {F : Type 0} where
  unfoldable pub grade_item :
      ℤ → String → String → ManualGradeInput F → String → List (ItemRow F) → List (ItemRow F)
  grade_item now id qid u graded_by [] = []
  grade_item now id qid u graded_by (it ∷ its) =
      (if is_item id qid it
        then record it {
          manual_points = u.manual_points;
          comment = some u.comment;
          graded_by = some graded_by;
          graded_at = some now;
        }
        else it)
      ∷ grade_item now id qid u graded_by its

  -- The loop over the updates.
  unfoldable pub grade_items :
      ℤ → String → String → GoMap (ManualGradeInput F) → List (ItemRow F) → List (ItemRow F)
  unfolding grade_item
  grade_items now id graded_by [] items = items
  grade_items now id graded_by ((qid, u) ∷ updates) items =
      grade_items now id graded_by updates (grade_item now id qid u graded_by items)

module _ {F : Type 0} ⦃fl : Float64 F⦄ where
  -- The update of the attempt, whose last assignment keeps `graded_at`.
  unfoldable pub regrade_row : F → F → AttemptRow F → AttemptRow F
  regrade_row auto manual r = record r {
    manual_score = manual;
    auto_score = auto;
    score = fl.add auto manual;
  }

  unfoldable pub manual_tx : ℤ → String → GoMap (ManualGradeInput F) → String → Db F → Db F
  unfolding grade_items regrade_row
  manual_tx now id updates graded_by db =
      let items = grade_items now id graded_by updates db.items in
      record db {
        items = items;
        attempts =
            update_attempt id (regrade_row (auto_total id items) (manual_total id items))
              db.attempts;
      }

  -- With `finalize` the time stands on both sides of that assignment, where SQL wants a column: the
  -- database refuses the statement, and the transaction is rolled back.
  unfoldable pub apply_manual_grades :
      ℤ
      → String
      → GoMap (ManualGradeInput F)
      → String
      → Bool
      → Db F
      → Result StoreError (Attempt F) × Db F
  unfolding manual_tx
  apply_manual_grades now id [] graded_by finalize db = (get_attempt now id db, db)
  apply_manual_grades now id (u ∷ us) graded_by true db = (err bad_sql, db)
  apply_manual_grades now id (u ∷ us) graded_by false db =
      let db' = manual_tx now id (u ∷ us) graded_by db in (get_attempt now id db', db')
