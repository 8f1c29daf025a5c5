-- ===== src/Exam/Machine/Change.antt =====
-- How one call of the store of internal/exam/store_sql.go can change the table attempts.
use mindengage_lms.Prelude.{
  ℤ, String, true, false, ◌≡◌, refl, Option, none, some, List, [], ◌∷◌, ◌++◌, Result, ok, err,
}
use mindengage_lms.Float.{Float64}
use mindengage_lms.Exam.Models.{Exam, AttemptRow, Responses, Db, StoreError, no_rows}
use mindengage_lms.Exam.Store.{find_attempt, update_attempt, get_exam_admin}
use mindengage_lms.Exam.Attempts.{Env, new_attempt, insert_new, new_row, start_attempt}
use mindengage_lms.Exam.Attempts.View.{commit_induction}
use mindengage_lms.Exam.Exams.{put_exam}
use mindengage_lms.Exam.Save.{save_plan, with_responses, store_responses, save_responses}
use mindengage_lms.Exam.Navigate.{navigate_plan, move_cursor, store_cursor, navigate}
use mindengage_lms.Exam.Submit.{submit_plan, submit_row, submit_tx, submit}
use mindengage_lms.Exam.Advance.{
  NextModule, advance_plan, enter_module, store_module, advance_module,
}
use mindengage_lms.Exam.ManualGrade.{regrade_row, manual_tx, apply_manual_grades}
use mindengage_lms.Exam.Machine.{Op, put, start, save, move, advance, finish, grade, exec}

module _ {F : Type 0} ⦃fl : Float64 F⦄ where
  -- An update of the row of `id`, with what its method has checked.
  pub data Edit (env : Env F) (db : Db F) (id : String)
      : (AttemptRow F → AttemptRow F) → Type 0 where
    saved :
        (now : ℤ) (resp merged : Responses F)
        → save_plan now id resp db ≡ ok merged
        → Edit env db id (with_responses merged)
    moved :
        (now target : ℤ) (r : AttemptRow F)
        → navigate_plan now id target db ≡ ok r
        → Edit env db id (move_cursor target r.max_reached_index)
    advanced :
        (now : ℤ) (n : NextModule)
        → advance_plan env id db ≡ ok n
        → Edit env db id (enter_module now n)
    finished : (now : ℤ) (auto manual : F) → Edit env db id (submit_row now auto manual)
    graded : (auto manual : F) → Edit env db id (regrade_row auto manual)

  pub data Change (env : Env F) (db : Db F) : List (AttemptRow F) → Type 0 where
    same : Change env db db.attempts
    added :
        (now : ℤ) (id exam_id user_id : String) (ex : Exam F)
        → find_attempt id db.attempts ≡ none
        → Change env db (db.attempts ++ new_row now id exam_id user_id ex ∷ [])
    updated :
        (id : String) (f : AttemptRow F → AttemptRow F)
        → Edit env db id f
        → Change env db (update_attempt id f db.attempts)

  -- An update keeps the ids.
  pub Edit-id :
      {env : Env F} {db : Db F} {id : String} {f : AttemptRow F → AttemptRow F}
      → Edit env db id f
      → (r : AttemptRow F) → (f r).id ≡ r.id
  unfolding with_responses move_cursor enter_module submit_row regrade_row
  Edit-id (saved _ _ _ _) r = refl
  Edit-id (moved _ _ _ _) r = refl
  Edit-id (advanced _ _ _) r = refl
  Edit-id (finished _ _ _) r = refl
  Edit-id (graded _ _) r = refl

  insert_new-Change :
      (env : Env F) (now : ℤ) (id exam_id user_id : String) (ex : Exam F) (db : Db F)
      (o : Option (AttemptRow F))
      → find_attempt id db.attempts ≡ o
      → Change env db (insert_new (new_row now id exam_id user_id ex) db o).1.attempts
  unfolding insert_new
  insert_new-Change env now id exam_id user_id ex db none e = added now id exam_id user_id ex e
  insert_new-Change env now id exam_id user_id ex db (some r) e = same

  start_attempt-Change :
      (env : Env F) (now : ℤ) (id exam_id user_id : String) (db : Db F)
      (m : Result StoreError (Exam F))
      → Change env db (start_attempt now id exam_id user_id db m).1.attempts
  unfolding start_attempt
  start_attempt-Change env now id exam_id user_id db (ok ex) =
      insert_new-Change env now id exam_id user_id ex db (find_attempt id db.attempts) refl
  start_attempt-Change env now id exam_id user_id db (err no_rows) = same
  start_attempt-Change env now id exam_id user_id db (err _) = same

  -- Every operation changes the table attempts in one of the three ways.
  pub exec-Change : (env : Env F) (op : Op F) (db : Db F) → Change env db (exec env op db).attempts
  unfolding exec put_exam new_attempt save_responses store_responses navigate store_cursor
      advance_module store_module submit submit_tx apply_manual_grades manual_tx
  exec-Change env (put now e) db = same
  exec-Change env (start now id exam_id user_id) db =
      start_attempt-Change env now id exam_id user_id db (get_exam_admin exam_id db)
  exec-Change env (save now id resp) db =
      commit_induction now id db _ (save_plan now id resp db) (λ d. Change env db d.attempts) same
        (λ merged p. updated id _ (saved now resp merged p))
  exec-Change env (move now id target) db =
      commit_induction now id db _ (navigate_plan now id target db) (λ d. Change env db d.attempts)
        same (λ r p. updated id _ (moved now target r p))
  exec-Change env (advance now id) db =
      commit_induction now id db _ (advance_plan env id db) (λ d. Change env db d.attempts) same
        (λ n p. updated id _ (advanced now n p))
  exec-Change env (finish now id) db =
      commit_induction now id db _ (submit_plan now id db) (λ d. Change env db d.attempts) same
        (λ p e. updated id _ (finished now _ _))
  exec-Change env (grade now id [] by finalize) db = same
  exec-Change env (grade now id (u ∷ us) by true) db = same
  exec-Change env (grade now id (u ∷ us) by false) db = updated id _ (graded _ _)
