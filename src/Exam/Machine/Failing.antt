-- ===== src/Exam/Machine/Failing.antt =====
-- internal/exam/store_sql.go: what the calls that return an error leave.
use mathlib.Core.Option
use mindengage_lms.Prelude.{
  ℤ, String, Bool, true, false, ◌≡◌, ◌≢◌, ◌⊎◌, refl, ap, ◌∙◌, sym, inl, inr, Option, none, some,
  List, [], ◌∷◌, GoMap, Result, ok, err, Option-cases, str_eq_refl, str_eq_cases, if◌then◌else◌,
}
use mindengage_lms.Float.{Float64}
use mindengage_lms.Exam.Models.{Exam, AttemptRow, Db, StoreError, no_rows}
use mindengage_lms.Exam.Store.{find_attempt, update_attempt, items_of, get_exam_admin}
use mindengage_lms.Exam.Store.Rows.{find_attempt-update_attempt}
use mindengage_lms.Exam.Attempts.{Env, get_attempt, new_attempt, start_attempt, insert_new, new_row}
use mindengage_lms.Exam.Save.{save_responses}
use mindengage_lms.Exam.Save.Effect.{save_responses-err}
use mindengage_lms.Exam.Navigate.{navigate}
use mindengage_lms.Exam.Navigate.Effect.{navigate-err}
use mindengage_lms.Exam.Submit.{submit, auto_total, manual_total}
use mindengage_lms.Exam.Submit.Laws.{submit-err}
use mindengage_lms.Exam.Advance.{advance_module}
use mindengage_lms.Exam.Advance.Effect.{advance_module-err}
use mindengage_lms.Exam.ManualGrade.Effect.{items_of-grade_items}
use mindengage_lms.Exam.ManualGrade.{
  ManualGradeInput, grade_items, regrade_row, manual_tx, apply_manual_grades,
}
use mindengage_lms.Exam.Machine.{Op, put, start, save, move, advance, finish, grade, exec}

abbrev failure : {A : Type 0} → Result StoreError A → Option StoreError
failure (ok a) = none
failure (err e) = some e

failure-eq-some :
    {A : Type 0} (m : Result StoreError A) {e : StoreError} → failure m ≡ some e → m ≡ err e
failure-eq-some (ok a) h = cc
failure-eq-some (err d) h = cc

module _ {F : Type 0} ⦃fl : Float64 F⦄ where
  -- The error that a call returns, if it does.
  unfoldable pub error_of : Env F → Op F → Db F → Option StoreError
  error_of env (put now e) db = none
  error_of env (start now id exam_id user_id) db = failure (new_attempt now id exam_id user_id db).0
  error_of env (save now id resp) db = failure (save_responses now id resp db).0
  error_of env (move now id target) db = failure (navigate now id target db).0
  error_of env (advance now id) db = failure (advance_module env now id db).0
  error_of env (finish now id) db = failure (submit env now id db).0
  error_of env (grade now id updates by finalize) db =
      failure (apply_manual_grades now id updates by finalize db).0

  -- What manual grades, that are not final, leave where there is no attempt: all tables but the items
  -- that have its id.
  pub record OnlyItems (id : String) (finalize : Bool) (db db' : Db F) : Type 0 where
    pub not_final : finalize ≡ false
    pub no_attempt : find_attempt id db.attempts ≡ none
    pub exams : db'.exams ≡ db.exams
    pub attempts : db'.attempts ≡ db.attempts
    pub other_items : (j : String) → id ≢ j → items_of j db'.items ≡ items_of j db.items
    pub events : db'.events ≡ db.events

  -- The tables are the same, but for those manual grades.
  abbrev pub Untouched : Op F → Db F → Db F → Type 0
  Untouched (grade now id updates by finalize) db db' = (db' ≡ db) ⊎ OnlyItems id finalize db db'
  Untouched op db db' = db' ≡ db

  insert_new-err :
      (r : AttemptRow F) (db : Db F) (o : Option (AttemptRow F)) {e : StoreError}
      → (insert_new r db o).0 ≡ err e
      → (insert_new r db o).1 ≡ db
  unfolding insert_new
  insert_new-err r db (some other) h = refl
  insert_new-err r db none h = cc

  start_attempt-err :
      (now : ℤ) (id exam_id user_id : String) (db : Db F) (m : Result StoreError (Exam F))
      {e : StoreError}
      → (start_attempt now id exam_id user_id db m).0 ≡ err e
      → (start_attempt now id exam_id user_id db m).1 ≡ db
  unfolding start_attempt
  start_attempt-err now id exam_id user_id db (ok ex) h =
      insert_new-err (new_row now id exam_id user_id ex) db (find_attempt id db.attempts) h
  start_attempt-err now id exam_id user_id db (err no_rows) h = refl
  start_attempt-err now id exam_id user_id db (err _) h = refl

  update_attempt-none :
      (id : String) (f : AttemptRow F → AttemptRow F) (rows : List (AttemptRow F))
      → find_attempt id rows ≡ none
      → update_attempt id f rows ≡ rows
  unfolding find_attempt update_attempt
  update_attempt-none id f [] h = refl
  update_attempt-none id f (a ∷ rows) h = elim (str_eq_cases a.id id) [
    | inl (e, _) ↦ absurd (cc (rw (find_attempt, e) at h))
    | inr (e, _) ↦
        rw e (ap (λ as'. a ∷ as') (update_attempt-none id f rows (rw (find_attempt, e) at h)))
  ]

  get_attempt-err :
      (now : ℤ) (id : String) (db : Db F) {e : StoreError}
      → get_attempt now id db ≡ err e
      → find_attempt id db.attempts ≡ none
  unfolding get_attempt
  get_attempt-err now id db h = elim (Option-cases (find_attempt id db.attempts)) [
    | inl e ↦ e
    | inr (r, e) ↦ absurd (cc (rw (get_attempt, e) at h))
  ]

  none_before :
      (f : AttemptRow F → AttemptRow F) (o : Option (AttemptRow F))
      → Option.map f o ≡ none
      → o ≡ none
  none_before f none h = refl
  none_before f (some r) h = cc

  find_attempt-update_none :
      (id : String) (f : AttemptRow F → AttemptRow F) (rows : List (AttemptRow F))
      → ((r : AttemptRow F) → (f r).id ≡ r.id)
      → find_attempt id (update_attempt id f rows) ≡ none
      → find_attempt id rows ≡ none
  find_attempt-update_none id f rows keep h = none_before f (find_attempt id rows) (
      ap (λ b. if b then Option.map f (find_attempt id rows) else find_attempt id rows)
        (sym (str_eq_refl id))
      ∙ (sym (find_attempt-update_attempt id id f rows keep) ∙ h))

  apply_manual_grades-err :
      (now : ℤ) (id : String) (updates : GoMap (ManualGradeInput F)) (by : String) (finalize : Bool)
      (db : Db F) {e : StoreError}
      → (apply_manual_grades now id updates by finalize db).0 ≡ err e
      → Untouched
          (grade now id updates by finalize)
          db
          (apply_manual_grades now id updates by finalize db).1
  unfolding apply_manual_grades manual_tx regrade_row
  apply_manual_grades-err now id [] by finalize db h = inl refl
  apply_manual_grades-err now id (u ∷ us) by true db h = inl refl
  apply_manual_grades-err now id (u ∷ us) by false db h =
      let items = grade_items now id by (u ∷ us) db.items in
      let f = regrade_row (auto_total id items) (manual_total id items) in
      let missing =
        find_attempt-update_none id f db.attempts (λ r. refl)
          (get_attempt-err now id (manual_tx now id (u ∷ us) by db) h) in
      inr (record {
        not_final = refl;
        no_attempt = missing;
        exams = refl;
        attempts = update_attempt-none id f db.attempts missing;
        other_items = λ j. items_of-grade_items now id by j (u ∷ us) db.items;
        events = refl;
      })

  -- A call of a writing method of the store that returns an error leaves all tables as they were. The
  -- exception are manual grades that are not final for an attempt that is not there: they leave the
  -- exams, the attempts, the events and the items of other attempts.
  pub exec-Untouched :
      (env : Env F) (op : Op F) (db : Db F) {e : StoreError}
      → error_of env op db ≡ some e
      → Untouched op db (exec env op db)
  unfolding exec error_of new_attempt
  exec-Untouched env (put now ex) db h = cc
  exec-Untouched env (start now id exam_id user_id) db h =
      start_attempt-err now id exam_id user_id db (get_exam_admin exam_id db) (failure-eq-some _ h)
  exec-Untouched env (save now id resp) db h =
      save_responses-err now id resp db (failure-eq-some _ h)
  exec-Untouched env (move now id target) db h = navigate-err now id target db (failure-eq-some _ h)
  exec-Untouched env (advance now id) db h =
      (advance_module-err env now id db (failure-eq-some _ h)).0
  exec-Untouched env (finish now id) db h = submit-err env now id db (failure-eq-some _ h)
  exec-Untouched env (grade now id updates by finalize) db h =
      apply_manual_grades-err now id updates by finalize db (failure-eq-some _ h)
