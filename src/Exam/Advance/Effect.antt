-- ===== src/Exam/Advance/Effect.antt =====
-- AdvanceModule of internal/exam/store_sql.go: which module is entered, and what else changes.
use mindengage_lms.Prelude.{
  ◌+◌, ◌<◌, ℤ, pos, ltb_ℤ, String, ◌≡◌, ◌≢◌, refl, ap, ◌∙◌, some, if◌then◌else◌, length, get_elem?,
  ok, err,
}
use mindengage_lms.Float.{Float64}
use mindengage_lms.Exam.Models.{Exam, Attempt, AttemptRow, Db, StoreError, index_out_of_range}
use mindengage_lms.Exam.Policy.{extract_module_ids, nullable_deadline}
use mindengage_lms.Exam.Store.{find_attempt, get_exam_admin}
use mindengage_lms.Exam.Attempts.{Env, module_times}
use mindengage_lms.Exam.Attempts.View.{find_attempt-update_self, commit-eq-err, commit-plan_err}
use mindengage_lms.Exam.Advance.Plan.{
  IsRouted, start_of, advance_plan-found, advance_plan_in_bounds,
}
use mindengage_lms.Exam.Advance.{
  NextModule, current_module, advance_plan, enter_module, store_module, advance_module,
}

module _ {F : Type 0} ⦃fl : Float64 F⦄ (env : Env F) where
  -- What a successful AdvanceModule has entered.
  pub record Advanced (now : ℤ) (id : String) (db db' : Db F) (a : Attempt F) : Type 0 where
    pub row : AttemptRow F
    pub exam : Exam F
    pub next : NextModule
    pub found : find_attempt id db.attempts ≡ some row
    pub exam_found : get_exam_admin row.exam_id db ≡ ok exam
    pub index :
        a.module_index ≡ (current_module row exam (extract_module_ids exam.policy_raw)).0 + 1
    pub in_range : a.module_index < length (extract_module_ids exam.policy_raw)
    pub time :
        (t : ℤ) × (get_elem? (module_times exam) a.module_index ≡ some t)
        × (next.seconds ≡ (if ltb_ℤ (pos 0) t then t else pos 0))
    pub chosen :
        IsRouted env row exam
          (current_module row exam (extract_module_ids exam.policy_raw)).1
          (get_elem? (extract_module_ids exam.policy_raw) a.module_index)
          a.current_module_id
    pub at_start : a.current_index ≡ start_of env exam a.current_module_id
    pub stored :
        find_attempt id db'.attempts
        ≡ some (record row {
          module_index = a.module_index;
          module_started_at = some now;
          module_deadline = nullable_deadline now next.seconds;
          current_index = a.current_index;
          max_reached_index = a.current_index;
          current_module_id = some a.current_module_id;
        })
    pub others : (j : String) → id ≢ j → find_attempt j db'.attempts ≡ find_attempt j db.attempts
    pub exams : db'.exams ≡ db.exams
    pub items : db'.items ≡ db.items

  stored_after :
      (now : ℤ) (id : String) (db : Db F) (n : NextModule)
      → advance_plan env id db ≡ ok n
      → (r : AttemptRow F) × (find_attempt id (store_module now id db n).attempts ≡ some r)
  unfolding store_module enter_module
  stored_after now id db n p =
      let (r, _, found, _, _) = advance_plan-found env id db p in
      (
        enter_module now n r,
        find_attempt-update_self id (enter_module now n) db.attempts (λ r. refl) found,
      )

  -- A call of AdvanceModule that returns an error leaves the store as it was, and the error is
  -- never that one of the two lists of modules was indexed out of its bounds.
  pub advance_module-err :
      (now : ℤ) (id : String) (db : Db F) {e : StoreError}
      → (advance_module env now id db).0 ≡ err e
      → ((advance_module env now id db).1 ≡ db) × (e ≢ index_out_of_range)
  unfolding advance_module
  advance_module-err now id db h = (
    commit-eq-err now id db _ (advance_plan env id db) (stored_after now id db) h,
    λ p. advance_plan_in_bounds env id db (
        commit-plan_err now id db _ (advance_plan env id db) (stored_after now id db) h ∙ ap err p),
  )
