-- ===== src/Exam/Navigate/Effect.antt =====
-- Navigate of internal/exam/store_sql.go: when the cursor moves, and where to.
use mathlib.Core.Path.{subst₂}
use mindengage_lms.Prelude.{
  ℤ, ◌≤ℤ◌, String, true, false, ◌≡◌, ◌≢◌, refl, sym, ◌∙◌, Option, some, ok, err, arith, >>=-eq-ok,
  required, required-eq-ok, fail_if-eq-ok, none, subst, ok_inj, ◌||◌,
}
use mindengage_lms.Exam.Models.{
  Exam, Attempt, AttemptRow, Db, in_progress, StoreError, attempt_not_found, attempt_submitted,
  time_over,
}
use mindengage_lms.Exam.Policy.{parse_nav_policy, module_window_for}
use mindengage_lms.Exam.Store.{find_attempt, get_exam_admin}
use mindengage_lms.Exam.Attempts.{is_submitted, is_past, view_attempt, get_attempt}
use mindengage_lms.Exam.Attempts.View.{
  find_attempt-update_self, find_attempt-update_ne, get_attempt-found, commit-eq-ok, commit-eq-err,
}
use mindengage_lms.Exam.Save.{active_module_id}
use mindengage_lms.Exam.Save.Guards.{IsOpen}
use mindengage_lms.Exam.Navigate.{
  in_window, check_target, navigate_plan, move_cursor, store_cursor, navigate,
}

IsOpen-of : (d : Option ℤ) (now : ℤ) → is_past d now ≡ false → IsOpen d now
IsOpen-of none now h = tt
IsOpen-of (some d) now h = ground arith

module _ {F : Type 0} where
  -- Where the policy lets the cursor of the attempt `r` go.
  pub record MayMove (r : AttemptRow F) (ex : Exam F) (target : ℤ) : Type 0 where
    pub inside :
        (parse_nav_policy ex.policy_raw).module_locked ≡ true
        → (module_window_for ex (active_module_id r ex)).has_any ≡ true
        → in_window target (module_window_for ex (active_module_id r ex)) ≡ true
    pub forward :
        (parse_nav_policy ex.policy_raw).allow_back ≡ false → r.max_reached_index ≤ℤ target

  MayMove-of :
      (r : AttemptRow F) (ex : Exam F) (target : ℤ)
      → check_target r ex target ≡ ok tt
      → MayMove r ex target
  unfolding check_target
  MayMove-of r ex target h = record { inside = λ l w. ground arith; forward = λ b. ground arith }

  pub record Moved (now : ℤ) (id : String) (target : ℤ) (db db' : Db F) (a : Attempt F)
      : Type 0 where
    pub row : AttemptRow F
    pub exam : Exam F
    pub found : find_attempt id db.attempts ≡ some row
    pub exam_found : get_exam_admin row.exam_id db ≡ ok exam
    pub unfinished : row.status ≡ in_progress
    pub module_open : IsOpen row.module_deadline now
    pub overall_open : IsOpen row.overall_deadline now
    pub allowed : MayMove row exam target
    pub at_target : a.current_index ≡ target
    pub grown : row.max_reached_index ≤ℤ a.max_reached_index
    pub reached : target ≤ℤ a.max_reached_index
    pub stored :
        find_attempt id db'.attempts
        ≡ some (record row { current_index = target; max_reached_index = a.max_reached_index })
    pub others : (j : String) → id ≢ j → find_attempt j db'.attempts ≡ find_attempt j db.attempts
    pub exams : db'.exams ≡ db.exams
    pub items : db'.items ≡ db.items
    pub events : db'.events ≡ db.events

  -- The row that a plan was made from, with what was checked.
  abbrev Planned : ℤ → String → ℤ → Db F → AttemptRow F → Type 0
  Planned now id target db r =
      (ex : Exam F) × (find_attempt id db.attempts ≡ some r)
      × (get_exam_admin r.exam_id db ≡ ok ex)
      × (is_submitted r.status ≡ false)
      × ((is_past r.module_deadline now || is_past r.overall_deadline now) ≡ false)
      × (check_target r ex target ≡ ok tt)

  pub navigate_plan-Planned :
      (now : ℤ) (id : String) (target : ℤ) (db : Db F) {r : AttemptRow F}
      → navigate_plan now id target db ≡ ok r
      → Planned now id target db r
  unfolding navigate_plan
  navigate_plan-Planned now id target db {r} h =
      let (r', p, h') = >>=-eq-ok (required (find_attempt id db.attempts) attempt_not_found) _ h in
      let (s, h'') = fail_if-eq-ok (is_submitted r'.status) attempt_submitted _ h' in
      let (t, h3) =
        fail_if-eq-ok (is_past r'.module_deadline now || is_past r'.overall_deadline now) time_over
          _ h'' in
      let (ex, q, h4) = >>=-eq-ok (get_exam_admin r'.exam_id db) _ h3 in
      let (_, c, h5) = >>=-eq-ok (check_target r' ex target) _ h4 in
      subst (Planned now id target db) (ok_inj h5) (ex, required-eq-ok _ _ p, q, s, t, c)

  Moved-at :
      (now : ℤ) (id : String) (target : ℤ) (db : Db F) {r : AttemptRow F}
      → navigate_plan now id target db ≡ ok r
      → (a : Attempt F) × (get_attempt now id (store_cursor id target db r) ≡ ok a)
        × Moved now id target db (store_cursor id target db r) a
  unfolding store_cursor move_cursor view_attempt
  Moved-at now id target db {r} h =
      let (ex, found, exam_found, s, t, c) = navigate_plan-Planned now id target db h in
      let stored =
        find_attempt-update_self id (move_cursor target r.max_reached_index) db.attempts (λ r. refl)
          found in
      (
        view_attempt now (move_cursor target r.max_reached_index r),
        get_attempt-found now id (store_cursor id target db r) stored,
        record {
          row = r;
          exam = ex;
          found = found;
          exam_found = exam_found;
          unfinished = ground arith;
          module_open = IsOpen-of r.module_deadline now (ground arith);
          overall_open = IsOpen-of r.overall_deadline now (ground arith);
          allowed = MayMove-of r ex target c;
          at_target = refl;
          grown = ground arith;
          reached = ground arith;
          stored = stored;
          others = find_attempt-update_ne id _ db.attempts (λ r. refl);
          exams = refl;
          items = refl;
          events = refl;
        },
      )

  -- A call of Navigate that returns an attempt found it in progress and on time; the target lies in
  -- the window of a locked module and, where there is no way back, not before the furthest question
  -- reached. The cursor is at the target, the furthest question reached has not gone down and is
  -- not before the target, and nothing else has changed.
  pub navigate-ok :
      (now : ℤ) (id : String) (target : ℤ) (db : Db F) {a : Attempt F}
      → (navigate now id target db).0 ≡ ok a
      → Moved now id target db (navigate now id target db).1 a
  unfolding navigate
  navigate-ok now id target db h =
      let (r, p, g, w) = commit-eq-ok now id db _ (navigate_plan now id target db) h in
      let (a', g', s) = Moved-at now id target db p in
      subst₂ (Moved now id target db) (sym w) (ok_inj (sym g' ∙ g)) s

  -- A call of Navigate that returns an error leaves the store as it was.
  pub navigate-err :
      (now : ℤ) (id : String) (target : ℤ) (db : Db F) {e : StoreError}
      → (navigate now id target db).0 ≡ err e
      → (navigate now id target db).1 ≡ db
  unfolding navigate store_cursor move_cursor
  navigate-err now id target db = commit-eq-err now id db _ (navigate_plan now id target db) λ r p.
      let (ex, found, _, _, _, _) = navigate_plan-Planned now id target db p in
      (
        move_cursor target r.max_reached_index r,
        find_attempt-update_self id (move_cursor target r.max_reached_index) db.attempts (λ r. refl)
            found,
      )
