-- ===== src/Exam/Navigate.antt =====
-- internal/exam/store_sql.go: Navigate.
pub mod Effect
use mindengage_lms.Prelude.{
  ℕ, ℤ, pos, negsuc, String, Bool, false, List, [], ◌∷◌, ltb_ℤ, ◌==◌, if◌then◌else◌, ◌&&◌, ◌||◌,
  not, Result, ok, err, ◌>>=◌, ◌>>◌, fail_if, required,
}
use mindengage_lms.Exam.Models.{
  Exam, Attempt, AttemptRow, Db, StoreError, attempt_not_found, attempt_submitted, outside_module,
  backward_nav_blocked, time_over,
}
use mindengage_lms.Exam.Policy.{ModuleWindow, parse_nav_policy, module_window_for}
use mindengage_lms.Exam.Store.{find_attempt, update_attempt, get_exam_admin}
use mindengage_lms.Exam.Attempts.{is_submitted, is_past, commit}
use mindengage_lms.Exam.Save.{active_module_id}

abbrev mem_ℕ : ℕ → List ℕ → Bool
mem_ℕ i [] = false
mem_ℕ i (j ∷ js) = j == i || mem_ℕ i js

-- `_, ok := win.indices[target]`
abbrev pub in_window : ℤ → ModuleWindow → Bool
in_window (pos i) w = mem_ℕ i w.indices
in_window (negsuc i) w = false

module _ {F : Type 0} where
  unfoldable pub check_target : AttemptRow F → Exam F → ℤ → Result StoreError (Unit {0})
  check_target r ex target = do
    let nav = parse_nav_policy ex.policy_raw
    let win = module_window_for ex (active_module_id r ex)
    fail_if (nav.module_locked && win.has_any && not (in_window target win)) outside_module
    fail_if (not nav.allow_back && ltb_ℤ target r.max_reached_index) backward_nav_blocked

  unfoldable pub navigate_plan : ℤ → String → ℤ → Db F → Result StoreError (AttemptRow F)
  navigate_plan now id target db = do
    r ← required (find_attempt id db.attempts) attempt_not_found
    fail_if (is_submitted r.status) attempt_submitted
    fail_if (is_past r.module_deadline now || is_past r.overall_deadline now) time_over
    ex ← get_exam_admin r.exam_id db
    check_target r ex target
    ok r

  -- The cursor moves, and the furthest question reached grows with it.
  unfoldable pub move_cursor : ℤ → ℤ → AttemptRow F → AttemptRow F
  move_cursor target max_idx r = record r {
    current_index = target;
    max_reached_index = if ltb_ℤ max_idx target then target else max_idx;
  }

  unfoldable pub store_cursor : String → ℤ → Db F → AttemptRow F → Db F
  store_cursor id target db r = record db {
    attempts = update_attempt id (move_cursor target r.max_reached_index) db.attempts;
  }

  unfoldable pub navigate : ℤ → String → ℤ → Db F → Result StoreError (Attempt F) × Db F
  navigate now id target db =
      commit now id db (store_cursor id target db) (navigate_plan now id target db)
