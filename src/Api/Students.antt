-- ===== src/Api/Students.antt =====
-- internal/api/http/student_handlers.go and grading_handlers.go: the handlers of attempts over the
-- store. The attempt's id is the parameter of the route; a body is what encoding/json reads from it,
-- `none` for an error; `text` is the message of an error of the store.
use Prim.Native.String.{◌++◌ as ◌<>◌}
use mindengage_lms.Prelude.{
  ℕ, ℤ, String, Bool, false, not, ◌&&◌, ◌||◌, Option, none, some, GoMap, Result, ok, err, str_eq,
  if◌then◌else◌,
}
use mindengage_lms.Strings.{trim_space, is_empty}
use mindengage_lms.Float.{Float64}
use mindengage_lms.Exam.Models.{
  StoreError, attempt_submitted, outside_module, backward_nav_blocked, edit_back_blocked, time_over,
  index_out_of_range, Attempt, Responses, Db,
}
use mindengage_lms.Exam.Attempts.{Env, get_attempt, new_attempt}
use mindengage_lms.Exam.Save.{save_responses}
use mindengage_lms.Exam.Navigate.{navigate}
use mindengage_lms.Exam.Submit.{submit}
use mindengage_lms.Exam.Advance.{advance_module}
use mindengage_lms.Exam.ManualGrade.{ManualGradeInput, apply_manual_grades}
use mindengage_lms.Rbac.Require.{Context, subject_from_context}
use mindengage_lms.Platform.Http.{Outcome, refused, served}

-- The status of an error of SaveResponses, of Submit, and of Navigate.
unfoldable pub save_status : StoreError → ℕ
save_status attempt_submitted = 409
save_status time_over = 409
save_status outside_module = 409
save_status edit_back_blocked = 409
save_status _ = 400

unfoldable pub submit_status : StoreError → ℕ
submit_status attempt_submitted = 409
submit_status _ = 400

unfoldable pub navigate_status : StoreError → ℕ
navigate_status attempt_submitted = 409
navigate_status outside_module = 409
navigate_status backward_nav_blocked = 409
navigate_status edit_back_blocked = 409
navigate_status time_over = 409
navigate_status _ = 400

-- The bodies of CreateAttemptHandler and of ApplyAttemptGradingHandler.
pub record NewAttemptBody : Type 0 where
  pub exam_id : String
  pub user_id : String

pub record GradesBody (F : Type 0) : Type 0 where
  pub items : GoMap (ManualGradeInput F)
  pub finalize : Bool

-- A panic is answered with 500, by the middleware that recovers from it.
abbrev pub error_status : (StoreError → ℕ) → StoreError → ℕ
error_status status index_out_of_range = 500
error_status status e = status e

module _ {F : Type 0} where
  -- How a handler ends: the error with its status and message, or the attempt.
  abbrev pub reply :
      (StoreError → ℕ)
      → (StoreError → String)
      → Result StoreError (Attempt F) × Db F
      → Outcome (Attempt F) × Db F
  reply status text (err e, db) = (refused (error_status status e) (text e), db)
  reply status text (ok a, db) = (served a, db)

  unfoldable pub save_responses_handler :
      (StoreError → String) → ℤ → String → Option (Responses F) → Db F → Outcome (Attempt F) × Db F
  save_responses_handler text now id none db = (refused 400 "bad json", db)
  save_responses_handler text now id (some resp) db =
      reply save_status text (save_responses now id resp db)

  unfoldable pub get_attempt_handler :
      (StoreError → String) → ℤ → String → Db F → Outcome (Attempt F) × Db F
  get_attempt_handler text now id db = reply (λ e. 404) text (get_attempt now id db, db)

  unfoldable pub navigate_handler :
      (StoreError → String) → ℤ → String → Option ℤ → Db F → Outcome (Attempt F) × Db F
  navigate_handler text now id none db = (refused 400 "bad json", db)
  navigate_handler text now id (some target) db =
      reply navigate_status text (navigate now id target db)

  abbrev pub is_user : String → Result StoreError (Attempt F) → Bool
  is_user sub (err e) = false
  is_user sub (ok a) = not (is_empty sub) && str_eq sub a.user_id

  unfoldable pub is_attempt_owner : ℤ → String → Db F → Context → Bool
  unfolding subject_from_context
  is_attempt_owner now id db ctx = is_user (subject_from_context ctx) (get_attempt now id db)

module _ {F : Type 0} ⦃fl : Float64 F⦄ where
  unfoldable pub create_attempt_handler :
      (StoreError → String)
      → ℤ
      → (new_id : String) → Option NewAttemptBody
      → Db F
      → Outcome (Attempt F) × Db F
  create_attempt_handler text now new_id none db = (refused 400 "bad json", db)
  create_attempt_handler text now new_id (some req) db =
      if is_empty req.exam_id || is_empty req.user_id
      then (refused 400 "exam_id and user_id required", db)
      else reply (λ e. 400) text (new_attempt now new_id req.exam_id req.user_id db)

  unfoldable pub submit_attempt_handler :
      (StoreError → String) → Env F → ℤ → String → Db F → Outcome (Attempt F) × Db F
  submit_attempt_handler text env now id db = reply submit_status text (submit env now id db)

  unfoldable pub next_module_handler :
      (StoreError → String) → Env F → ℤ → String → Db F → Outcome (Attempt F) × Db F
  next_module_handler text env now id db = reply (λ e. 400) text (advance_module env now id db)

  -- `sub` is the subject that subjectAndRole reads from the request.
  unfoldable pub apply_attempt_grading_handler :
      (StoreError → String)
      → ℤ
      → (sub id : String) → Result String (GradesBody F)
      → Db F
      → Outcome (Attempt F) × Db F
  apply_attempt_grading_handler text now sub id body db =
      let attempt_id = trim_space id in
      if is_empty attempt_id then (refused 400 "attemptID required", db) else elim body [
        | err e ↦ (refused 400 ("bad json: " <> e), db)
        | ok req ↦
            reply (λ e. 500) (λ e. "apply grades: " <> text e)
              (apply_manual_grades now attempt_id req.items sub req.finalize db)
      ]
