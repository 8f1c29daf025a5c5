-- ===== src/Exam/Attempts.antt =====
-- internal/exam/store_sql.go: the environment of the attempt operations, GetAttempt and NewAttempt.
-- Each operation reads the clock once, as `now` in Unix seconds.
pub mod View
pub mod Remaining
use mindengage_lms.Prelude.{
  ℤ, pos, String, Bool, true, false, Option, none, some, List, [], ◌∷◌, ◌++◌, ltb_ℤ, eqb_ℤ, add64,
  sub64, if◌then◌else◌, ◌&&◌, ◌||◌, Result, ok, err, ◌>>=◌, required,
}
use mindengage_lms.Strings.{Unicode}
use mindengage_lms.Float.{Float64, zero_f}
use mindengage_lms.Grading.Types.{Grade}
use mindengage_lms.Exam.Models.{
  Exam, Attempt, AttemptRow, Status, in_progress, submitted, Db, StoreError, no_rows,
  exam_not_found, attempt_not_found, duplicate_id,
}
use mindengage_lms.Exam.Policy.{
  extract_module_ids, extract_module_times, parse_nav_policy, nullable_deadline, module_window_for,
}
use mindengage_lms.Exam.Routing.{Routers}
use mindengage_lms.Exam.Store.{find_attempt, get_exam_admin, coalesce}

-- What the store is built with: the grader, the registered routers, Go's Unicode tables.
pub record Env (F : Type 0) : Type 0 where
  pub grade : Grade F
  pub routers : Routers F
  pub unicode : Unicode

abbrev pub is_submitted : Status → Bool
is_submitted submitted = true
is_submitted in_progress = false

-- `deadline.Valid && now > deadline.Int64`
abbrev pub is_past : Option ℤ → ℤ → Bool
is_past none now = false
is_past (some d) now = ltb_ℤ d now

-- The part of `remaining` that a deadline leaves: `d` where it is positive, else the old value.
unfoldable pub seconds_left : ℤ → ℤ → ℤ
seconds_left deadline now =
    if ltb_ℤ (pos 0) deadline
    then (let d = sub64 deadline now in if ltb_ℤ (pos 0) d then d else pos 0)
    else pos 0

-- The remaining seconds that GetAttempt reports; a deadline of 0 is none.
unfoldable pub remaining : ℤ → ℤ → ℤ → ℤ
unfolding seconds_left
remaining module_deadline overall_deadline now =
    let rem = seconds_left module_deadline now in
    if ltb_ℤ (pos 0) overall_deadline
    then (let d = sub64 overall_deadline now in
        if ltb_ℤ (pos 0) d && (eqb_ℤ rem (pos 0) || ltb_ℤ d rem) then d else rem)
    else rem

-- A stored time is copied where it is positive.
abbrev if_positive : ℤ → ℤ
if_positive t = if ltb_ℤ (pos 0) t then t else pos 0

module _ {F : Type 0} where
  unfoldable pub view_attempt : ℤ → AttemptRow F → Attempt F
  view_attempt now r =
      let module_deadline = if_positive (coalesce r.module_deadline (pos 0)) in
      let overall_deadline = if_positive (coalesce r.overall_deadline (pos 0)) in
      record {
        id = r.id;
        exam_id = r.exam_id;
        user_id = r.user_id;
        status = r.status;
        score = r.score;
        responses = coalesce r.responses_json [];
        module_index = r.module_index;
        module_started_at = if_positive (coalesce r.module_started_at (pos 0));
        module_deadline = module_deadline;
        overall_deadline = overall_deadline;
        started_at = r.started_at;
        submitted_at = r.submitted_at;
        remaining_seconds = remaining module_deadline overall_deadline now;
        current_index = r.current_index;
        max_reached_index = r.max_reached_index;
        current_module_id = coalesce r.current_module_id "";
      }

  unfoldable pub get_attempt : ℤ → String → Db F → Result StoreError (Attempt F)
  get_attempt now id db = do
    r ← required (find_attempt id db.attempts) attempt_not_found
    ok (view_attempt now r)

  -- How an operation ends: an error leaves the store; a plan is written, and the attempt read back.
  unfoldable pub commit :
      {A : Type 0}
      → ℤ
      → String
      → Db F
      → (A → Db F)
      → Result StoreError A
      → Result StoreError (Attempt F) × Db F
  commit now id db write (err e) = (err e, db)
  commit now id db write (ok m) = let db' = write m in (get_attempt now id db', db')

-- The times, else the limit where it is positive.
abbrev pub or_limit : ℤ → List ℤ → List ℤ
or_limit limit [] = if ltb_ℤ (pos 0) limit then limit ∷ [] else []
or_limit limit (t ∷ ts) = t ∷ ts

module _ {F : Type 0} where
  -- The module times of the policy, else the exam's own limit.
  unfoldable pub module_times : Exam F → List ℤ
  module_times ex = or_limit ex.time_limit_sec (extract_module_times ex.policy_raw)

-- The sum of the positive times.
unfoldable pub total_seconds : ℤ → List ℤ → ℤ
total_seconds acc [] = acc
total_seconds acc (t ∷ ts) = total_seconds (if ltb_ℤ (pos 0) t then add64 acc t else acc) ts

abbrev first_seconds : List ℤ → ℤ
first_seconds [] = pos 0
first_seconds (t ∷ ts) = if ltb_ℤ (pos 0) t then t else pos 0

abbrev pub first_or_empty : List String → String
first_or_empty [] = ""
first_or_empty (s ∷ ss) = s

module _ {F : Type 0} where
  -- The question at which an attempt starts.
  unfoldable pub start_index : Exam F → ℤ
  start_index ex = elim (extract_module_ids ex.policy_raw) [
    | [] ↦ pos 0
    | m ∷ ms ↦
        (let win = module_window_for ex m in
          if (parse_nav_policy ex.policy_raw).module_locked && win.has_any
          then pos win.first_idx
          else pos 0)
  ]

module _ {F : Type 0} ⦃fl : Float64 F⦄ where
  -- The row that NewAttempt inserts.
  unfoldable pub new_row : ℤ → String → String → String → Exam F → AttemptRow F
  unfolding total_seconds start_index module_times
  new_row now id exam_id user_id ex = record {
    id = id;
    exam_id = exam_id;
    user_id = user_id;
    status = in_progress;
    score = zero_f;
    auto_score = zero_f;
    manual_score = zero_f;
    responses_json = some [];
    started_at = now;
    submitted_at = pos 0;
    module_index = 0;
    module_started_at = some now;
    module_deadline = nullable_deadline now (first_seconds (module_times ex));
    overall_deadline = nullable_deadline now (total_seconds (pos 0) (module_times ex));
    current_index = start_index ex;
    max_reached_index = start_index ex;
    current_module_id = some (first_or_empty (extract_module_ids ex.policy_raw));
    graded_at = none;
  }

  -- The view that NewAttempt returns: the fields that it does not name are zero.
  unfoldable pub new_view : AttemptRow F → Attempt F
  new_view r = record {
    id = r.id;
    exam_id = r.exam_id;
    user_id = r.user_id;
    status = in_progress;
    score = zero_f;
    responses = [];
    module_index = 0;
    module_started_at = coalesce r.module_started_at (pos 0);
    module_deadline = pos 0;
    overall_deadline = pos 0;
    started_at = r.started_at;
    submitted_at = pos 0;
    remaining_seconds = pos 0;
    current_index = pos 0;
    max_reached_index = pos 0;
    current_module_id = coalesce r.current_module_id "";
  }

  -- The insert, which the primary key refuses where the id is taken.
  unfoldable pub insert_new :
      AttemptRow F → Db F → Option (AttemptRow F) → Result StoreError (Attempt F) × Db F
  unfolding new_view
  insert_new r db (some other) = (err duplicate_id, db)
  insert_new r db none = (ok (new_view r), record db { attempts = db.attempts ++ r ∷ [] })

  unfoldable pub start_attempt :
      ℤ
      → String
      → String
      → String
      → Db F
      → Result StoreError (Exam F)
      → Result StoreError (Attempt F) × Db F
  unfolding insert_new
  start_attempt now id exam_id user_id db (err no_rows) = (err exam_not_found, db)
  start_attempt now id exam_id user_id db (err e) = (err e, db)
  start_attempt now id exam_id user_id db (ok ex) =
      insert_new (new_row now id exam_id user_id ex) db (find_attempt id db.attempts)

  -- `id` is the time of the call in the form 20060102150405.
  unfoldable pub new_attempt :
      ℤ → String → String → String → Db F → Result StoreError (Attempt F) × Db F
  unfolding start_attempt
  new_attempt now id exam_id user_id db =
      start_attempt now id exam_id user_id db (get_exam_admin exam_id db)
