-- ===== src/Tests/Setup.antt =====
-- Parameters of the model at concrete values: float64 as thousandths, Unicode tables that change
-- nothing, a grader, a small exam and a store.
use mindengage_lms.Prelude.{
  ℕ, ◌+◌, ◌-◌, ◌*◌, ◌/◌, pos, String, true, false, none, some, List, [], ◌∷◌, ltb, leb, ok, lookup,
  insert, insert_all, str_eq, add64, sub64,
}
use mindengage_lms.Strings.{Unicode}
use mindengage_lms.Float.{Float64}
use mindengage_lms.Grading.Types.{Grade}
use mindengage_lms.Exam.Models.{
  str, Question, ModuleDoc, PolicyRaw, Exam, Db, Responses, AttemptRow, ExamRow, in_progress,
  submitted,
}
use mindengage_lms.Exam.Routing.{router_for_profile}
use mindengage_lms.Exam.Policy.{
  extract_modules, extract_module_ids, extract_module_times, parse_nav_policy, nullable_deadline,
  at_index, widen, qid_to_idx_from, qid_to_mod_from, qid_to_idx, qid_to_mod, window_loop,
  module_window_for, qids_in_module, allowed_qids_for_module_id, allowed_qids_for_module,
}
use mindengage_lms.Exam.Store.{
  find_exam, find_attempt, update_attempt, items_of, find_item, exam_of_row, get_exam_admin,
}
use mindengage_lms.Exam.Exams.{upsert_exam, row_of_exam, put_exam, strip_keys, get_exam}
use mindengage_lms.Exam.Attempts.{
  Env, seconds_left, remaining, view_attempt, get_attempt, commit, module_times, total_seconds,
  start_index, new_row, new_view, insert_new, start_attempt, new_attempt,
}
use mindengage_lms.Exam.Save.{
  active_module_id, is_outside, is_before, edits_back, check_open, check_edit, save_plan,
  with_responses, store_responses, save_responses,
}
use mindengage_lms.Exam.Navigate.{check_target, navigate_plan, move_cursor, store_cursor, navigate}
use mindengage_lms.Exam.Submit.{
  needs_manual_for_type, points_of, auto_points, new_item, upsert_item, grade_questions, sum_manual,
  sum_auto, manual_total, auto_total, submit_row, submitted_event, submit_plan, submit_tx, submit,
}
use mindengage_lms.Exam.Advance.{
  find_module, current_module, is_correct, raw_perf_from, module_raw_perf, router_attempt, route,
  next_module, choose_next, advance_plan, enter_module, store_module, advance_module,
}
use mindengage_lms.Exam.ManualGrade.{
  grade_item, grade_items, regrade_row, manual_tx, apply_manual_grades,
}
use mindengage_lms.Exam.Machine.{put, start, finish, empty_db, exec, run}
use mindengage_lms.Strings.{
  is_space, trim_left, trim_right, trim_space, to_lower, has_prefix, has_suffix, trim_suffix,
}

instance abbrev pub thousandths : Float64 ℕ
thousandths = record {
  of_ℕ = λ n. n * 1000;
  half = 500;
  minus_one = 0;
  add = λ a b. a + b;
  sub = λ a b. a - b;
  mul = λ a b. a * b / 1000;
  div = λ a b. a * 1000 / b;
  abs = λ a. a;
  lt = ltb;
  le = leb;
  parse = λ s. none;
}

abbrev pub plain_unicode : Unicode
plain_unicode = record { lower = λ c. c; is_punct = λ c. false; fold = λ c. c }

-- A grader that gives every response all its points.
abbrev pub generous : Grade ℕ
generous q v =
    ok (record {
      auto_points = q.points;
      max_points = q.points;
      needs_manual = false;
      feedback = [];
    })

abbrev pub env : Env ℕ
env = record { grade = generous; routers = []; unicode = plain_unicode }

abbrev question : String → String → Question ℕ
question id module_id = record {
  id = id;
  q_type = "numeric";
  prompt_html = "";
  choices = [];
  answer_key = "4" ∷ [];
  points = 1000;
  section_id = "math";
  module_id = module_id;
}

abbrev pub questions : List (Question ℕ)
questions = question "q1" "m1" ∷ question "q2" "m1" ∷ question "q3" "m2" ∷ []

abbrev module_doc : String → ModuleDoc
module_doc id = record { id = id; time_limit_sec = pos 600 }

-- Two locked modules, with no way back.
abbrev pub locked : PolicyRaw
locked = some (record {
  is_blank = false;
  sections = some (record { id = "math"; modules = module_doc "m1" ∷ module_doc "m2" ∷ [] } ∷ []);
  allow_back = some false;
  module_locked = some true;
})

abbrev pub exam : Exam ℕ
exam = record {
  id = "e1";
  title = "Mathematics";
  time_limit_sec = pos 0;
  questions = questions;
  profile = "";
  policy_raw = locked;
  created_at = pos 0;
}

abbrev pub answers : Responses ℕ
answers = ("q1", str "4") ∷ []

-- An attempt begun at the second 1000, and the same after a submission.
abbrev pub begun : Db ℕ
begun = run env (put (pos 1000) exam ∷ start (pos 1000) "a1" "e1" "u1" ∷ []) empty_db

abbrev pub ended : Db ℕ
ended = run env (finish (pos 1100) "a1" ∷ []) begun

abbrev pub begun_row : AttemptRow ℕ
begun_row = record {
  id = "a1";
  exam_id = "e1";
  user_id = "u1";
  status = in_progress;
  score = 0;
  auto_score = 0;
  manual_score = 0;
  responses_json = some [];
  started_at = pos 1000;
  submitted_at = pos 0;
  module_index = 0;
  module_started_at = some (pos 1000);
  module_deadline = some (pos 1600);
  overall_deadline = some (pos 2200);
  current_index = pos 0;
  max_reached_index = pos 0;
  current_module_id = some "m1";
  graded_at = none;
}

abbrev pub ended_row : AttemptRow ℕ
ended_row = record begun_row { status = submitted }

abbrev pub exam_row : ExamRow ℕ
exam_row = record {
  id = "e1";
  title = "Mathematics";
  time_limit_sec = pos 0;
  questions_json = some questions;
  created_at = pos 1000;
  profile = "";
  policy_json = locked;
}

-- A test that runs the store unfolds this.
unfoldable pub store_code : Unit {0}
unfolding router_for_profile extract_modules extract_module_ids extract_module_times
    parse_nav_policy nullable_deadline at_index widen qid_to_idx_from qid_to_mod_from qid_to_idx
    qid_to_mod window_loop module_window_for qids_in_module allowed_qids_for_module_id
    allowed_qids_for_module find_exam find_attempt update_attempt items_of find_item exam_of_row
    get_exam_admin upsert_exam row_of_exam put_exam strip_keys get_exam seconds_left remaining
    view_attempt get_attempt commit module_times total_seconds start_index new_row new_view
    insert_new start_attempt new_attempt active_module_id is_outside is_before edits_back check_open
    check_edit save_plan with_responses store_responses save_responses check_target navigate_plan
    move_cursor store_cursor navigate needs_manual_for_type points_of auto_points new_item
    upsert_item grade_questions sum_manual sum_auto manual_total auto_total submit_row
    submitted_event submit_plan submit_tx submit find_module current_module is_correct raw_perf_from
    module_raw_perf router_attempt route next_module choose_next advance_plan enter_module
    store_module advance_module grade_item grade_items regrade_row manual_tx apply_manual_grades
    exec run is_space trim_left trim_right trim_space to_lower has_prefix has_suffix trim_suffix
    lookup insert insert_all str_eq add64 sub64
store_code = tt
