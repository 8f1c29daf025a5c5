-- ===== src/Exam/Advance.antt =====
-- internal/exam/store_sql.go: AdvanceModule, with moduleRawPerf.
pub mod Plan
pub mod Effect
use mindengage_lms.Prelude.{
  ℕ, suc, ◌+◌, ℤ, pos, String, Bool, false, Option, none, some, List, [], ◌∷◌, lookup, ltb_ℤ, leb,
  ◌==◌, ◌||◌, str_eq, if◌then◌else◌, ◌&&◌, not, length, get_elem?, Result, ok, err, ◌>>=◌, ◌>>◌,
  fail_if, required,
}
use mindengage_lms.Strings.{trim_space, is_empty}
use mindengage_lms.Float.{Float64, zero_f}
use mindengage_lms.Grading.Types.{Grade, GradeResult}
use mindengage_lms.Exam.Models.{
  Question, Exam, Attempt, AttemptRow, Responses, Db, in_progress, StoreError, attempt_not_found,
  no_modules, already_at_last_module, index_out_of_range,
}
use mindengage_lms.Exam.Policy.{
  extract_module_ids, parse_nav_policy, at_index, qid_to_mod, module_window_for, nullable_deadline,
}
use mindengage_lms.Exam.Routing.{router_for_profile}
use mindengage_lms.Exam.Store.{find_attempt, update_attempt, get_exam_admin, coalesce}
use mindengage_lms.Exam.Attempts.{Env, commit, module_times}

-- The first module id of the policy that is `cur`, with its index.
unfoldable pub find_module : String → ℕ → List String → Option (ℕ × String)
find_module cur i [] = none
find_module cur i (m ∷ ms) =
    if str_eq (trim_space m) cur then some (i, m) else find_module cur (suc i) ms

module _ {F : Type 0} where
  -- With unlocked modules the current module is that of the current question.
  unfoldable pub current_module : AttemptRow F → Exam F → List String → ℕ × String
  current_module r ex mod_ids =
      let stored : ℕ × String = (r.module_index, coalesce r.current_module_id "") in
      if (parse_nav_policy ex.policy_raw).module_locked
      then stored
      else elim (at_index ex.questions r.current_index) [
        | none ↦ stored
        | some q ↦
            coalesce
              (find_module (trim_space (coalesce (lookup q.id (qid_to_mod ex.questions)) "")) 0
                mod_ids)
              stored
      ]

-- The answer of a router; its error is ignored.
abbrev chosen_id : Result String String → String
chosen_id (ok id) = trim_space id
chosen_id (err e) = ""

module _ {F : Type 0} ⦃fl : Float64 F⦄ where
  -- `err == nil && res.AutoPoints > 0`
  abbrev earns {ι} : {E : Type ι} → Result E (GradeResult F) → Bool
  earns (ok r) = fl.lt zero_f r.auto_points
  earns (err e) = false

  unfoldable pub is_correct : Grade F → Question F → Responses F → Bool
  is_correct grade q responses = elim (lookup q.id responses) [
    | none ↦ false
    | some resp ↦
        earns
          (grade (record { q_type = q.q_type; points = fl.of_ℕ 1; answer_key = q.answer_key }) resp)
  ]

  unfoldable pub raw_perf_from : Grade F → String → Responses F → F → List (Question F) → F
  unfolding is_correct
  raw_perf_from grade module_id responses raw [] = raw
  raw_perf_from grade module_id responses raw (q ∷ qs) =
      raw_perf_from grade module_id responses
        (if str_eq (trim_space q.module_id) module_id && is_correct grade q responses
          then fl.add raw (fl.of_ℕ 1)
          else raw)
        qs

  unfoldable pub module_raw_perf : Grade F → Exam F → Responses F → String → F
  unfolding raw_perf_from
  module_raw_perf grade ex responses module_id =
      let target = trim_space module_id in
      if is_empty target then zero_f else raw_perf_from grade target responses zero_f ex.questions

  -- The attempt that the router is given: the fields that the query does not read are zero.
  unfoldable pub router_attempt : AttemptRow F → String → Attempt F
  router_attempt r cur_mod = record {
    id = "";
    exam_id = r.exam_id;
    user_id = "";
    status = in_progress;
    score = zero_f;
    responses = coalesce r.responses_json [];
    module_index = r.module_index;
    module_started_at = pos 0;
    module_deadline = pos 0;
    overall_deadline = pos 0;
    started_at = pos 0;
    submitted_at = pos 0;
    remaining_seconds = pos 0;
    current_index = r.current_index;
    max_reached_index = pos 0;
    current_module_id = cur_mod;
  }

  -- The concrete next module: the router's choice, else the placeholder.
  unfoldable pub route : Env F → AttemptRow F → Exam F → String → F → String → String
  unfolding router_attempt
  route env r ex cur_mod perf placeholder = elim (router_for_profile ex.profile env.routers) [
    | none ↦ placeholder
    | some router ↦
        (let chosen =
            chosen_id (router ex (router_attempt r cur_mod) (record { raw_points = perf })) in
          if is_empty chosen then placeholder else chosen)
  ]

-- What the UPDATE writes.
pub record NextModule : Type 0 where
  pub next_idx : ℕ
  pub seconds : ℤ
  pub cursor : ℤ
  pub module_id : String

module _ {F : Type 0} ⦃fl : Float64 F⦄ where
  -- The module after `cur`, whose placeholder and time are given.
  unfoldable pub next_module :
      Env F → AttemptRow F → Exam F → List String → ℕ × String → String → ℤ → NextModule
  unfolding module_raw_perf route
  next_module env r ex mod_ids cur placeholder secs =
      let prev = trim_space cur.1 in
      let prev_id =
        if is_empty prev then trim_space (coalesce (get_elem? mod_ids cur.0) "") else prev in
      let perf = module_raw_perf env.grade ex (coalesce r.responses_json []) prev_id in
      let concrete = route env r ex cur.1 perf placeholder in
      let win = module_window_for ex concrete in
      record {
        next_idx = cur.0 + 1;
        seconds = if ltb_ℤ (pos 0) secs then secs else pos 0;
        cursor = if not (is_empty concrete) && win.has_any then pos win.first_idx else pos 0;
        module_id = concrete;
      }

  -- The guards over the loaded exam, and the two index expressions.
  unfoldable pub choose_next :
      Env F
      → AttemptRow F
      → Exam F
      → List ℤ
      → List String
      → ℕ × String
      → Result StoreError NextModule
  choose_next env r ex modules mod_ids cur = do
    fail_if (length modules == 0 || length mod_ids == 0) no_modules
    fail_if (leb (length modules) (cur.0 + 1)) already_at_last_module
    placeholder ← required (get_elem? mod_ids (cur.0 + 1)) index_out_of_range
    secs ← required (get_elem? modules (cur.0 + 1)) index_out_of_range
    ok (next_module env r ex mod_ids cur placeholder secs)

  unfoldable pub advance_plan : Env F → String → Db F → Result StoreError NextModule
  advance_plan env id db = do
    r ← required (find_attempt id db.attempts) attempt_not_found
    ex ← get_exam_admin r.exam_id db
    let mod_ids = extract_module_ids ex.policy_raw
    choose_next env r ex (module_times ex) mod_ids (current_module r ex mod_ids)

module _ {F : Type 0} where
  unfoldable pub enter_module : ℤ → NextModule → AttemptRow F → AttemptRow F
  enter_module now n r = record r {
    module_index = n.next_idx;
    module_started_at = some now;
    module_deadline = nullable_deadline now n.seconds;
    current_index = n.cursor;
    max_reached_index = n.cursor;
    current_module_id = some n.module_id;
  }

module _ {F : Type 0} where
  unfoldable pub store_module : ℤ → String → Db F → NextModule → Db F
  store_module now id db n = record db {
    attempts = update_attempt id (enter_module now n) db.attempts;
  }

module _ {F : Type 0} ⦃fl : Float64 F⦄ where
  unfoldable pub advance_module : Env F → ℤ → String → Db F → Result StoreError (Attempt F) × Db F
  advance_module env now id db = commit now id db (store_module now id db) (advance_plan env id db)
