-- ===== src/Exam/Save.antt =====
-- internal/exam/store_sql.go: SaveResponses.
pub mod Permitted
pub mod Guards
pub mod Effect
use mindengage_lms.Prelude.{
  ℕ, ℤ, pos, String, Bool, false, Option, none, some, List, [], ◌∷◌, GoMap, lookup, insert_all,
  ltb_ℤ, str_eq, if◌then◌else◌, ◌&&◌, ◌||◌, not, any, Result, ok, err, ◌>>=◌, ◌>>◌, fail_if,
  required,
}
use mindengage_lms.Strings.{trim_space, is_empty}
use mindengage_lms.Exam.Models.{
  Exam, Attempt, AttemptRow, Responses, Db, StoreError, attempt_not_found, attempt_submitted,
  outside_module, edit_back_blocked, time_over,
}
use mindengage_lms.Exam.Policy.{
  extract_module_ids, at_index, parse_nav_policy, qid_to_idx, allowed_qids_for_module_id,
}
use mindengage_lms.Exam.Store.{find_attempt, update_attempt, get_exam_admin, coalesce}
use mindengage_lms.Exam.Attempts.{is_submitted, is_past, commit}

abbrev pub contains : String → List String → Bool
contains k [] = false
contains k (x ∷ xs) = str_eq x k || contains k xs

module _ {F : Type 0} where
  -- The module that an attempt is in: the concrete one, else the placeholder at its index.
  unfoldable pub active_module_id : AttemptRow F → Exam F → String
  active_module_id r ex =
      let target = trim_space (coalesce r.current_module_id "") in
      if is_empty target
      then trim_space
          (coalesce (at_index (extract_module_ids ex.policy_raw) (pos r.module_index)) "")
      else target

-- Some key of the response is no allowed question; without a set every key is allowed.
unfoldable pub is_outside {ℓ} : {V : Type ℓ} → Option (List String) → GoMap V → Bool
is_outside none resp = false
is_outside (some qids) resp = any (λ (kv : String × _). not (contains kv.0 qids)) resp

-- The key's question stands before the current one.
unfoldable pub is_before : GoMap ℕ → ℤ → String → Bool
is_before idx cur k = elim (lookup k idx) [ none ↦ false | some i ↦ ltb_ℤ (pos i) cur ]

unfoldable pub edits_back {ℓ} : {V : Type ℓ} → GoMap ℕ → ℤ → GoMap V → Bool
unfolding is_before
edits_back idx cur resp = any (λ (kv : String × _). is_before idx cur kv.0) resp

module _ {F : Type 0} where
  -- The guards before the exam is loaded.
  unfoldable pub check_open : ℤ → AttemptRow F → Result StoreError (Unit {0})
  check_open now r = do
    fail_if (is_past r.overall_deadline now) time_over
    fail_if (is_past r.module_deadline now) time_over
    fail_if (is_submitted r.status) attempt_submitted

  -- The guards that the policy asks for.
  unfoldable pub check_edit : AttemptRow F → Exam F → Responses F → Result StoreError (Unit {0})
  check_edit r ex resp = do
    let nav = parse_nav_policy ex.policy_raw
    let allowed = allowed_qids_for_module_id ex (active_module_id r ex)
    fail_if (nav.module_locked && is_outside allowed resp) outside_module
    fail_if (not nav.allow_back && edits_back (qid_to_idx ex.questions) r.current_index resp)
        edit_back_blocked

  -- The responses that are to be stored, or the error.
  unfoldable pub save_plan : ℤ → String → Responses F → Db F → Result StoreError (Responses F)
  save_plan now id resp db = do
    r ← required (find_attempt id db.attempts) attempt_not_found
    check_open now r
    ex ← get_exam_admin r.exam_id db
    check_edit r ex resp
    ok (insert_all resp (coalesce r.responses_json []))

  unfoldable pub with_responses : Responses F → AttemptRow F → AttemptRow F
  with_responses merged r = record r { responses_json = some merged }

  unfoldable pub store_responses : String → Responses F → Db F → Db F
  store_responses id merged db = record db {
    attempts = update_attempt id (with_responses merged) db.attempts;
  }

  unfoldable pub save_responses :
      ℤ → String → Responses F → Db F → Result StoreError (Attempt F) × Db F
  save_responses now id resp db =
      commit now id db (λ merged. store_responses id merged db) (save_plan now id resp db)
