-- ===== src/Exam/Save/Guards.antt =====
-- SaveResponses of internal/exam/store_sql.go: when it accepts an edit.
use mindengage_lms.Prelude.{
  ℕ, ℤ, pos, ◌≤ℤ◌, ltb_ℤ, String, Bool, true, false, not, ◌≡◌, ◌↔◌, refl, Option, none, some, List,
  [], ◌∷◌, GoMap, lookup, insert_all, str_eq_cases, ◌||◌, ok, arith,
}
use mindengage_lms.Strings.{trim_space}
use mindengage_lms.Exam.Save.Permitted.{
  Among, KeysIn, and_iff, iff_trans, IsActive, IsPermitted, IsActive-IsPermitted,
}
use mindengage_lms.Exam.Models.{Exam, AttemptRow, Responses, in_progress, Db}
use mindengage_lms.Exam.Policy.{parse_nav_policy, qid_to_idx, allowed_qids_for_module_id}
use mindengage_lms.Exam.Store.{find_attempt, get_exam_admin, coalesce}
use mindengage_lms.Exam.Attempts.{is_past}
use mindengage_lms.Exam.Save.{
  contains, active_module_id, is_outside, is_before, edits_back, check_open, check_edit, save_plan,
}

-- The clock is not past a deadline.
abbrev pub IsOpen : Option ℤ → ℤ → Type 0
IsOpen none now = Unit
IsOpen (some d) now = now ≤ℤ d

-- Each key that names a question names one from `cur` on.
abbrev pub IsForward : Option ℕ → ℤ → Type 0
IsForward none cur = Unit
IsForward (some i) cur = cur ≤ℤ pos i

abbrev pub KeysForward : {V : Type 0} → GoMap ℕ → ℤ → GoMap V → Type 0
KeysForward idx cur [] = Unit
KeysForward idx cur ((k, v) ∷ resp) = IsForward (lookup k idx) cur × KeysForward idx cur resp

-- What the policy lets the holder of the attempt `r` edit at the time `now`.
pub record MayEdit {F : Type 0} (now : ℤ) (r : AttemptRow F) (ex : Exam F) (resp : Responses F)
    : Type 0 where
  pub unfinished : r.status ≡ in_progress
  pub overall_open : IsOpen r.overall_deadline now
  pub module_open : IsOpen r.module_deadline now
  pub inside :
      (parse_nav_policy ex.policy_raw).module_locked ≡ true
      → (m : String) → IsActive r ex m
      → IsPermitted (trim_space m) ex.questions resp
  pub forward :
      (parse_nav_policy ex.policy_raw).allow_back ≡ false
      → KeysForward (qid_to_idx ex.questions) r.current_index resp

contains_iff : (k : String) (xs : List String) → (contains k xs ≡ true) ↔ Among k xs
contains_iff k [] = (λ h. cc, λ h. absurd h)
contains_iff k (x ∷ xs) = (
  λ h. ground (arith, str_eq_cases x k, contains_iff k xs),
  λ h. ground (arith, str_eq_cases x k, contains_iff k xs),
)

or_false_iff : (a b : Bool) → ((a || b) ≡ false) ↔ ((a ≡ false) × (b ≡ false))
or_false_iff a b = ground arith

or_not_iff : (a b : Bool) → ((not a || b) ≡ false) ↔ ((a ≡ true) × (b ≡ false))
or_not_iff a b = ground arith

is_outside_iff :
    {V : Type 0} (allowed : Option (List String)) (resp : GoMap V)
    → (is_outside allowed resp ≡ false) ↔ KeysIn allowed resp
unfolding is_outside
is_outside_iff none resp = (λ h. tt, λ h. refl)
is_outside_iff (some qids) [] = (λ h. tt, λ h. refl)
is_outside_iff (some qids) ((k, v) ∷ resp) =
    iff_trans (or_not_iff _ _) (and_iff (contains_iff k qids) (is_outside_iff (some qids) resp))

is_before_iff :
    (idx : GoMap ℕ) (cur : ℤ) (k : String)
    → (is_before idx cur k ≡ false) ↔ IsForward (lookup k idx) cur
unfolding is_before
is_before_iff idx cur k = go (lookup k idx)
  where
    go :
        (o : Option ℕ)
        → (elim o as (λ x. Bool) [ none ↦ false | some i ↦ ltb_ℤ (pos i) cur ] ≡ false)
          ↔ IsForward o cur
    go none = (λ h. tt, λ h. refl)
    go (some i) = (λ h. ground arith, λ h. ground arith)

edits_back_iff :
    {V : Type 0} (idx : GoMap ℕ) (cur : ℤ) (resp : GoMap V)
    → (edits_back idx cur resp ≡ false) ↔ KeysForward idx cur resp
unfolding edits_back
edits_back_iff idx cur [] = (λ h. tt, λ h. refl)
edits_back_iff idx cur ((k, v) ∷ resp) =
    iff_trans (or_false_iff _ _) (and_iff (is_before_iff idx cur k) (edits_back_iff idx cur resp))

is_past_iff : (d : Option ℤ) (now : ℤ) → (is_past d now ≡ false) ↔ IsOpen d now
is_past_iff none now = (λ h. tt, λ h. refl)
is_past_iff (some d) now = (λ h. ground arith, λ h. ground arith)

module _ {F : Type 0} where
  check_open_iff :
      (now : ℤ) (r : AttemptRow F)
      → (check_open now r ≡ ok tt) ↔ (
          (is_past r.overall_deadline now ≡ false)
          × (is_past r.module_deadline now ≡ false)
          × (r.status ≡ in_progress))
  unfolding check_open
  check_open_iff now r = (λ h. ground arith, λ h. ground arith)

  check_edit_iff :
      (r : AttemptRow F) (ex : Exam F) (resp : Responses F)
      → let nav = parse_nav_policy ex.policy_raw in
        (check_edit r ex resp ≡ ok tt) ↔ (
          (nav.module_locked ≡ true
            → is_outside (allowed_qids_for_module_id ex (active_module_id r ex)) resp ≡ false)
          × (nav.allow_back ≡ false
              → edits_back (qid_to_idx ex.questions) r.current_index resp ≡ false))
  unfolding check_edit
  check_edit_iff r ex resp = (λ h. (λ l. ground arith, λ l. ground arith), λ h. ground arith)

  MayEdit-iff :
      (now : ℤ) (r : AttemptRow F) (ex : Exam F) (resp : Responses F)
      → ((check_open now r ≡ ok tt) × (check_edit r ex resp ≡ ok tt)) ↔ MayEdit now r ex resp
  MayEdit-iff now r ex resp = (
    λ h.
        let o = (check_open_iff now r).0 h.0 in
        let e = (check_edit_iff r ex resp).0 h.1 in
        record {
          unfinished = o.2;
          overall_open = (is_past_iff _ now).0 o.0;
          module_open = (is_past_iff _ now).0 o.1;
          inside = λ l. (IsActive-IsPermitted r ex resp).0 ((is_outside_iff _ resp).0 (e.0 l));
          forward = λ l. (edits_back_iff _ _ resp).0 (e.1 l);
        },
    λ h. (
      (check_open_iff now r).1
          ((is_past_iff _ now).1 h.overall_open, (is_past_iff _ now).1 h.module_open, h.unfinished),
      (check_edit_iff r ex resp).1 (
        λ l. (is_outside_iff _ resp).1 ((IsActive-IsPermitted r ex resp).1 (h.inside l)),
        λ l. (edits_back_iff _ _ resp).1 (h.forward l),
      ),
    ),
  )

  save_plan-eq-ok :
      (now : ℤ) (id : String) (resp : Responses F) (db : Db F) {r : AttemptRow F} {ex : Exam F}
      → find_attempt id db.attempts ≡ some r
      → get_exam_admin r.exam_id db ≡ ok ex
      → (save_plan now id resp db ≡ ok (insert_all resp (coalesce r.responses_json [])))
        ↔ ((check_open now r ≡ ok tt) × (check_edit r ex resp ≡ ok tt))
  unfolding save_plan
  save_plan-eq-ok now id resp db {r} {ex} p q =
      (λ h. (ground arith, ground arith), λ h. ground arith)

  -- The responses are accepted exactly where the attempt is in progress, neither deadline has
  -- passed, a locked module permits every key of the responses, and, where the policy has no way back,
  -- no key names a question before the current one. A locked module permits the ids of its questions,
  -- and every key where it is blank or the exam has no question of it. Then what is stored is the merge of the
  -- responses into the old ones. The attempt and its exam are found.
  pub save_plan_iff :
      (now : ℤ) (id : String) (resp : Responses F) (db : Db F) {r : AttemptRow F} {ex : Exam F}
      → find_attempt id db.attempts ≡ some r
      → get_exam_admin r.exam_id db ≡ ok ex
      → (save_plan now id resp db ≡ ok (insert_all resp (coalesce r.responses_json [])))
        ↔ MayEdit now r ex resp
  save_plan_iff now id resp db {r} {ex} p q =
      iff_trans (save_plan-eq-ok now id resp db p q) (MayEdit-iff now r ex resp)
