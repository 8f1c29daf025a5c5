-- ===== src/Exam/Save/Effect.antt =====
-- SaveResponses of internal/exam/store_sql.go: what a call stores, and what it leaves.
use mathlib.Core.Path.{subst₂}
use mindengage_lms.Prelude.{
  ℤ, String, ◌≡◌, ◌≢◌, refl, ap, sym, ◌∙◌, Option, none, some, [], ◌∷◌, GoMap, lookup, insert,
  insert_all, lookup-insert, str_eq_cases, ok, err, arith, >>=-eq-ok, required, required-eq-ok,
  ok_inj,
}
use mindengage_lms.Exam.Models.{
  Exam, Attempt, AttemptRow, Responses, Db, StoreError, attempt_not_found, in_progress,
}
use mindengage_lms.Exam.Store.{find_attempt, get_exam_admin, coalesce}
use mindengage_lms.Exam.Attempts.{get_attempt, view_attempt}
use mindengage_lms.Exam.Attempts.View.{
  find_attempt-update_self, find_attempt-update_ne, get_attempt-found, commit-eq-ok, commit-eq-err,
}
use mindengage_lms.Exam.Save.{
  save_plan, save_responses, store_responses, with_responses, check_open, check_edit,
}
use mindengage_lms.Exam.Save.Guards.{save_plan_iff, MayEdit}

-- The keys of a Go map are distinct.
abbrev pub IsMap {ℓ} : {V : Type ℓ} → GoMap V → Type ℓ
IsMap [] = Unit
IsMap ((k, v) ∷ m) = (lookup k m ≡ none) × IsMap m

abbrev pub or_else {ℓ} : {A : Type ℓ} → Option A → Option A → Option A
or_else none b = b
or_else (some a) b = some a

pub lookup-insert_all {ℓ} :
    {V : Type ℓ} (k : String) (new old : GoMap V)
    → IsMap new
    → lookup k (insert_all new old) ≡ or_else (lookup k new) (lookup k old)
unfolding lookup insert_all
lookup-insert_all k [] old h = refl
lookup-insert_all k ((j, v) ∷ new) old h =
    ground (
      arith,
      str_eq_cases j k,
      lookup-insert_all k new (insert j v old) h.1,
      lookup-insert j k v old,
    )

module _ {F : Type 0} where
  save_plan-found :
      (now : ℤ) (id : String) (resp : Responses F) (db : Db F) {merged : Responses F}
      → save_plan now id resp db ≡ ok merged
      → (r : AttemptRow F) × (ex : Exam F) × (find_attempt id db.attempts ≡ some r)
        × (get_exam_admin r.exam_id db ≡ ok ex)
        × (check_open now r ≡ ok tt)
        × (merged ≡ insert_all resp (coalesce r.responses_json []))
  unfolding save_plan
  save_plan-found now id resp db {merged} h =
      let (r, p, h') = >>=-eq-ok (required (find_attempt id db.attempts) attempt_not_found) _ h in
      let (_, o, h'') = >>=-eq-ok (check_open now r) _ h' in
      let (ex, q, h3) = >>=-eq-ok (get_exam_admin r.exam_id db) _ h'' in
      let (_, _, h4) = >>=-eq-ok (check_edit r ex resp) _ h3 in
      (r, ex, required-eq-ok _ _ p, q, o, cc h4)

  -- What a successful SaveResponses does to the store.
  pub record Saved (now : ℤ) (id : String) (resp : Responses F) (db db' : Db F) (a : Attempt F)
      : Type 0 where
    pub row : AttemptRow F
    pub exam : Exam F
    pub found : find_attempt id db.attempts ≡ some row
    pub exam_found : get_exam_admin row.exam_id db ≡ ok exam
    pub allowed : MayEdit now row exam resp
    pub merged :
        (k : String)
        → lookup k a.responses ≡ or_else (lookup k resp) (lookup k (coalesce row.responses_json []))
    pub stored :
        find_attempt id db'.attempts ≡ some (record row { responses_json = some a.responses })
    pub others : (j : String) → id ≢ j → find_attempt j db'.attempts ≡ find_attempt j db.attempts
    pub exams : db'.exams ≡ db.exams
    pub items : db'.items ≡ db.items
    pub events : db'.events ≡ db.events

  Saved-at :
      (now : ℤ) (id : String) (resp : Responses F) (db : Db F) {merged : Responses F}
      → IsMap resp
      → save_plan now id resp db ≡ ok merged
      → (a : Attempt F) × (get_attempt now id (store_responses id merged db) ≡ ok a)
        × Saved now id resp db (store_responses id merged db) a
  unfolding store_responses with_responses view_attempt
  Saved-at now id resp db {merged} m h =
      let (r, ex, found, exam_found, _, e) = save_plan-found now id resp db h in
      let stored =
        find_attempt-update_self id (with_responses merged) db.attempts (λ r. refl) found in
      (
        view_attempt now (with_responses merged r),
        get_attempt-found now id (store_responses id merged db) stored,
        record {
          row = r;
          exam = ex;
          found = found;
          exam_found = exam_found;
          allowed = (save_plan_iff now id resp db found exam_found).0 (h ∙ ap ok e);
          merged = λ k. ap (lookup k) e ∙ lookup-insert_all k resp (coalesce r.responses_json []) m;
          stored = stored;
          others = find_attempt-update_ne id _ db.attempts (λ r. refl);
          exams = refl;
          items = refl;
          events = refl;
        },
      )

  -- A call of SaveResponses that returns an attempt was allowed; it has stored the new responses
  -- over the old ones, key by key, and has changed no other column, attempt or table.
  pub save_responses-ok :
      (now : ℤ) (id : String) (resp : Responses F) (db : Db F) {a : Attempt F}
      → IsMap resp
      → (save_responses now id resp db).0 ≡ ok a
      → Saved now id resp db (save_responses now id resp db).1 a
  unfolding save_responses
  save_responses-ok now id resp db {a} m h =
      let (merged, p, g, w) = commit-eq-ok now id db _ (save_plan now id resp db) h in
      let (a', g', s) = Saved-at now id resp db m p in
      subst₂ (Saved now id resp db) (sym w) (ok_inj (sym g' ∙ g)) s

  -- A call of SaveResponses that returns an error leaves the store as it was.
  pub save_responses-err :
      (now : ℤ) (id : String) (resp : Responses F) (db : Db F) {e : StoreError}
      → (save_responses now id resp db).0 ≡ err e
      → (save_responses now id resp db).1 ≡ db
  unfolding save_responses store_responses with_responses
  save_responses-err now id resp db =
      commit-eq-err now id db _ (save_plan now id resp db) λ merged p.
        let (r, ex, found, _, _, _) = save_plan-found now id resp db p in
        (
          with_responses merged r,
          find_attempt-update_self id (with_responses merged) db.attempts (λ r. refl) found,
        )

  -- A plan is made for an attempt in progress only.
  pub save_plan-open :
      (now : ℤ) (id : String) (resp : Responses F) (db : Db F) {merged : Responses F}
      → save_plan now id resp db ≡ ok merged
      → (r : AttemptRow F) × (find_attempt id db.attempts ≡ some r) × (r.status ≡ in_progress)
  unfolding check_open
  save_plan-open now id resp db h =
      let (r, ex, found, _, o, _) = save_plan-found now id resp db h in (r, found, ground arith)
