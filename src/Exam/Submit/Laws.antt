-- ===== src/Exam/Submit/Laws.antt =====
-- Submit of internal/exam/store_sql.go: what it grades and stores.
use mindengage_lms.Prelude.{
  ℤ, String, ◌≡◌, ◌≢◌, refl, some, List, [], ◌∷◌, ◌++◌, ok, err, >>=-eq-ok, required,
  required-eq-ok, ok_inj, subst,
}
use mindengage_lms.Grading.Types.{Grade}
use mindengage_lms.Float.{Float64, zero_f}
use mindengage_lms.Exam.Models.{
  Question, Attempt, AttemptRow, ExamRow, Responses, Db, StoreError, submitted, no_rows,
  bad_questions,
}
use mindengage_lms.Exam.Store.{find_exam, find_attempt, coalesce}
use mindengage_lms.Exam.Attempts.{Env, get_attempt, view_attempt}
use mindengage_lms.Exam.Attempts.View.{find_attempt-update_self, get_attempt-eq-ok, commit-eq-err}
use mindengage_lms.Exam.Submit.{
  manual_total, submit_row, submitted_event, submit_plan, submit_tx, submit,
}
use mindengage_lms.Exam.Submit.Graded.{AllItems, earned}
use mindengage_lms.Exam.Submit.Items.{DistinctIds}

module _ {F : Type 0} ⦃fl : Float64 F⦄ where
  submit_plan-found :
      (now : ℤ) (id : String) (db : Db F) {p : Attempt F × List (Question F)}
      → submit_plan now id db ≡ ok p
      → (r : AttemptRow F) × (e : ExamRow F) × (find_attempt id db.attempts ≡ some r)
        × (find_exam r.exam_id db.exams ≡ some e)
        × (e.questions_json ≡ some p.1)
        × (p.0 ≡ view_attempt now r)
  unfolding submit_plan view_attempt
  submit_plan-found now id db {p} h =
      let (a, g, h') = >>=-eq-ok (get_attempt now id db) _ h in
      let (e, f, h'') = >>=-eq-ok (required (find_exam a.exam_id db.exams) no_rows) _ h' in
      let (qs, q, h3) = >>=-eq-ok (required e.questions_json bad_questions) _ h'' in
      let (r, found, v) = get_attempt-eq-ok now id db g in
      let pe : (a, qs) ≡ p = ok_inj h3 in
      (
        r,
        e,
        found,
        subst (λ (x : Attempt F). find_exam x.exam_id db.exams ≡ some e) v (required-eq-ok _ _ f),
        subst (λ (x : Attempt F × List (Question F)). e.questions_json ≡ some x.1) pe
            (required-eq-ok _ _ q),
        subst (λ (x : Attempt F × List (Question F)). x.0 ≡ view_attempt now r) pe v,
      )

  -- The points that questions earn, added to a first number in the order of the exam.
  abbrev pub earned_from : Grade F → Responses F → F → List (Question F) → F
  earned_from grade responses total [] = total
  earned_from grade responses total (q ∷ qs) =
      earned_from grade responses (fl.add total (earned grade q responses)) qs

  -- What a successful Submit does to the store.
  pub record Submitted (env : Env F) (now : ℤ) (id : String) (db db' : Db F) (a : Attempt F)
      : Type 0 where
    pub row : AttemptRow F
    pub exam_row : ExamRow F
    pub questions : List (Question F)
    pub found : find_attempt id db.attempts ≡ some row
    pub exam_found : find_exam row.exam_id db.exams ≡ some exam_row
    pub graded : exam_row.questions_json ≡ some questions
    pub status : a.status ≡ submitted
    pub responses : a.responses ≡ coalesce row.responses_json []
    -- the points that the questions earn, added up, and the manual points of the items
    pub score :
        a.score
        ≡ fl.add (earned_from env.grade a.responses zero_f questions) (manual_total id db'.items)
    pub stored :
        find_attempt id db'.attempts
        ≡ some (record row {
          status = submitted;
          auto_score = earned_from env.grade a.responses zero_f questions;
          manual_score = manual_total id db'.items;
          score = a.score;
        })
    pub items : DistinctIds questions → AllItems env id a.responses questions db.items db'.items
    pub others : (j : String) → id ≢ j → find_attempt j db'.attempts ≡ find_attempt j db.attempts
    pub exams : db'.exams ≡ db.exams
    pub events : db'.events ≡ db.events ++ submitted_event now id ∷ []

  -- A call of Submit that returns an error leaves the store as it was.
  pub submit-err :
      (env : Env F) (now : ℤ) (id : String) (db : Db F) {e : StoreError}
      → (submit env now id db).0 ≡ err e
      → (submit env now id db).1 ≡ db
  unfolding submit submit_tx submit_row
  submit-err env now id db = commit-eq-err now id db _ (submit_plan now id db) λ p e.
      let (r, _, found, _, _, _) = submit_plan-found now id db e in
      (_, find_attempt-update_self id _ db.attempts (λ r. refl) found)
