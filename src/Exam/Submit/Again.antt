-- ===== src/Exam/Submit/Again.antt =====
-- Submit of internal/exam/store_sql.go, called again on a submitted attempt.
use mindengage_lms.Prelude.{ℤ, String, ◌≡◌, refl, ap, ◌∙◌, some, List, [], ◌∷◌, ◌++◌, arith, ok}
use mindengage_lms.Float.{Float64, zero_f}
use mindengage_lms.Exam.Models.{Question, AttemptRow, ExamRow, Db, Responses}
use mindengage_lms.Exam.Store.{find_exam, find_attempt, update_attempt, coalesce}
use mindengage_lms.Exam.Attempts.{Env, commit, get_attempt, view_attempt}
use mindengage_lms.Exam.Attempts.View.{find_attempt-update_self}
use mindengage_lms.Exam.Submit.{
  grade_questions, manual_total, submit_row, submitted_event, submit_plan, submit_tx, submit,
}
use mindengage_lms.Exam.Submit.Items.{DistinctIds, grade_questions_idem}

module _ {F : Type 0} where
  update_attempt_absorbs :
      (id : String) (f g : AttemptRow F → AttemptRow F) (rows : List (AttemptRow F))
      → ((r : AttemptRow F) → (f r).id ≡ r.id)
      → ((r : AttemptRow F) → g (f r) ≡ f r)
      → update_attempt id g (update_attempt id f rows) ≡ update_attempt id f rows
  unfolding update_attempt
  update_attempt_absorbs id f g [] keep absorbs = refl
  update_attempt_absorbs id f g (r ∷ rows) keep absorbs =
      ground (arith, keep r, absorbs r, update_attempt_absorbs id f g rows keep absorbs)

  submit_plan-eq :
      (now : ℤ) (id : String) (db : Db F) {r : AttemptRow F} {e : ExamRow F}
      {qs : List (Question F)}
      → find_attempt id db.attempts ≡ some r
      → find_exam r.exam_id db.exams ≡ some e
      → e.questions_json ≡ some qs
      → submit_plan now id db ≡ ok (view_attempt now r, qs)
  unfolding submit_plan get_attempt view_attempt
  submit_plan-eq now id db p q s = rw (p, q, s)

module _ {F : Type 0} ⦃fl : Float64 F⦄ (env : Env F) where
  submit-eq :
      (now : ℤ) (id : String) (db : Db F) {r : AttemptRow F} {e : ExamRow F}
      {qs : List (Question F)}
      → find_attempt id db.attempts ≡ some r
      → find_exam r.exam_id db.exams ≡ some e
      → e.questions_json ≡ some qs
      → (submit env now id db).1 ≡ submit_tx env now id (coalesce r.responses_json []) qs db
  unfolding submit commit view_attempt
  submit-eq now id db p q s = rw (submit_plan-eq now id db p q s, commit)

  submit_tx_again :
      (now now' : ℤ) (id : String) (responses : Responses F) (qs : List (Question F)) (db : Db F)
      → DistinctIds qs
      → let db' = submit_tx env now id responses qs db in
        submit_tx env now' id responses qs db'
        ≡ record db' { events = db'.events ++ submitted_event now' id ∷ [] }
  unfolding submit_tx submit_row
  submit_tx_again now now' id responses qs db d =
      let graded = grade_questions env id responses qs zero_f db.items in
      let again : grade_questions env id responses qs zero_f graded.1 ≡ graded =
        grade_questions_idem env id responses qs zero_f db.items d in
      let f = submit_row now graded.0 (manual_total id graded.1) in
      let g = submit_row now' graded.0 (manual_total id graded.1) in
      rw again (
        ap
          (λ rows. record db {
            items = graded.1;
            attempts = rows;
            events = (db.events ++ submitted_event now id ∷ []) ++ submitted_event now' id ∷ [];
          })
          (update_attempt_absorbs id f g db.attempts (λ r. refl) (λ r. refl)))

  -- Submitting an attempt again, at any later time, changes nothing in the store but for a second
  -- event. The attempt and its exam are there, and the questions of the exam have distinct ids.
  pub submit_again :
      (now now' : ℤ) (id : String) (db : Db F) {r : AttemptRow F} {e : ExamRow F}
      {qs : List (Question F)}
      → find_attempt id db.attempts ≡ some r
      → find_exam r.exam_id db.exams ≡ some e
      → e.questions_json ≡ some qs
      → DistinctIds qs
      → let db' = (submit env now id db).1 in
        (submit env now' id db').1
        ≡ record db' { events = db'.events ++ submitted_event now' id ∷ [] }
  unfolding submit_tx submit_row
  submit_again now now' id db {r} {e} {qs} p q s d =
      let db' = submit_tx env now id (coalesce r.responses_json []) qs db in
      let stored = find_attempt-update_self id _ db.attempts (λ r. refl) p in
      rw (submit-eq now id db p q s) (
        submit-eq now' id db' stored q s
        ∙ submit_tx_again now now' id (coalesce r.responses_json []) qs db d)
