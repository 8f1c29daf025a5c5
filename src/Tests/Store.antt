-- ===== src/Tests/Store.antt =====
-- internal/exam/store_sql.go: runs of the store, and its theorems at them.
use mindengage_lms.Prelude.{
  ℕ, pos, String, ◌≡◌, ◌≢◌, refl, ◌↔◌, some, List, [], ◌∷◌, ok, insert_all, str_eq, str_eq_refl,
  false, ◌++◌,
}
use mindengage_lms.Exam.Models.{Attempt, Db, index_out_of_range, time_over, already_at_last_module}
use mindengage_lms.Exam.Store.{coalesce, get_exam_admin}
use mindengage_lms.Exam.Attempts.{view_attempt}
use mindengage_lms.Exam.Exams.{put_exam, get_exam}
use mindengage_lms.Exam.Exams.Laws.{rekey_all, get_exam-rekey, get_exam_admin-put_exam}
use mindengage_lms.Exam.Save.{save_plan, save_responses}
use mindengage_lms.Exam.Save.Guards.{MayEdit, save_plan_iff}
use mindengage_lms.Exam.Save.Effect.{Saved, save_responses-ok}
use mindengage_lms.Exam.Navigate.{navigate}
use mindengage_lms.Exam.Navigate.Effect.{Moved, navigate-ok}
use mindengage_lms.Exam.Submit.{submit, submitted_event}
use mindengage_lms.Exam.Submit.Again.{submit_again}
use mindengage_lms.Exam.Advance.{advance_module}
use mindengage_lms.Exam.Advance.Effect.{advance_module-err}
use mindengage_lms.Exam.Machine.{Op, put, start, save, finish, exec, run, empty_db}
use mindengage_lms.Exam.Machine.Failing.{error_of, exec-Untouched}
use mindengage_lms.Exam.Machine.Frozen.{run-Frozen, Keeps}
use mindengage_lms.Exam.Machine.Invariants.{IsSound, run-IsSound, UniqueIds, run-UniqueIds}
use mindengage_lms.Tests.Setup.{
  env, exam, questions, answers, begun, ended, begun_row, ended_row, thousandths, store_code,
}

run-Frozen_example :
    Keeps "a1" ended_row (run env (save (pos 1200) "a1" answers ∷ []) ended).attempts
unfolding store_code
run-Frozen_example = run-Frozen env (save (pos 1200) "a1" answers ∷ []) "a1" ended refl refl

abbrev history : List (Op ℕ)
history = put (pos 1000) exam ∷ start (pos 1000) "a1" "e1" "u1" ∷ finish (pos 1100) "a1" ∷ []

run-IsSound_example : IsSound ended_row
unfolding store_code
run-IsSound_example = run-IsSound env history "a1" refl

run-UniqueIds_example : UniqueIds (run env history empty_db).attempts
run-UniqueIds_example = run-UniqueIds env history

save_plan_iff_example :
    (save_plan (pos 1010) "a1" answers begun
      ≡ ok (insert_all answers (coalesce begun_row.responses_json [])))
    ↔ MayEdit (pos 1010) begun_row (record exam { created_at = pos 1000 }) answers
unfolding store_code
save_plan_iff_example = save_plan_iff (pos 1010) "a1" answers begun refl refl

abbrev saved_view : Attempt ℕ
saved_view = view_attempt (pos 1010) (record begun_row { responses_json = some answers })

save_responses-ok_example :
    Saved (pos 1010) "a1" answers begun (save_responses (pos 1010) "a1" answers begun).1 saved_view
unfolding store_code
save_responses-ok_example = save_responses-ok (pos 1010) "a1" answers begun (refl, tt) refl

exec-Untouched_example : exec env (save (pos 5000) "a1" answers) begun ≡ begun
unfolding exec error_of store_code
exec-Untouched_example =
    exec-Untouched env (save (pos 5000) "a1" answers) begun {e = time_over} refl

navigate-ok_example :
    Moved (pos 1010) "a1" (pos 1) begun (navigate (pos 1010) "a1" (pos 1) begun).1 (
      view_attempt
        (pos 1010)
        (record begun_row { current_index = pos 1; max_reached_index = pos 1 }))
unfolding store_code
navigate-ok_example = navigate-ok (pos 1010) "a1" (pos 1) begun refl

different : (s t : String) → str_eq s t ≡ false → s ≢ t
different s t h p = cc (str_eq_refl s, h)

submit_again_example :
    let db' = (submit env (pos 1100) "a1" begun).1 in
    (submit env (pos 1300) "a1" db').1
    ≡ record db' { events = db'.events ++ submitted_event (pos 1300) "a1" ∷ [] }
unfolding store_code
submit_again_example = submit_again env (pos 1100) (pos 1300) "a1" begun refl refl refl (
  (different "q1" "q2" refl, (different "q1" "q3" refl, tt)),
  ((different "q2" "q3" refl, tt), (tt, tt)),
)

abbrev at_end : Db ℕ
at_end = (advance_module env (pos 1500) "a1" begun).1

advance_module-err_example :
    ((advance_module env (pos 1600) "a1" at_end).1 ≡ at_end)
    × (already_at_last_module ≢ index_out_of_range)
unfolding store_code
advance_module-err_example = advance_module-err env (pos 1600) "a1" at_end refl

get_exam-rekey_example :
    get_exam "e1"
      (put_exam (pos 1) (record exam { questions = rekey_all (λ q. []) questions }) begun)
    ≡ get_exam "e1" (put_exam (pos 1) exam begun)
get_exam-rekey_example = get_exam-rekey (pos 1) (λ q. []) exam begun "e1"

get_exam_admin-put_exam_example :
    get_exam_admin "e1" (put_exam (pos 9) exam begun)
    ≡ ok (record exam { time_limit_sec = pos 0; created_at = pos 1000 })
unfolding store_code
get_exam_admin-put_exam_example = get_exam_admin-put_exam (pos 9) exam begun
