-- ===== src/Exam/Machine/Frozen.antt =====
-- A submitted attempt under any further calls of the store of internal/exam/store_sql.go.
use mindengage_lms.Prelude.{String, ◌≡◌, refl, ◌∙◌, ap, some, List, [], ◌∷◌, arith}
use mindengage_lms.Float.{Float64}
use mindengage_lms.Exam.Models.{AttemptRow, submitted, Db}
use mindengage_lms.Exam.Store.{find_attempt}
use mindengage_lms.Exam.Store.Rows.{find_attempt-append, update_attempt-keeps}
use mindengage_lms.Exam.Attempts.{Env}
use mindengage_lms.Exam.Save.{with_responses}
use mindengage_lms.Exam.Save.Effect.{save_plan-open}
use mindengage_lms.Exam.Navigate.{move_cursor}
use mindengage_lms.Exam.Advance.{enter_module}
use mindengage_lms.Exam.Submit.{submit_row}
use mindengage_lms.Exam.ManualGrade.{regrade_row}
use mindengage_lms.Exam.Machine.{Op, exec, run}
use mindengage_lms.Exam.Machine.Change.{
  Edit, saved, moved, advanced, finished, graded, Change, same, added, updated, Edit-id,
  exec-Change,
}

-- What a submitted attempt keeps: it stays submitted, with its responses, its owner and its exam.
pub record Frozen {F : Type 0} (r r' : AttemptRow F) : Type 0 where
  pub status : r'.status ≡ submitted
  pub responses : r'.responses_json ≡ r.responses_json
  pub owner : r'.user_id ≡ r.user_id
  pub exam : r'.exam_id ≡ r.exam_id
  pub started : r'.started_at ≡ r.started_at

-- The attempt `id` is in the table, submitted, and has kept what `r` had.
abbrev pub Keeps : {F : Type 0} → String → AttemptRow F → List (AttemptRow F) → Type 0
Keeps {F} id r rows = (r' : AttemptRow F) × (find_attempt id rows ≡ some r') × Frozen r r'

module _ {F : Type 0} ⦃fl : Float64 F⦄ (env : Env F) where
  -- An edit of a submitted row keeps it frozen: SaveResponses does not get that far.
  Edit-Frozen :
      (db : Db F) (id : String) (f : AttemptRow F → AttemptRow F) (r r' : AttemptRow F)
      → Edit env db id f
      → find_attempt id db.attempts ≡ some r'
      → Frozen r r'
      → Frozen r (f r')
  unfolding with_responses move_cursor enter_module submit_row regrade_row
  Edit-Frozen db id f r r' (saved now resp merged p) found h =
      let (r'', found', still_open) = save_plan-open now id resp db p in
      cc (still_open, h.status, found, found')
  Edit-Frozen db id f r r' (moved _ _ _ _) found h = ground arith
  Edit-Frozen db id f r r' (advanced _ _ _) found h = ground arith
  Edit-Frozen db id f r r' (finished _ _ _) found h = ground arith
  Edit-Frozen db id f r r' (graded _ _) found h = ground arith

  Change-Keeps :
      (j : String) (r : AttemptRow F) (db : Db F) {rows : List (AttemptRow F)}
      → Change env db rows
      → Keeps j r db.attempts
      → Keeps j r rows
  Change-Keeps j r db same h = h
  Change-Keeps j r db (added _ _ _ _ _ _) (r', found, h) =
      (r', find_attempt-append j db.attempts _ found, h)
  Change-Keeps j r db (updated id f e) (r', found, h) =
      let (r'', found', step) =
        update_attempt-keeps (λ a b. Frozen r a → Frozen r b) id j f db.attempts (Edit-id e) found
          (λ p. Edit-Frozen db id f r r' e (ap (λ k. find_attempt k db.attempts) p ∙ found))
          (λ h. h) in
      (r'', found', step h)

  -- Once an attempt is submitted no sequence of calls removes it, reopens it, or changes its
  -- responses, its owner, its exam or its start.
  pub run-Frozen :
      (ops : List (Op F)) (id : String) (db : Db F) {r : AttemptRow F}
      → find_attempt id db.attempts ≡ some r
      → r.status ≡ submitted
      → Keeps id r (run env ops db).attempts
  unfolding run
  run-Frozen ops id db {r} found s =
      go ops db (
        r,
        found,
        record { status = s; responses = refl; owner = refl; exam = refl; started = refl },
      )
    where
      go :
          (ops : List (Op F)) (db : Db F)
          → Keeps id r db.attempts
          → Keeps id r (run env ops db).attempts
      go [] db h = h
      go (op ∷ ops) db h = go ops (exec env op db) (Change-Keeps id r db (exec-Change env op db) h)
