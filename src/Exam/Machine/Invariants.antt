-- ===== src/Exam/Machine/Invariants.antt =====
-- What holds of every attempt of a store of internal/exam/store_sql.go that calls have built.
use mindengage_lms.Prelude.{
  ℤ, pos, ◌≤ℤ◌, String, ◌≡◌, ◌≢◌, refl, sym, none, some, List, [], ◌∷◌, ◌++◌, arith, str_eq,
  str_eq_cases, inl, inr, Bool-cases,
}
use mindengage_lms.Float.{Float64}
use mindengage_lms.Exam.Models.{Exam, AttemptRow, submitted, Db, Responses}
use mindengage_lms.Exam.Store.{find_attempt, update_attempt}
use mindengage_lms.Exam.Store.Rows.{
  AllRows, AllRows-update_attempt, AllRows-append, AllRows-find_attempt,
}
use mindengage_lms.Exam.Attempts.{Env, new_row}
use mindengage_lms.Exam.Save.{with_responses}
use mindengage_lms.Exam.Navigate.{move_cursor}
use mindengage_lms.Exam.Advance.{enter_module}
use mindengage_lms.Exam.Submit.{submit_row}
use mindengage_lms.Exam.ManualGrade.{regrade_row}
use mindengage_lms.Exam.Machine.{Op, exec, run, empty_db}
use mindengage_lms.Exam.Machine.Change.{
  Edit, saved, moved, advanced, finished, graded, Change, same, added, updated, Edit-id,
  exec-Change,
}

module _ {F : Type 0} ⦃fl : Float64 F⦄ where
  pub record IsSound (r : AttemptRow F) : Type 0 where
    -- the cursor is not beyond the furthest question reached
    pub cursor : r.current_index ≤ℤ r.max_reached_index
    -- the score of a submitted attempt is the sum of its parts
    pub scored : r.status ≡ submitted → r.score ≡ fl.add r.auto_score r.manual_score
    -- the responses can be read, and the module has a start and an id
    pub readable : (m : Responses F) × (r.responses_json ≡ some m)
    pub entered : (t : ℤ) × (r.module_started_at ≡ some t)
    pub placed : (m : String) × (r.current_module_id ≡ some m)
    -- the column submitted_at has its default
    pub not_stamped : r.submitted_at ≡ pos 0

  new_row-IsSound :
      (now : ℤ) (id exam_id user_id : String) (ex : Exam F)
      → IsSound (new_row now id exam_id user_id ex)
  unfolding new_row
  new_row-IsSound now id exam_id user_id ex = record {
    cursor = omega arith;
    scored = λ h. cc;
    readable = ([], refl);
    entered = (now, refl);
    placed = (_, refl);
    not_stamped = refl;
  }

  Edit-IsSound :
      (env : Env F) (db : Db F) (id : String) (f : AttemptRow F → AttemptRow F)
      → Edit env db id f
      → (r : AttemptRow F) → IsSound r
      → IsSound (f r)
  unfolding with_responses move_cursor enter_module submit_row regrade_row
  Edit-IsSound env db id f (saved _ _ merged _) r h = record {
    cursor = h.cursor;
    scored = h.scored;
    readable = (merged, refl);
    entered = h.entered;
    placed = h.placed;
    not_stamped = h.not_stamped;
  }
  Edit-IsSound env db id f (moved _ _ _ _) r h = record {
    cursor = ground arith;
    scored = h.scored;
    readable = h.readable;
    entered = h.entered;
    placed = h.placed;
    not_stamped = h.not_stamped;
  }
  Edit-IsSound env db id f (advanced now n _) r h = record {
    cursor = omega arith;
    scored = h.scored;
    readable = h.readable;
    entered = (now, refl);
    placed = (_, refl);
    not_stamped = h.not_stamped;
  }
  Edit-IsSound env db id f (finished _ _ _) r h = record {
    cursor = h.cursor;
    scored = λ _. refl;
    readable = h.readable;
    entered = h.entered;
    placed = h.placed;
    not_stamped = h.not_stamped;
  }
  Edit-IsSound env db id f (graded _ _) r h = record {
    cursor = h.cursor;
    scored = λ _. refl;
    readable = h.readable;
    entered = h.entered;
    placed = h.placed;
    not_stamped = h.not_stamped;
  }

  Change-IsSound :
      (env : Env F) (db : Db F) {rows : List (AttemptRow F)}
      → Change env db rows
      → AllRows IsSound db.attempts
      → AllRows IsSound rows
  Change-IsSound env db same h = h
  Change-IsSound env db (added now id exam_id user_id ex _) h =
      AllRows-append IsSound db.attempts h (new_row-IsSound now id exam_id user_id ex)
  Change-IsSound env db (updated id f e) h =
      AllRows-update_attempt IsSound id f db.attempts (Edit-IsSound env db id f e) h

  run-AllRows :
      (env : Env F) (ops : List (Op F)) (db : Db F)
      → AllRows IsSound db.attempts
      → AllRows IsSound (run env ops db).attempts
  unfolding run
  run-AllRows env [] db h = h
  run-AllRows env (op ∷ ops) db h =
      run-AllRows env ops (exec env op db) (Change-IsSound env db (exec-Change env op db) h)

  -- Whatever calls have built the store, each of its attempts is sound: its cursor is not beyond
  -- the furthest question reached, a submitted attempt's score is the sum of the automatic and the
  -- manual part, its responses can be read back, its module has a start and an id, and the time of
  -- submission is still 0, also once it is submitted.
  pub run-IsSound :
      (env : Env F) (ops : List (Op F)) (id : String) {r : AttemptRow F}
      → find_attempt id (run env ops empty_db).attempts ≡ some r
      → IsSound r
  run-IsSound env ops id found =
      AllRows-find_attempt IsSound id (run env ops empty_db).attempts
        (run-AllRows env ops empty_db tt) found

-- No row of the table has the id.
abbrev pub Absent : {F : Type 0} → String → List (AttemptRow F) → Type 0
Absent id [] = Unit
Absent id (r ∷ rows) = (r.id ≢ id) × Absent id rows

-- The primary key of the table attempts.
abbrev pub UniqueIds : {F : Type 0} → List (AttemptRow F) → Type 0
UniqueIds [] = Unit
UniqueIds (r ∷ rows) = Absent r.id rows × UniqueIds rows

module _ {F : Type 0} where
  Absent-of_none :
      (id : String) (rows : List (AttemptRow F)) → find_attempt id rows ≡ none → Absent id rows
  unfolding find_attempt
  Absent-of_none id [] h = tt
  Absent-of_none id (r ∷ rows) h = elim (str_eq_cases r.id id) [
    | inl (b, e) ↦ cc (rw b at h)
    | inr (b, e) ↦ (e, Absent-of_none id rows (rw b at h))
  ]

  Absent-update :
      (j id : String) (f : AttemptRow F → AttemptRow F) (rows : List (AttemptRow F))
      → ((r : AttemptRow F) → (f r).id ≡ r.id)
      → Absent j rows
      → Absent j (update_attempt id f rows)
  unfolding update_attempt
  Absent-update j id f [] keep h = tt
  Absent-update j id f (r ∷ rows) keep h =
      (ground (arith, keep r, h.0), Absent-update j id f rows keep h.1)

  Absent-append :
      (j : String) (r : AttemptRow F) (rows : List (AttemptRow F))
      → Absent j rows
      → r.id ≢ j
      → Absent j (rows ++ r ∷ [])
  Absent-append j r [] h n = (n, tt)
  Absent-append j r (a ∷ rows) h n = (h.0, Absent-append j r rows h.1 n)

  UniqueIds-update :
      (id : String) (f : AttemptRow F → AttemptRow F) (rows : List (AttemptRow F))
      → ((r : AttemptRow F) → (f r).id ≡ r.id)
      → UniqueIds rows
      → UniqueIds (update_attempt id f rows)
  unfolding update_attempt
  UniqueIds-update id f [] keep h = tt
  UniqueIds-update id f (r ∷ rows) keep h = (
    elim (Bool-cases (str_eq r.id id)) [
      | inl b ↦ rw (b, keep r) (Absent-update r.id id f rows keep h.0)
      | inr b ↦ rw b (Absent-update r.id id f rows keep h.0)
    ],
    UniqueIds-update id f rows keep h.1,
  )

  UniqueIds-append :
      (r : AttemptRow F) (rows : List (AttemptRow F))
      → UniqueIds rows
      → Absent r.id rows
      → UniqueIds (rows ++ r ∷ [])
  UniqueIds-append r [] h n = (tt, tt)
  UniqueIds-append r (a ∷ rows) h n =
      (Absent-append a.id r rows h.0 (λ e. n.0 (sym e)), UniqueIds-append r rows h.1 n.1)

module _ {F : Type 0} ⦃fl : Float64 F⦄ where
  Change-UniqueIds :
      (env : Env F) (db : Db F) {rows : List (AttemptRow F)}
      → Change env db rows
      → UniqueIds db.attempts
      → UniqueIds rows
  unfolding new_row
  Change-UniqueIds env db same h = h
  Change-UniqueIds env db (added now id exam_id user_id ex free) h =
      UniqueIds-append _ db.attempts h (Absent-of_none id db.attempts free)
  Change-UniqueIds env db (updated id f e) h = UniqueIds-update id f db.attempts (Edit-id e) h

  run_from-UniqueIds :
      (env : Env F) (ops : List (Op F)) (db : Db F)
      → UniqueIds db.attempts
      → UniqueIds (run env ops db).attempts
  unfolding run
  run_from-UniqueIds env [] db h = h
  run_from-UniqueIds env (op ∷ ops) db h =
      run_from-UniqueIds env ops (exec env op db)
        (Change-UniqueIds env db (exec-Change env op db) h)

  -- Whatever calls have built the store, no two attempts have one id.
  pub run-UniqueIds : (env : Env F) (ops : List (Op F)) → UniqueIds (run env ops empty_db).attempts
  run-UniqueIds env ops = run_from-UniqueIds env ops empty_db tt
