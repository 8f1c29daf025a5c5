-- ===== src/Exam/Attempts/View.antt =====
-- GetAttempt of internal/exam/store_sql.go after an update of the attempt's row.
use mindengage_lms.Prelude.{
  ℤ, String, ◌≡◌, some, List, Result, ok, err, refl, arith, str_eq_refl, ◌≢◌, str_eq_cases,
  >>=-eq-ok, required-eq-ok, required,
}
use mindengage_lms.Exam.Models.{Attempt, AttemptRow, Db, StoreError, attempt_not_found}
use mindengage_lms.Exam.Store.{find_attempt, update_attempt}
use mindengage_lms.Exam.Store.Rows.{find_attempt-update_attempt}
use mindengage_lms.Exam.Attempts.{commit, view_attempt, get_attempt}

module _ {F : Type 0} (id : String) (f : AttemptRow F → AttemptRow F) (rows : List (AttemptRow F))
    (keep : (r : AttemptRow F) → (f r).id ≡ r.id) where
  pub find_attempt-update_self :
      {r : AttemptRow F}
      → find_attempt id rows ≡ some r
      → find_attempt id (update_attempt id f rows) ≡ some (f r)
  find_attempt-update_self h =
      ground (arith, find_attempt-update_attempt id id f rows keep, str_eq_refl id)

  pub find_attempt-update_ne :
      (j : String) → id ≢ j → find_attempt j (update_attempt id f rows) ≡ find_attempt j rows
  find_attempt-update_ne j h =
      ground (arith, find_attempt-update_attempt id j f rows keep, str_eq_cases id j)

module _ {F : Type 0} where
  pub get_attempt-found :
      (now : ℤ) (id : String) (db : Db F) {r : AttemptRow F}
      → find_attempt id db.attempts ≡ some r
      → get_attempt now id db ≡ ok (view_attempt now r)
  unfolding get_attempt
  get_attempt-found now id db h = rw h

  pub get_attempt-eq-ok :
      (now : ℤ) (id : String) (db : Db F) {a : Attempt F}
      → get_attempt now id db ≡ ok a
      → (r : AttemptRow F) × (find_attempt id db.attempts ≡ some r) × (a ≡ view_attempt now r)
  unfolding get_attempt
  get_attempt-eq-ok now id db h =
      let (r, p, q) = >>=-eq-ok (required (find_attempt id db.attempts) attempt_not_found) _ h in
      (r, required-eq-ok _ _ p, cc)

module _ {F : Type 0} {A : Type 0} (now : ℤ) (id : String) (db : Db F) (write : A → Db F)
    (plan : Result StoreError A) where
  -- An operation that returns an attempt has written its plan.
  pub commit-eq-ok :
      {a : Attempt F}
      → (commit now id db write plan).0 ≡ ok a
      → (m : A) × (plan ≡ ok m)
        × (get_attempt now id (write m) ≡ ok a)
        × ((commit now id db write plan).1 ≡ write m)
  unfolding commit
  commit-eq-ok = go plan
    where
      go :
          (p : Result StoreError A) {a : Attempt F}
          → (commit now id db write p).0 ≡ ok a
          → (m : A) × (p ≡ ok m)
            × (get_attempt now id (write m) ≡ ok a)
            × ((commit now id db write p).1 ≡ write m)
      go (ok m) h = (m, refl, h, refl)
      go (err e) h = cc

  -- An operation that returns an error has written nothing, where what it writes has the attempt.
  pub commit-eq-err :
      {e : StoreError}
      → ((m : A) → plan ≡ ok m → (r : AttemptRow F) × (find_attempt id (write m).attempts ≡ some r))
      → (commit now id db write plan).0 ≡ err e
      → (commit now id db write plan).1 ≡ db
  unfolding commit
  commit-eq-err = go plan
    where
      go :
          (p : Result StoreError A) {e : StoreError}
          → ((m : A)
              → p ≡ ok m
              → (r : AttemptRow F) × (find_attempt id (write m).attempts ≡ some r))
          → (commit now id db write p).0 ≡ err e
          → (commit now id db write p).1 ≡ db
      go (err e) found h = refl
      go (ok m) found h = let (r, f) = found m refl in cc (get_attempt-found now id (write m) f)

  -- The error is then the plan's.
  pub commit-plan_err :
      {e : StoreError}
      → ((m : A) → plan ≡ ok m → (r : AttemptRow F) × (find_attempt id (write m).attempts ≡ some r))
      → (commit now id db write plan).0 ≡ err e
      → plan ≡ err e
  unfolding commit
  commit-plan_err = go plan
    where
      go :
          (p : Result StoreError A) {e : StoreError}
          → ((m : A)
              → p ≡ ok m
              → (r : AttemptRow F) × (find_attempt id (write m).attempts ≡ some r))
          → (commit now id db write p).0 ≡ err e
          → p ≡ err e
      go (err e) found h = cc
      go (ok m) found h = let (r, f) = found m refl in cc (get_attempt-found now id (write m) f)

  -- What holds of the store before, and of what a plan writes, holds after.
  pub commit_induction :
      (Q : Db F → Type 0)
      → Q db
      → ((m : A) → plan ≡ ok m → Q (write m))
      → Q (commit now id db write plan).1
  unfolding commit
  commit_induction Q base step = go plan step
    where
      go :
          (p : Result StoreError A)
          → ((m : A) → p ≡ ok m → Q (write m))
          → Q (commit now id db write p).1
      go (ok m) k = k m refl
      go (err e) k = base
