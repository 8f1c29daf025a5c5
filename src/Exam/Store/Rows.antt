-- ===== src/Exam/Store/Rows.antt =====
-- The tables of internal/exam/store_sql.go: what a SELECT finds after an UPDATE or an INSERT.
use mathlib.Core.Option
use mathlib.Core.Option.{some-injective}
use mindengage_lms.Prelude.{
  String, Bool, true, false, ◌≡◌, refl, none, some, List, [], ◌∷◌, ◌++◌, str_eq, str_eq_cases,
  if◌then◌else◌, arith, subst, Bool-cases, inl, inr, ◌∙◌,
}
use mindengage_lms.Exam.Models.{AttemptRow}
use mindengage_lms.Exam.Store.{find_attempt, update_attempt}

module _ {F : Type 0} where
  -- An update that keeps the ids changes the row of its id, and no other.
  pub find_attempt-update_attempt :
      (id j : String) (f : AttemptRow F → AttemptRow F) (rows : List (AttemptRow F))
      → ((r : AttemptRow F) → (f r).id ≡ r.id)
      → find_attempt j (update_attempt id f rows)
        ≡ (if str_eq id j then Option.map f (find_attempt j rows) else find_attempt j rows)
  unfolding find_attempt update_attempt
  find_attempt-update_attempt id j f [] keep = ground arith
  find_attempt-update_attempt id j f (a ∷ rows) keep = ground (
    arith,
    keep a,
    str_eq_cases a.id id,
    str_eq_cases a.id j,
    str_eq_cases id j,
    find_attempt-update_attempt id j f rows keep,
  )

  -- The row that a SELECT finds has the id.
  pub find_attempt-id :
      (id : String) (rows : List (AttemptRow F)) {r : AttemptRow F}
      → find_attempt id rows ≡ some r
      → r.id ≡ id
  unfolding find_attempt
  find_attempt-id id [] h = cc
  find_attempt-id id (a ∷ rows) {r} h =
      ground (arith, str_eq_cases a.id id, find_attempt-id id rows {r = r})

  -- A row found before an insert is found after it.
  pub find_attempt-append :
      (id : String) (rows new : List (AttemptRow F)) {r : AttemptRow F}
      → find_attempt id rows ≡ some r
      → find_attempt id (rows ++ new) ≡ some r
  unfolding find_attempt
  find_attempt-append id [] new h = cc
  find_attempt-append id (a ∷ rows) new {r} h =
      ground (arith, find_attempt-append id rows new {r = r})

  pub find_attempt-append_none :
      (id : String) (rows new : List (AttemptRow F))
      → find_attempt id rows ≡ none
      → find_attempt id (rows ++ new) ≡ find_attempt id new
  unfolding find_attempt
  find_attempt-append_none id [] new h = refl
  find_attempt-append_none id (a ∷ rows) new h =
      ground (arith, find_attempt-append_none id rows new)

  -- A row stands among the rows of a table.
  abbrev pub AllRows : (AttemptRow F → Type 0) → List (AttemptRow F) → Type 0
  AllRows P [] = Unit
  AllRows P (r ∷ rows) = P r × AllRows P rows

  pub AllRows-update_attempt :
      (P : AttemptRow F → Type 0) (id : String) (f : AttemptRow F → AttemptRow F)
      (rows : List (AttemptRow F))
      → ((r : AttemptRow F) → P r → P (f r))
      → AllRows P rows
      → AllRows P (update_attempt id f rows)
  unfolding update_attempt
  AllRows-update_attempt P id f [] keep h = tt
  AllRows-update_attempt P id f (r ∷ rows) keep h =
      (here (str_eq r.id id), AllRows-update_attempt P id f rows keep h.1)
    where
      here : (b : Bool) → P (if b then f r else r)
      here true = keep r h.0
      here false = h.0

  pub AllRows-append :
      (P : AttemptRow F → Type 0) (rows : List (AttemptRow F)) {r : AttemptRow F}
      → AllRows P rows
      → P r
      → AllRows P (rows ++ r ∷ [])
  AllRows-append P [] h p = (p, tt)
  AllRows-append P (a ∷ rows) h p = (h.0, AllRows-append P rows h.1 p)

  pub AllRows-find_attempt :
      (P : AttemptRow F → Type 0) (id : String) (rows : List (AttemptRow F)) {r : AttemptRow F}
      → AllRows P rows
      → find_attempt id rows ≡ some r
      → P r
  unfolding find_attempt
  AllRows-find_attempt P id [] h e = cc
  AllRows-find_attempt P id (a ∷ rows) {r} h e = elim (Bool-cases (str_eq a.id id)) [
    | inl p ↦ subst P (some-injective _ _ (rw p at e)) h.0
    | inr p ↦ AllRows-find_attempt P id rows h.1 (rw p at e)
  ]

  -- A row that is there has, after an update, a row that relates to it.
  pub update_attempt-keeps :
      (P : AttemptRow F → AttemptRow F → Type 0) (id j : String) (f : AttemptRow F → AttemptRow F)
      (rows : List (AttemptRow F)) {r : AttemptRow F}
      → ((r : AttemptRow F) → (f r).id ≡ r.id)
      → find_attempt j rows ≡ some r
      → (id ≡ j → P r (f r))
      → P r r
      → (r' : AttemptRow F) × (find_attempt j (update_attempt id f rows) ≡ some r') × P r r'
  update_attempt-keeps P id j f rows {r} keep found changed same = elim (str_eq_cases id j) [
    | inl (b, e) ↦ (f r, find_attempt-update_attempt id j f rows keep ∙ rw (b, found), changed e)
    | inr (b, e) ↦ (r, find_attempt-update_attempt id j f rows keep ∙ rw b found, same)
  ]
