-- ===== src/Gradebook/Rows.antt =====
-- pkg/lti-ags-gradebook/sqlstore/store.go: the queries of the gradebook as functions of the rows of its
-- tables. A query of one row without a match is the error of database/sql.
use mindengage_lms.Prelude.{
  ℕ, suc, ◌+◌, ℤ, ltb_ℤ, String, Bool, ◌&&◌, Option, none, some, List, [], ◌∷◌, GoMap, lookup,
  insert, Result, required, str_eq, if◌then◌else◌,
}
use mindengage_lms.Gradebook.{GradedExam, GradedAttempt, Placement, Link, BookItem}

-- The column status of grade_sync_status.
pub data SyncStatus : Type 0 where
  pending synced sync_failed : SyncStatus

-- A row of grade_sync_status, without its time; a column that is NULL is `none`.
pub record SyncRow : Type 0 where
  pub status : SyncStatus
  pub retries : ℕ
  pub last_error : Option String

-- The tables: rows by their primary keys, the links with their times of update, and the number that the
-- next line item gets.
pub record Tables (F : Type 0) : Type 0 where
  pub exams : GoMap (GradedExam F)
  pub attempts : GoMap (GradedAttempt F)
  pub links : List (Link × ℤ)
  pub line_items : List (BookItem F)
  pub next_id : ℕ
  pub user_map : List ((String × String) × String)
  pub statuses : GoMap SyncRow

abbrev pub no_rows : String
no_rows = "sql: no rows in result set"

abbrev pub same_placement : Placement → Placement → Bool
same_placement p q =
    str_eq p.issuer q.issuer
    && (str_eq p.deployment q.deployment
        && (str_eq p.context q.context && str_eq p.resource_link q.resource_link))

abbrev newer : Link × ℤ → Option (Link × ℤ) → Option (Link × ℤ)
newer l none = some l
newer l (some m) = if ltb_ℤ l.1 m.1 then some m else some l

abbrev latest : Placement → List (Link × ℤ) → Option (Link × ℤ)
latest p [] = none
latest p (l ∷ ls) =
    let rest = latest p ls in if same_placement l.0.placement p then newer l rest else rest

abbrev the_link : Option (Link × ℤ) → Option Link
the_link none = none
the_link (some l) = some l.0

abbrev find_user : String → String → List ((String × String) × String) → Option String
find_user issuer user [] = none
find_user issuer user (row ∷ rows) =
    let rest = find_user issuer user rows in
    if str_eq row.0.0 issuer && str_eq row.0.1 user then some row.1 else rest

abbrev is_row : {F : Type 0} → String → Placement → BookItem F → Bool
is_row exam_id p li = str_eq li.exam_id exam_id && same_placement li.placement p

abbrev pub find_row : {F : Type 0} → String → Placement → List (BookItem F) → Option (BookItem F)
find_row exam_id p [] = none
find_row exam_id p (li ∷ rest) =
    let later = find_row exam_id p rest in if is_row exam_id p li then some li else later

abbrev update_row : {F : Type 0} → BookItem F → List (BookItem F) → List (BookItem F)
update_row new [] = []
update_row new (li ∷ rest) =
    let later = update_row new rest in
    if is_row new.exam_id new.placement li
    then record li {
      label = new.label;
      score_max = new.score_max;
      line_item_url = new.line_item_url;
    }
      ∷ later
    else li ∷ later

-- The rows that are written, from the row that is there.
abbrev pub pending_row : Option SyncRow → SyncRow
pending_row none = record { status = pending; retries = 0; last_error = none }
pending_row (some row) = record row { status = pending }

abbrev pub failed_row : String → Option SyncRow → SyncRow
failed_row e none = record { status = sync_failed; retries = 1; last_error = some e }
failed_row e (some row) = record {
  status = sync_failed;
  retries = row.retries + 1;
  last_error = some e;
}

module _ {F : Type 0} where
  unfoldable pub get_graded_exam : String → Tables F → Result String (GradedExam F)
  unfolding lookup
  get_graded_exam id db = required (lookup id db.exams) no_rows

  unfoldable pub get_graded_attempt : String → Tables F → Result String (GradedAttempt F)
  unfolding lookup
  get_graded_attempt id db = required (lookup id db.attempts) no_rows

  unfoldable pub get_latest_link_for_context : Placement → Tables F → Result String Link
  get_latest_link_for_context p db = required (the_link (latest p db.links)) no_rows

  unfoldable pub find_line_item :
      (exam_id : String) → Placement → Tables F → Result String (BookItem F)
  find_line_item exam_id p db = required (find_row exam_id p db.line_items) no_rows

  unfoldable pub get_platform_user_id :
      (issuer local_user : String) → Tables F → Result String String
  get_platform_user_id issuer user db = required (find_user issuer user db.user_map) no_rows

  -- The item with its id, and the tables.
  unfoldable pub upsert_line_item : BookItem F → Tables F → BookItem F × Tables F
  upsert_line_item li db = elim (find_row li.exam_id li.placement db.line_items) [
    | some old ↦ (record li { id = old.id }, record db { line_items = update_row li db.line_items })
    | none ↦
        let new = record li { id = db.next_id } in
        (new, record db { line_items = new ∷ db.line_items; next_id = suc db.next_id })
  ]

  abbrev pub set_status : String → SyncRow → Tables F → Tables F
  set_status id row db = record db { statuses = insert id row db.statuses }

  -- The row that is there is updated; where there is none, nothing is.
  abbrev pub set_synced : String → Option SyncRow → Tables F → Tables F
  set_synced id none db = db
  set_synced id (some row) db = set_status id (record row { status = synced; last_error = none }) db

  unfoldable pub mark_sync_pending : String → Tables F → Tables F
  mark_sync_pending id db = set_status id (pending_row (lookup id db.statuses)) db

  unfoldable pub mark_sync_ok : String → Tables F → Tables F
  mark_sync_ok id db = set_synced id (lookup id db.statuses) db

  unfoldable pub mark_sync_failed : String → (last_error : String) → Tables F → Tables F
  mark_sync_failed id e db = set_status id (failed_row e (lookup id db.statuses)) db
