-- ===== src/Gradebook/Sync.antt =====
-- pkg/lti-ags-gradebook/gradebook/syncer.go: the transfer of an attempt's score.
use Prim.Native.String.{◌++◌ as ◌<>◌}
use mindengage_lms.Prelude.{
  ℤ, String, ◌&&◌, Option, none, some, List, [], ◌∷◌, Result, ok, err, str_eq, if◌then◌else◌,
}
use mindengage_lms.Strings.{is_empty}
use mindengage_lms.Gradebook.{
  GradedExam, GradedAttempt, Placement, Link, BookItem, RemoteItem, SyncScore, AgsClient,
}
use mindengage_lms.Gradebook.Rows.{
  Tables, get_graded_exam, get_graded_attempt, get_latest_link_for_context, find_line_item,
  get_platform_user_id, upsert_line_item, mark_sync_pending, mark_sync_ok, mark_sync_failed,
}

abbrev pub placement_of : {F : Type 0} → GradedAttempt F → Placement
placement_of at = record {
  issuer = at.platform_issuer;
  deployment = at.deployment_id;
  context = at.context_id;
  resource_link = at.resource_link_id;
}

abbrev pub keep_usable : {F : Type 0} → Result String (BookItem F) → Option (BookItem F)
keep_usable (err e) = none
keep_usable (ok li) = if is_empty li.line_item_url then none else some li

-- The first item of the platform for the exam and the resource link.
abbrev matching :
    {F : Type 0} → (exam_id link : String) → List (RemoteItem F) → Option (RemoteItem F)
matching exam_id link [] = none
matching exam_id link (it ∷ rest) =
    let later = matching exam_id link rest in
    if str_eq it.resource_id exam_id && str_eq it.resource_link_id link then some it else later

abbrev pub matching_of :
    {F : Type 0}
    → (exam_id link : String) → Result String (List (RemoteItem F))
    → Option (RemoteItem F)
matching_of exam_id link (err e) = none
matching_of exam_id link (ok its) = matching exam_id link its

module _ {F R : Type 0} (client : AgsClient F R) where
  -- The row for an item of the platform; its id is given by the table.
  unfoldable pub book_item : GradedAttempt F → GradedExam F → RemoteItem F → BookItem F
  book_item at ex it = record {
    id = 0;
    exam_id = ex.id;
    placement = placement_of at;
    label = it.label;
    score_max = it.score_maximum;
    line_item_url = it.id;
  }

  unfoldable pub remember :
      GradedAttempt F
      → GradedExam F
      → RemoteItem F
      → Tables F
      → R
      → Result String (BookItem F) × Tables F × R
  remember at ex it db q =
      let (li, db') = upsert_line_item (book_item at ex it) db in (ok li, db', q)

  -- The item at the platform, found or created.
  unfoldable pub remote_line_item :
      GradedAttempt F
      → Link
      → GradedExam F
      → Tables F
      → R
      → Result String (BookItem F) × Tables F × R
  remote_line_item at link ex db q =
      let (listed, q1) =
        client.list_remote_items link.line_items_url
          (("resource_id", ex.id) ∷ ("resource_link_id", at.resource_link_id) ∷ []) q in
      elim (matching_of ex.id at.resource_link_id listed) [
        | some it ↦ remember at ex it db q1
        | none ↦
            let (made, q2) =
              client.create_remote_item link.line_items_url
                (record {
                  label = ex.title;
                  score_maximum = ex.max_pts;
                  resource_id = ex.id;
                  resource_link_id = at.resource_link_id;
                })
                q1 in
            elim made [
              | err e ↦ (err ("create line item: " <> e), db, q2)
              | ok created ↦ remember at ex created db q2
            ]
      ]

  unfoldable pub ensure_line_item :
      GradedAttempt F → Tables F → R → Result String (BookItem F) × Tables F × R
  ensure_line_item at db q = elim (keep_usable (find_line_item at.exam_id (placement_of at) db)) [
    | some li ↦ (ok li, db, q)
    | none ↦ elim (get_latest_link_for_context (placement_of at) db) [
      | err e ↦ (err ("no LTI link context: " <> e), db, q)
      | ok link ↦
          if is_empty link.line_items_url
          then (err "missing lineitems_url", db, q)
          else elim (get_graded_exam at.exam_id db) [
            | err e ↦ (err ("exam: " <> e), db, q)
            | ok ex ↦ remote_line_item at link ex db q
          ]
    ]
  ]

  abbrev pub Outcome : Type 0
  Outcome = Result String (Unit {0}) × Tables F × R

  -- A transfer that failed: the message of its row and its error.
  abbrev pub fail : GradedAttempt F → (last_error error : String) → Tables F → R → Outcome
  fail at last_error error db q = (err error, mark_sync_failed at.id last_error db, q)

  abbrev pub user_or_empty : Result String String → String
  user_or_empty (err e) = ""
  user_or_empty (ok u) = u

  -- The score that is sent, at the time of s.Now.
  unfoldable pub score_to_send : ℤ → GradedAttempt F → GradedExam F → (user : String) → SyncScore F
  score_to_send now at ex user = record {
    user_id = user;
    activity_progress = "Completed";
    grading_progress = "FullyGraded";
    score_given = at.score;
    score_maximum = ex.max_pts;
    timestamp = now;
  }

  -- What follows once the line item is known.
  unfoldable pub send_attempt : ℤ → GradedAttempt F → BookItem F → Tables F → R → Outcome
  send_attempt now at li db q =
      let user = user_or_empty (get_platform_user_id at.platform_issuer at.user_id db) in
      if is_empty user
      then fail at "no platform user mapping" ("no platform user mapping for " <> at.user_id) db q
      else elim (get_graded_exam at.exam_id db) [
        | err e ↦ fail at e e db q
        | ok ex ↦
            let (sent, q') = client.send_score li.line_item_url (score_to_send now at ex user) q in
            elim sent [ err e ↦ fail at e e db q' | ok _ ↦ (ok tt, mark_sync_ok at.id db, q') ]
      ]

  unfoldable pub sync_attempt : ℤ → (attempt_id : String) → Tables F → R → Outcome
  sync_attempt now attempt_id db q = elim (get_graded_attempt attempt_id db) [
    | err e ↦ (err e, db, q)
    | ok at ↦ elim at.submitted_at [
      | none ↦ (err "attempt not submitted", db, q)
      | some t ↦
          let (item, db', q') = ensure_line_item at (mark_sync_pending at.id db) q in
          elim item [ err e ↦ fail at e e db' q' | ok li ↦ send_attempt now at li db' q' ]
    ]
  ]
