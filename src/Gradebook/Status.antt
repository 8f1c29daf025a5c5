-- ===== src/Gradebook/Status.antt =====
-- pkg/lti-ags-gradebook: the status of a transfer, as the table has it, against its outcome.
use mindengage_lms.Prelude.{
  ℕ, ◌+◌, ℤ, String, ◌≡◌, refl, ap, ◌∙◌, ◌⊎◌, inl, inr, Option, none, some, [], ◌∷◌, GoMap, lookup,
  insert, lookup-insert, str_eq_refl, Result, ok, err, Result-cases, Option-cases, Bool-cases,
  run_cases,
}
use mindengage_lms.Strings.{is_empty}
use mindengage_lms.Gradebook.{
  GradedExam, GradedAttempt, Link, BookItem, RemoteItem, ItemRequest, AgsClient,
}
use mindengage_lms.Gradebook.Rows.{
  synced, sync_failed, SyncRow, pending_row, failed_row, set_synced, Tables, find_row,
  get_graded_exam, get_graded_attempt, get_latest_link_for_context, find_line_item,
  get_platform_user_id, upsert_line_item, mark_sync_pending, mark_sync_ok, mark_sync_failed,
}
use mindengage_lms.Gradebook.Sync.{
  placement_of, keep_usable, matching_of, book_item, remember, remote_line_item, ensure_line_item,
  user_or_empty, score_to_send, send_attempt, sync_attempt,
}

abbrev pub retries_of : Option SyncRow → ℕ
retries_of none = 0
retries_of (some row) = row.retries

lookup_here :
    (id : String) (row : SyncRow) (m : GoMap SyncRow) → lookup id (insert id row m) ≡ some row
lookup_here id row m = lookup-insert id id row m ∙ rw (str_eq_refl id) refl

retries-pending_row : (o : Option SyncRow) → (pending_row o).retries ≡ retries_of o
retries-pending_row none = refl
retries-pending_row (some row) = refl

module _ {F : Type 0} where
  -- The attempt has a row with so many failures.
  abbrev HasRow : String → ℕ → Tables F → Type 0
  HasRow id r db = (row : SyncRow) × (lookup id db.statuses ≡ some row) × (row.retries ≡ r)

  mark_sync_pending-HasRow :
      (id : String) (db : Tables F)
      → HasRow id (retries_of (lookup id db.statuses)) (mark_sync_pending id db)
  unfolding mark_sync_pending
  mark_sync_pending-HasRow id db = (
    pending_row (lookup id db.statuses),
    lookup_here id (pending_row (lookup id db.statuses)) db.statuses,
    retries-pending_row (lookup id db.statuses),
  )

  mark_sync_ok_lem :
      (id : String) (r : ℕ) (db : Tables F)
      → HasRow id r db
      → lookup id (mark_sync_ok id db).statuses
        ≡ some (record { status = synced; retries = r; last_error = none })
  unfolding mark_sync_ok
  mark_sync_ok_lem id r db (row, e, n) =
      ap (λ o. lookup id (set_synced id o db).statuses) e
      ∙ lookup_here id (record row { status = synced; last_error = none }) db.statuses
      ∙ ap (λ k. some (record { status = synced; retries = k; last_error = none })) n

  mark_sync_failed_lem :
      (id e : String) (r : ℕ) (db : Tables F)
      → HasRow id r db
      → lookup id (mark_sync_failed id e db).statuses
        ≡ some (record { status = sync_failed; retries = r + 1; last_error = some e })
  unfolding mark_sync_failed
  mark_sync_failed_lem id e r db (row, p, n) =
      lookup_here id (failed_row e (lookup id db.statuses)) db.statuses
      ∙ ap (λ o. some (failed_row e o)) p
      ∙ ap (λ k. some (record { status = sync_failed; retries = k + 1; last_error = some e })) n

  upsert_line_item-statuses :
      (li : BookItem F) (db : Tables F) → (upsert_line_item li db).1.statuses ≡ db.statuses
  unfolding upsert_line_item
  upsert_line_item-statuses li db =
      elim (Option-cases (find_row li.exam_id li.placement db.line_items)) [
        | inl e ↦ rw (upsert_line_item, e) refl
        | inr (old, e) ↦ rw (upsert_line_item, e) refl
      ]

module _ {F R : Type 0} (client : AgsClient F R) where
  remember-statuses :
      (at : GradedAttempt F) (ex : GradedExam F) (it : RemoteItem F) (db : Tables F) (q : R)
      → (remember client at ex it db q).1.statuses ≡ db.statuses
  unfolding remember
  remember-statuses at ex it db q = upsert_line_item-statuses (book_item client at ex it) db

  remote_line_item-statuses :
      (at : GradedAttempt F) (link : Link) (ex : GradedExam F) (db : Tables F) (q : R)
      → (remote_line_item client at link ex db q).1.statuses ≡ db.statuses
  unfolding remote_line_item
  remote_line_item-statuses at link ex db q =
      let listed =
        client.list_remote_items link.line_items_url
          (("resource_id", ex.id) ∷ ("resource_link_id", at.resource_link_id) ∷ []) q in
      let request : ItemRequest F = record {
        label = ex.title;
        score_maximum = ex.max_pts;
        resource_id = ex.id;
        resource_link_id = at.resource_link_id;
      } in
      elim (Option-cases (matching_of ex.id at.resource_link_id listed.0)) [
        | inr (it, m) ↦ rw (remote_line_item, m) (remember-statuses at ex it db listed.1)
        | inl m ↦
            elim (run_cases (client.create_remote_item link.line_items_url request listed.1)) [
              | inr (e, q2, k) ↦ rw (remote_line_item, m, k) refl
              | inl (made, q2, k) ↦
                  rw (remote_line_item, m, k, k) (remember-statuses at ex made db q2)
            ]
      ]

  ensure_line_item-statuses :
      (at : GradedAttempt F) (db : Tables F) (q : R)
      → (ensure_line_item client at db q).1.statuses ≡ db.statuses
  unfolding ensure_line_item
  ensure_line_item-statuses at db q =
      elim (Option-cases (keep_usable (find_line_item at.exam_id (placement_of at) db))) [
        | inr (li, k) ↦ rw (ensure_line_item, k) refl
        | inl k ↦ elim (Result-cases (get_latest_link_for_context (placement_of at) db)) [
          | inr (e, l) ↦ rw (ensure_line_item, k, l) refl
          | inl (link, l) ↦ elim (Bool-cases (is_empty link.line_items_url)) [
            | inl b ↦ rw (ensure_line_item, k, l, b) refl
            | inr b ↦ elim (Result-cases (get_graded_exam at.exam_id db)) [
              | inr (e, x) ↦ rw (ensure_line_item, k, l, b, x) refl
              | inl (ex, x) ↦
                  rw (ensure_line_item, k, l, b, x) (remote_line_item-statuses at link ex db q)
            ]
          ]
        ]
      ]

  -- The row of a transfer that ended, after so many failures before it.
  abbrev pub Ended : String → ℕ → Result String (Unit {0}) × Tables F × R → Type 0
  Ended id r out =
      ((out.0 ≡ ok tt)
        × (lookup id out.1.statuses
            ≡ some (record { status = synced; retries = r; last_error = none })))
      ⊎ ((e : String) × (m : String) × (out.0 ≡ err e)
          × (lookup id out.1.statuses
              ≡ some (record { status = sync_failed; retries = r + 1; last_error = some m })))

  send_attempt-Ended :
      (now : ℤ) (at : GradedAttempt F) (li : BookItem F) (db : Tables F) (q : R) (r : ℕ)
      → HasRow at.id r db
      → Ended at.id r (send_attempt client now at li db q)
  unfolding send_attempt
  send_attempt-Ended now at li db q r row =
      let user = user_or_empty client (get_platform_user_id at.platform_issuer at.user_id db) in
      elim (Bool-cases (is_empty user)) [
        | inl u ↦
            rw (send_attempt, u)
              (inr (
                _,
                "no platform user mapping",
                refl,
                mark_sync_failed_lem at.id "no platform user mapping" r db row,
              ))
        | inr u ↦ elim (Result-cases (get_graded_exam at.exam_id db)) [
          | inr (e, x) ↦
              rw (send_attempt, u, x) (inr (e, e, refl, mark_sync_failed_lem at.id e r db row))
          | inl (ex, x) ↦
              elim (run_cases
                (client.send_score li.line_item_url (score_to_send client now at ex user) q)) [
                  | inr (e, q', p) ↦
                      rw (send_attempt, u, x, p)
                        (inr (e, e, refl, mark_sync_failed_lem at.id e r db row))
                  | inl (_, q', p) ↦
                      rw (send_attempt, u, x, p) (inl (refl, mark_sync_ok_lem at.id r db row))
                ]
        ]
      ]

  -- The transfer of a submitted attempt leaves its status in the table as it ended: if it succeeds,
  -- the row says so, has no error, and has as many failures as before; if it fails, wherever it does,
  -- the row says so, has an error and one failure more.
  pub sync_attempt-Ended :
      (now t : ℤ) (attempt_id : String) (db : Tables F) (q : R) (at : GradedAttempt F)
      → get_graded_attempt attempt_id db ≡ ok at
      → at.submitted_at ≡ some t
      → Ended at.id
          (retries_of (lookup at.id db.statuses))
          (sync_attempt client now attempt_id db q)
  unfolding sync_attempt
  sync_attempt-Ended now t attempt_id db q at a s =
      let db1 = mark_sync_pending at.id db in
      let r = retries_of (lookup at.id db.statuses) in
      let (row, l, n) = mark_sync_pending-HasRow at.id db in
      let item = ensure_line_item client at db1 q in
      let here : lookup at.id item.1.statuses ≡ some row =
        ap (λ m. lookup at.id m) (ensure_line_item-statuses at db1 q) ∙ l in
      elim (Result-cases item.0) [
        | inr (e, i) ↦
            rw (sync_attempt, a, s, i)
              (inr (e, e, refl, mark_sync_failed_lem at.id e r item.1 (row, here, n)))
        | inl (li, i) ↦
            rw (sync_attempt, a, s, i) (send_attempt-Ended now at li item.1 item.2 r (row, here, n))
      ]
