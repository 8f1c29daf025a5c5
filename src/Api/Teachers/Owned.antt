-- ===== src/Api/Teachers/Owned.antt =====
-- internal/api/http/teacher_handlers.go: whose exams are changed, and by whom.
use mindengage_lms.Prelude.{
  ℤ, String, Bool, true, false, not, ◌&&◌, ◌||◌, ◌≡◌, ◌≢◌, refl, ap, ◌∙◌, sym, subst, ◌⊎◌, inl, inr,
  Option, none, some, List, [], ◌∷◌, GoMap, Result, ok, err, str_eq, str_eq_cases, Bool-cases,
  if◌then◌else◌,
}
use mindengage_lms.Strings.{Unicode, trim_space, is_empty}
use mindengage_lms.Exam.Models.{Exam, ExamRow, Db}
use mindengage_lms.Exam.Store.{find_exam}
use mindengage_lms.Exam.Exams.{row_of_exam, put_exam}
use mindengage_lms.Exam.Exams.Laws.{stamped, find_exam-upsert_exam}
use mindengage_lms.Formats.Adapters.{Adapter}
use mindengage_lms.Platform.Http.{Request, get, Outcome}
use mindengage_lms.Api.Catalog.{Catalog, UserClaims, TokenParser, subject_from_bearer, rows_where}
use mindengage_lms.Api.Teachers.{
  Uploaded, PolicyReader, check_exam, with_time_limit, fork_exam_id, exam_exists, is_exam_owner,
  put_owned, wants_overwrite, store_upload, then_store, upload_exam, remove_exam, delete_exam,
}

not-eq-false : (b : Bool) → not b ≡ false → b ≡ true
not-eq-false true h = refl
not-eq-false false h = cc

not-eq-true : (b : Bool) → not b ≡ true → b ≡ false
not-eq-true true h = cc
not-eq-true false h = refl

de_morgan : (a b : Bool) → not a && not b ≡ false → (a || b) ≡ true
de_morgan true b h = refl
de_morgan false true h = refl
de_morgan false false h = cc

-- A call that changes exams.
pub data ExamCall (F : Type 0) : Type 0 where
  upload : (now : ℤ) (stamp : String) → Option (Exam F) → ExamCall F
  remove : ExamCall F

-- An upload of an exam whose id is taken is forked to this id.
abbrev pub IsFork : {F : Type 0} → Catalog F → (sub : String) → ExamCall F → String → Type 0
IsFork db sub (upload now stamp none) id = ⊥
IsFork db sub (upload now stamp (some e)) id =
    (exam_exists e.id db ≡ true) × (fork_exam_id stamp e.id sub ≡ id)
IsFork db sub remove id = ⊥

-- Why a user may change the exam of an id: it is new, the user is an admin or one of its owners, or
-- it is the fork of an upload.
pub data MayChange {F : Type 0} (db : Catalog F) (who : UserClaims) (call : ExamCall F)
    (id : String) : Type 0 where
  is_new : exam_exists id db ≡ false → MayChange db who call id
  by_admin : str_eq who.role "admin" ≡ true → MayChange db who call id
  by_owner : is_exam_owner db id who.sub ≡ true → MayChange db who call id
  by_fork : IsFork db who.sub call id → MayChange db who call id

module _ {F : Type 0} where
  -- The exam of an id is as it was.
  abbrev pub IsKept : String → Catalog F → Catalog F → Type 0
  IsKept id db db' = find_exam id db'.store.exams ≡ find_exam id db.store.exams

  find_exam-rows_where :
      (id j : String) (rows : List (ExamRow F))
      → id ≢ j
      → find_exam j (rows_where (λ (e : ExamRow F). not (str_eq e.id id)) rows) ≡ find_exam j rows
  unfolding find_exam rows_where
  find_exam-rows_where id j [] ne = refl
  find_exam-rows_where id j (e ∷ rows) ne = elim (str_eq_cases e.id id) [
    | inl (p, q) ↦ elim (str_eq_cases e.id j) [
      | inl (_, r) ↦ absurd (ne (sym q ∙ r))
      | inr (r, _) ↦ rw (p, r) (find_exam-rows_where id j rows ne)
    ]
    | inr (p, _) ↦
        rw p
          (ap (λ rest. if str_eq e.id j then some e else rest) (find_exam-rows_where id j rows ne))
  ]

  find_exam-put_exam :
      (now : ℤ) (e : Exam F) (j : String) (db : Db F)
      → str_eq e.id j ≡ false
      → find_exam j (put_exam now e db).exams ≡ find_exam j db.exams
  unfolding put_exam row_of_exam
  find_exam-put_exam now e j db h =
      find_exam-upsert_exam (row_of_exam now e) j db.exams
      ∙ ap
          (λ b.
            if b
            then some (stamped (row_of_exam now e) (find_exam j db.exams))
            else find_exam j db.exams)
          h

  -- An exam that is put with a right to its id.
  put_owned-IsKept :
      (call : ExamCall F) (who : UserClaims) (now : ℤ) (e : Exam F) (j : String) (db : Catalog F)
      → MayChange db who call e.id
      → IsKept j db (put_owned now e who.sub db) ⊎ MayChange db who call j
  unfolding put_owned
  put_owned-IsKept call who now e j db may = elim (str_eq_cases e.id j) [
    | inl (_, p) ↦ inr (subst (MayChange db who call) p may)
    | inr (p, _) ↦ inl (find_exam-put_exam now e j db.store p)
  ]

  owner_or_admin :
      (call : ExamCall F) (who : UserClaims) (db : Catalog F) (id : String) (b : Bool)
      → is_exam_owner db id who.sub ≡ b
      → (b || str_eq who.role "admin") ≡ true
      → MayChange db who call id
  owner_or_admin call who db id true p h = by_owner p
  owner_or_admin call who db id false p h = by_admin h

  module _ (u : Unicode) (r : Request) (who : UserClaims) (now : ℤ) (stamp : String)
      (given : Exam F) where
    store_upload-IsKept :
        (e : Exam F) (j : String) (db : Catalog F)
        → e.id ≡ given.id
        → let db' = (store_upload u now stamp who r e db).1 in
          IsKept j db db' ⊎ MayChange db who (upload now stamp (some given)) j
    unfolding store_upload
    store_upload-IsKept e j db same =
        let call = upload now stamp (some given) in
        elim (Bool-cases (not (exam_exists e.id db))) [
          | inl n ↦ rw n (put_owned-IsKept call who now e j db (is_new (not-eq-true _ n)))
          | inr n ↦ elim (Bool-cases (wants_overwrite u r)) [
            | inl o ↦
                let may = is_exam_owner db e.id who.sub || str_eq who.role "admin" in
                elim (Bool-cases (not may)) [
                  | inl f ↦ rw (n, o, f) (inl refl)
                  | inr f ↦
                      rw (n, o, f)
                        (put_owned-IsKept call who now e j db
                          (owner_or_admin call who db e.id _ refl (not-eq-false _ f)))
                ]
            | inr o ↦
                let id = fork_exam_id stamp e.id who.sub in
                rw (n, o)
                  (put_owned-IsKept call who now (record e { id = id }) j db
                    (by_fork (
                      subst (λ i. exam_exists i db ≡ true) same (not-eq-false _ n),
                      ap (λ i. fork_exam_id stamp i who.sub) (sym same),
                    )))
          ]
        ]

  then_store-1 :
      (P : Catalog F → Type 0) (m : Result String (Unit {0}))
      (stored : Outcome Uploaded × Catalog F) (db : Catalog F)
      → P stored.1
      → P db
      → P (then_store m stored db).1
  then_store-1 P (ok t) stored db h k = h
  then_store-1 P (err e) stored db h k = k

  module _ (u : Unicode) (reader : PolicyReader) (adapters : GoMap Adapter) (parse : TokenParser)
      (r : Request) where
    unfoldable pub after_exam_call : ExamCall F → Catalog F → Catalog F
    after_exam_call (upload now stamp body) db =
        (upload_exam u reader adapters parse now stamp r body db).1
    after_exam_call remove db = (delete_exam parse r db).1

    remove_exam-IsKept :
        (id j : String) (who : UserClaims) (db : Catalog F)
        → (str_eq who.role "admin" || is_exam_owner db id who.sub) ≡ true
        → IsKept j db (remove_exam id db) ⊎ MayChange db who remove j
    unfolding remove_exam
    remove_exam-IsKept id j who db h = elim (str_eq_cases id j) [
      | inr (_, ne) ↦ inl (find_exam-rows_where id j db.store.exams ne)
      | inl (_, p) ↦ inr (elim (Bool-cases (str_eq who.role "admin")) [
        | inl e ↦ by_admin e
        | inr e ↦ by_owner (subst (λ i. is_exam_owner db i who.sub ≡ true) p (rw e at h))
      ])
    ]

    -- An upload or a deletion leaves the exam of an id as it was, unless the exam is new, the subject
    -- of the token of the request is an admin or one of its owners, or the id is the one that forks the
    -- upload of an exam whose id is taken.
    pub after_exam_call-IsKept :
        (call : ExamCall F) (j : String) (db : Catalog F)
        → IsKept j db (after_exam_call call db) ⊎ MayChange db (subject_from_bearer parse r) call j
    unfolding after_exam_call upload_exam with_time_limit delete_exam
    after_exam_call-IsKept (upload now stamp none) j db = inl refl
    after_exam_call-IsKept (upload now stamp (some e)) j db =
        let who = subject_from_bearer parse r in
        let call = upload now stamp (some e) in
        elim (Bool-cases (is_empty (trim_space e.id))) [
          | inl f ↦ rw (after_exam_call, upload_exam, f) (inl refl)
          | inr f ↦
              let e' = with_time_limit reader adapters e in
              rw (after_exam_call, upload_exam, f)
                (then_store-1 (λ db'. IsKept j db db' ⊎ MayChange db who call j)
                  (check_exam reader adapters e) (store_upload u now stamp who r e' db) db
                  (store_upload-IsKept u r who now stamp e e' j db refl) (inl refl))
        ]
    after_exam_call-IsKept remove j db =
        let who = subject_from_bearer parse r in
        let id = trim_space (get "examID" r.params) in
        elim (Bool-cases (is_empty id)) [
          | inl e ↦ rw (after_exam_call, delete_exam, e) (inl refl)
          | inr e ↦ elim (Bool-cases (not (exam_exists id db))) [
            | inl f ↦ rw (after_exam_call, delete_exam, e, f) (inl refl)
            | inr f ↦
                let no_right = not (str_eq who.role "admin") && not (is_exam_owner db id who.sub) in
                elim (Bool-cases no_right) [
                  | inl g ↦ rw (after_exam_call, delete_exam, e, f, g) (inl refl)
                  | inr g ↦
                      rw (after_exam_call, delete_exam, e, f, g)
                        (remove_exam-IsKept id j who db
                          (de_morgan (str_eq who.role "admin") (is_exam_owner db id who.sub) g))
                ]
          ]
        ]
