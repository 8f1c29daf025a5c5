-- ===== src/Api/Courses/Guarded.antt =====
-- internal/api/http/courses.go: who changes the members and the offerings of a course, and which rows.
use mindengage_lms.Prelude.{
  String, Bool, true, false, not, ◌≡◌, ◌≢◌, refl, ap, ◌∙◌, sym, ◌⊎◌, inl, inr, Option, none, some,
  List, [], ◌∷◌, ◌++◌, str_eq, str_eq→eq, ne→str_eq, &&-eq-true, Bool-cases, if◌then◌else◌,
}
use mindengage_lms.Strings.{Unicode, trim_space, is_empty}
use mindengage_lms.Platform.Http.{Request, get, Outcome}
use mindengage_lms.Api.Catalog.{
  TeacherRow, StudentRow, OfferingRow, Catalog, UserClaims, TokenParser, subject_from_bearer,
  upsert, rows_where, is_course_teacher,
}
use mindengage_lms.Api.Courses.{
  MembersBody, OfferingBody, put_teacher, put_student, put_teachers, put_students, member_role,
  member_status, is_one, offering_row, may_insert_offering, guarded, add_members, add_co_teachers,
  enroll_students, offer, create_offering,
}

not-eq-false : (b : Bool) → not b ≡ false → b ≡ true
not-eq-false true h = refl
not-eq-false false h = cc

module _ {A : Type 0} (course_of : A → String) where
  -- The rows of a course.
  abbrev pub of_course : String → List A → List A
  of_course c rows = rows_where (λ r. str_eq (course_of r) c) rows

  of_course-upsert :
      (c : String) (is_row : A → Bool) (may_insert : Bool) (new : A) (rows : List A)
      → course_of new ≢ c
      → ((r : A) → is_row r ≡ true → course_of r ≡ course_of new)
      → of_course c (upsert is_row may_insert new rows) ≡ of_course c rows
  unfolding upsert rows_where
  of_course-upsert c is_row true new [] ne same = rw (ne→str_eq (course_of new) c ne) refl
  of_course-upsert c is_row false new [] ne same = refl
  of_course-upsert c is_row may_insert new (r ∷ rows) ne same = elim (Bool-cases (is_row r)) [
    | inl e ↦
        rw
          (
            e,
            ne→str_eq (course_of new) c ne,
            ne→str_eq (course_of r) c (λ p. ne (sym (same r e) ∙ p)),
          )
          refl
    | inr e ↦ rw e (
        ap (λ rest. if str_eq (course_of r) c then r ∷ rest else rest)
          (of_course-upsert c is_row may_insert new rows ne same))
  ]

  of_course-append :
      (c : String) (new : A) (rows : List A)
      → course_of new ≢ c
      → of_course c (rows ++ new ∷ []) ≡ of_course c rows
  unfolding rows_where
  of_course-append c new [] ne = rw (ne→str_eq (course_of new) c ne) refl
  of_course-append c new (r ∷ rows) ne =
      ap (λ rest. if str_eq (course_of r) c then r ∷ rest else rest)
        (of_course-append c new rows ne)

-- Two databases differ at most in the members and offerings of one course.
pub record IsWithin {F : Type 0} (course_id : String) (db db' : Catalog F) : Type 0 where
  pub store : db'.store ≡ db.store
  pub offering_of : db'.offering_of ≡ db.offering_of
  pub users : db'.users ≡ db.users
  pub owners : db'.owners ≡ db.owners
  pub courses : db'.courses ≡ db.courses
  pub teachers :
      (c : String)
      → course_id ≢ c
      → of_course (λ (t : TeacherRow). t.course_id) c db'.teachers
        ≡ of_course (λ (t : TeacherRow). t.course_id) c db.teachers
  pub students :
      (c : String)
      → course_id ≢ c
      → of_course (λ (s : StudentRow). s.course_id) c db'.students
        ≡ of_course (λ (s : StudentRow). s.course_id) c db.students
  pub offerings :
      (c : String)
      → course_id ≢ c
      → of_course (λ (o : OfferingRow). o.course_id) c db'.offerings
        ≡ of_course (λ (o : OfferingRow). o.course_id) c db.offerings

module _ {F : Type 0} (course_id : String) where
  -- The other tables stay.
  within :
      (db : Catalog F) (ts : List TeacherRow) (ss : List StudentRow) (os : List OfferingRow)
      → ((c : String)
          → course_id ≢ c
          → of_course (λ (t : TeacherRow). t.course_id) c ts
            ≡ of_course (λ (t : TeacherRow). t.course_id) c db.teachers)
      → ((c : String)
          → course_id ≢ c
          → of_course (λ (s : StudentRow). s.course_id) c ss
            ≡ of_course (λ (s : StudentRow). s.course_id) c db.students)
      → ((c : String)
          → course_id ≢ c
          → of_course (λ (o : OfferingRow). o.course_id) c os
            ≡ of_course (λ (o : OfferingRow). o.course_id) c db.offerings)
      → IsWithin course_id db (record db { teachers = ts; students = ss; offerings = os })
  within db ts ss os t s o = record {
    store = refl;
    offering_of = refl;
    users = refl;
    owners = refl;
    courses = refl;
    teachers = t;
    students = s;
    offerings = o;
  }

  IsWithin-refl : (db : Catalog F) → IsWithin course_id db db
  IsWithin-refl db =
      within db db.teachers db.students db.offerings (λ c ne. refl) (λ c ne. refl) (λ c ne. refl)

  IsWithin-trans :
      (a b c : Catalog F) → IsWithin course_id a b → IsWithin course_id b c → IsWithin course_id a c
  IsWithin-trans a b c p q = record {
    store = q.store ∙ p.store;
    offering_of = q.offering_of ∙ p.offering_of;
    users = q.users ∙ p.users;
    owners = q.owners ∙ p.owners;
    courses = q.courses ∙ p.courses;
    teachers = λ d ne. q.teachers d ne ∙ p.teachers d ne;
    students = λ d ne. q.students d ne ∙ p.students d ne;
    offerings = λ d ne. q.offerings d ne ∙ p.offerings d ne;
  }

  put_teacher-IsWithin :
      (uid role : String) (db : Catalog F)
      → IsWithin course_id db (put_teacher course_id uid role db)
  put_teacher-IsWithin uid role db =
      within db _ db.students db.offerings
        (λ c ne.
          of_course-upsert (λ (t : TeacherRow). t.course_id) c _ _ _ db.teachers ne
            (λ t e. str_eq→eq t.course_id course_id (&&-eq-true _ _ e).0))
        (λ c ne. refl) (λ c ne. refl)

  put_student-IsWithin :
      (uid status : String) (db : Catalog F)
      → IsWithin course_id db (put_student course_id uid status db)
  put_student-IsWithin uid status db =
      within db db.teachers _ db.offerings (λ c ne. refl)
        (λ c ne.
          of_course-upsert (λ (s : StudentRow). s.course_id) c _ _ _ db.students ne
            (λ s e. str_eq→eq s.course_id course_id (&&-eq-true _ _ e).0))
        (λ c ne. refl)

  put_teachers-IsWithin :
      (role : String) (uids : List String) (db : Catalog F)
      → IsWithin course_id db (put_teachers course_id role uids db)
  unfolding put_teachers
  put_teachers-IsWithin role [] db = IsWithin-refl db
  put_teachers-IsWithin role (uid ∷ uids) db = elim (Bool-cases (is_empty (trim_space uid))) [
    | inl e ↦ rw e (put_teachers-IsWithin role uids db)
    | inr e ↦
        let db' = put_teacher course_id (trim_space uid) role db in
        rw e (
          IsWithin-trans db db' (put_teachers course_id role uids db')
            (put_teacher-IsWithin (trim_space uid) role db) (put_teachers-IsWithin role uids db'))
  ]

  put_students-IsWithin :
      (status : String) (uids : List String) (db : Catalog F)
      → IsWithin course_id db (put_students course_id status uids db)
  unfolding put_students
  put_students-IsWithin status [] db = IsWithin-refl db
  put_students-IsWithin status (uid ∷ uids) db = elim (Bool-cases (is_empty (trim_space uid))) [
    | inl e ↦ rw e (put_students-IsWithin status uids db)
    | inr e ↦
        let db' = put_student course_id (trim_space uid) status db in
        rw e (
          IsWithin-trans db db' (put_students course_id status uids db')
            (put_student-IsWithin (trim_space uid) status db)
            (put_students-IsWithin status uids db'))
  ]

  add_members-IsWithin :
      (put : String → List String → Catalog F → Catalog F) (value : String → String)
      (body : Option MembersBody) (db : Catalog F)
      → ((v : String) (uids : List String) → IsWithin course_id db (put v uids db))
      → IsWithin course_id db (add_members put value body db).1
  add_members-IsWithin put value none db h = IsWithin-refl db
  add_members-IsWithin put value (some body) db h = elim (Bool-cases (is_one body.user_ids)) [
    | inl e ↦ rw e (h (value body.value) body.user_ids)
    | inr e ↦ rw e (IsWithin-refl db)
  ]

  offer-IsWithin :
      (id : String) (who : UserClaims) (body : Option OfferingBody) (db : Catalog F)
      → IsWithin course_id db (offer id course_id who body db).1
  unfolding offering_row
  offer-IsWithin id who none db = IsWithin-refl db
  offer-IsWithin id who (some b) db = elim (Bool-cases (is_empty (trim_space b.exam_id))) [
    | inl e ↦ rw e (IsWithin-refl db)
    | inr e ↦
        let o = offering_row id course_id who.sub b in
        elim (Bool-cases (may_insert_offering o db)) [
          | inr f ↦ rw (e, f) (IsWithin-refl db)
          | inl f ↦
              rw (e, f)
                (within db db.teachers db.students (db.offerings ++ o ∷ []) (λ c ne. refl)
                  (λ c ne. refl)
                  (λ c ne. of_course-append (λ (p : OfferingRow). p.course_id) c o db.offerings ne))
        ]
  ]

-- A change of a course by one of the handlers.
pub data CourseCall : Type 0 where
  co_teachers : Option MembersBody → CourseCall
  enroll : Option MembersBody → CourseCall
  assign : (id : String) → Option OfferingBody → CourseCall

module _ {F : Type 0} (u : Unicode) (parse : TokenParser) where
  unfoldable pub after_call : CourseCall → Request → Catalog F → Catalog F
  after_call (co_teachers body) r db = (add_co_teachers parse r body db).1
  after_call (enroll body) r db = (enroll_students u parse r body db).1
  after_call (assign id body) r db = (create_offering parse id r body db).1

  -- The subject of the token of the request is a teacher of the course in its path, and the tables
  -- differ at most in the rows of that course.
  abbrev pub IsGuarded : Request → Catalog F → Catalog F → Type 0
  IsGuarded r db db' =
      let who = subject_from_bearer parse r in
      let course_id = get "courseID" r.params in
      (is_empty who.sub ≡ false)
      × (is_course_teacher db who.sub course_id ≡ true)
      × IsWithin course_id db db'

  guarded-IsGuarded :
      {A : Type 0} (r : Request) (db : Catalog F) (change : UserClaims → Outcome A × Catalog F)
      → ((who : UserClaims) → IsWithin (get "courseID" r.params) db (change who).1)
      → let db' = (guarded parse (get "courseID" r.params) r db change).1 in
        (db' ≡ db) ⊎ IsGuarded r db db'
  guarded-IsGuarded r db change h =
      let who = subject_from_bearer parse r in
      let course_id = get "courseID" r.params in
      elim (Bool-cases (is_empty who.sub)) [
        | inl e ↦ inl (rw e refl)
        | inr e ↦ elim (Bool-cases (not (is_course_teacher db who.sub course_id))) [
          | inl f ↦ inl (rw (e, f) refl)
          | inr f ↦ inr (e, not-eq-false _ f, rw (e, f) (h who))
        ]
      ]

  -- Adding teachers, enrolling students and assigning an exam leave the database as it was, or the
  -- subject of the token of the request is a teacher of the course in its path, and at most the
  -- teachers, students and offerings of that course change.
  pub after_call-IsGuarded :
      (call : CourseCall) (r : Request) (db : Catalog F)
      → (after_call call r db ≡ db) ⊎ IsGuarded r db (after_call call r db)
  unfolding after_call add_co_teachers enroll_students create_offering
  after_call-IsGuarded (co_teachers body) r db =
      let course_id = get "courseID" r.params in
      guarded-IsGuarded r db (λ who. add_members (put_teachers course_id) member_role body db)
        λ who.
          add_members-IsWithin course_id (put_teachers course_id) member_role body db
            (λ v uids. put_teachers-IsWithin course_id v uids db)
  after_call-IsGuarded (enroll body) r db =
      let course_id = get "courseID" r.params in
      guarded-IsGuarded r db (λ who. add_members (put_students course_id) (member_status u) body db)
        λ who.
          add_members-IsWithin course_id (put_students course_id) (member_status u) body db
            (λ v uids. put_students-IsWithin course_id v uids db)
  after_call-IsGuarded (assign id body) r db =
      let course_id = get "courseID" r.params in
      guarded-IsGuarded r db (λ who. offer id course_id who body db)
        λ who. offer-IsWithin course_id id who body db
