-- ===== src/Api/Courses.antt =====
-- internal/api/http/courses.go: the handlers of courses. A body is what encoding/json reads from it,
-- `none` for an error.
pub mod Guarded
use mindengage_lms.Prelude.{
  ℕ, ℤ, pos, pos_part, ltb_ℤ, leb_ℤ, String, Bool, true, false, not, ◌&&◌, ◌||◌, Option, none, some,
  List, [], ◌∷◌, ◌++◌, any, str_eq, take, drop, if◌then◌else◌,
}
use mindengage_lms.Strings.{Unicode, trim_space, to_lower, is_empty}
use mindengage_lms.Strings.Split.{atoi, text_le}
use mindengage_lms.Exam.Models.{ExamRow}
use mindengage_lms.Platform.Http.{Request, get, Outcome, refused, served}
use mindengage_lms.Api.Catalog.{
  CourseRow, TeacherRow, StudentRow, OfferingRow, Catalog, UserClaims, TokenParser,
  subject_from_bearer, has_id, upsert, insert_if_new, rows_where, is_course_teacher,
  is_course_student, course_exists,
}

pub record Course : Type 0 where
  pub id : String
  pub name : String

-- The body of AddCoTeachersHandler and EnrollStudentsHandler: `value` is its role, or its status.
pub record MembersBody : Type 0 where
  pub user_ids : List String
  pub value : String

pub record OfferingBody : Type 0 where
  pub exam_id : String
  pub start_at : Option ℤ
  pub end_at : Option ℤ
  pub time_limit_sec : Option ℤ
  pub max_attempts : Option ℤ
  pub visibility : Option String
  pub access_token : Option String

-- An element of the list of offerings; its times are Unix seconds.
pub record OfferingView : Type 0 where
  pub id : String
  pub exam_id : String
  pub start_at : Option ℤ
  pub end_at : Option ℤ
  pub time_limit_sec : Option ℤ
  pub max_attempts : ℤ
  pub visibility : String

module _ {F : Type 0} where
  abbrev pub put_teacher : (course_id uid role : String) → Catalog F → Catalog F
  put_teacher course_id uid role db = record db {
    teachers =
        upsert (λ t. str_eq t.course_id course_id && str_eq t.teacher_id uid)
          (course_exists course_id db && has_id uid db.users)
          (record { course_id = course_id; teacher_id = uid; role = role }) db.teachers;
  }

  abbrev pub put_student : (course_id uid status : String) → Catalog F → Catalog F
  put_student course_id uid status db = record db {
    students =
        upsert (λ s. str_eq s.course_id course_id && str_eq s.student_id uid)
          (course_exists course_id db && has_id uid db.users)
          (record { course_id = course_id; student_id = uid; status = status }) db.students;
  }

  -- The loops over the ids of users.
  unfoldable pub put_teachers : (course_id role : String) → List String → Catalog F → Catalog F
  unfolding upsert
  put_teachers course_id role [] db = db
  put_teachers course_id role (uid ∷ uids) db =
      let uid' = trim_space uid in
      put_teachers course_id role uids
        (if is_empty uid' then db else put_teacher course_id uid' role db)

  unfoldable pub put_students : (course_id status : String) → List String → Catalog F → Catalog F
  unfolding upsert
  put_students course_id status [] db = db
  put_students course_id status (uid ∷ uids) db =
      let uid' = trim_space uid in
      put_students course_id status uids
        (if is_empty uid' then db else put_student course_id uid' status db)

-- What is given to the members: the role, and the status.
unfoldable pub member_role : String → String
member_role role = if str_eq role "owner" then "owner" else "co"

unfoldable pub member_status : Unicode → String → String
unfolding trim_space to_lower
member_status u status =
    let s = to_lower u (trim_space status) in
    if str_eq s "invited" || str_eq s "dropped" then s else "active"

abbrev pub is_one : List String → Bool
is_one [] = false
is_one (i ∷ is) = true

-- The default values of an offering.
unfoldable pub attempts_of : Option ℤ → ℤ
attempts_of none = pos 1
attempts_of (some n) = if ltb_ℤ (pos 0) n then n else pos 1

unfoldable pub visibility_of : Option String → String
visibility_of none = "course"
visibility_of (some v) = if str_eq v "public" || str_eq v "link" then v else "course"

unfoldable pub token_of : Option String → Option String
unfolding trim_space
token_of none = none
token_of (some t) = if is_empty (trim_space t) then none else some (trim_space t)

abbrev is_token : Option String → Option String → Bool
is_token (some a) (some b) = str_eq a b
is_token none b = false
is_token (some a) none = false

unfoldable pub offering_row : (id course_id sub : String) → OfferingBody → OfferingRow
unfolding attempts_of visibility_of token_of
offering_row id course_id sub b = record {
  id = id;
  exam_id = b.exam_id;
  course_id = course_id;
  assigned_by = sub;
  start_at = b.start_at;
  end_at = b.end_at;
  time_limit_sec = b.time_limit_sec;
  max_attempts = attempts_of b.max_attempts;
  visibility = visibility_of b.visibility;
  access_token = token_of b.access_token;
}

module _ {F : Type 0} where
  -- The INSERT of an offering goes through: its id and its token are new, and what it names is there.
  unfoldable pub may_insert_offering : OfferingRow → Catalog F → Bool
  may_insert_offering o db =
      not (
        any (λ (p : OfferingRow). str_eq p.id o.id || is_token p.access_token o.access_token)
          db.offerings)
      && any (λ (e : ExamRow F). str_eq e.id o.exam_id) db.store.exams
      && course_exists o.course_id db
      && has_id o.assigned_by db.users

  -- The course of a request that only its teachers may change.
  abbrev pub guarded :
      {A : Type 0}
      → TokenParser
      → (course_id : String) → Request
      → Catalog F
      → (UserClaims → Outcome A × Catalog F)
      → Outcome A × Catalog F
  guarded parse course_id r db change =
      let who = subject_from_bearer parse r in
      if is_empty who.sub
      then (refused 401 "unauthorized", db)
      else if not (is_course_teacher db who.sub course_id)
      then (refused 403 "forbidden", db)
      else change who

  -- CreateCourseHandler; `name` is `none` for a body that cannot be read, `id` the text of the time.
  abbrev create_named :
      (id : String) (now : ℤ) → UserClaims → Catalog F → Option String → Outcome Course × Catalog F
  create_named id now who db none = (refused 400 "bad json", db)
  create_named id now who db (some name) =
      if is_empty (trim_space name)
      then (refused 400 "bad json", db)
      else if course_exists id db || not (has_id who.sub db.users)
      then (refused 500 "db error", db)
      else (
        served (record { id = id; name = name }),
        record db {
          courses =
              db.courses
              ++ record { id = id; name = name; created_by = who.sub; created_at = now } ∷ [];
          teachers =
              insert_if_new (λ t. str_eq t.course_id id && str_eq t.teacher_id who.sub) true
                (record { course_id = id; teacher_id = who.sub; role = "owner" }) db.teachers;
        },
      )

  unfoldable pub create_course :
      TokenParser
      → (id : String) (now : ℤ) → Request
      → Option String
      → Catalog F
      → Outcome Course × Catalog F
  unfolding insert_if_new
  create_course parse id now r body db =
      let who = subject_from_bearer parse r in
      if is_empty who.sub
      then (refused 401 "unauthorized", db)
      else if not (str_eq who.role "teacher") && not (str_eq who.role "admin")
      then (refused 403 "forbidden", db)
      else create_named id now who db body

  abbrev pub add_members :
      (String → List String → Catalog F → Catalog F)
      → (String → String)
      → Option MembersBody
      → Catalog F
      → Outcome (Unit {0}) × Catalog F
  add_members put value none db = (refused 400 "bad json", db)
  add_members put value (some body) db =
      if is_one body.user_ids
      then (served tt, put (value body.value) body.user_ids db)
      else (refused 400 "bad json", db)

  -- AddCoTeachersHandler
  unfoldable pub add_co_teachers :
      TokenParser → Request → Option MembersBody → Catalog F → Outcome (Unit {0}) × Catalog F
  add_co_teachers parse r body db =
      let course_id = get "courseID" r.params in
      guarded parse course_id r db (λ who. add_members (put_teachers course_id) member_role body db)

  -- EnrollStudentsHandler
  unfoldable pub enroll_students :
      Unicode
      → TokenParser
      → Request
      → Option MembersBody
      → Catalog F
      → Outcome (Unit {0}) × Catalog F
  enroll_students u parse r body db =
      let course_id = get "courseID" r.params in
      guarded parse course_id r db
        (λ who. add_members (put_students course_id) (member_status u) body db)

  abbrev pub insert_offering : OfferingRow → Catalog F → Outcome String × Catalog F
  insert_offering o db =
      if may_insert_offering o db
      then (served o.id, record db { offerings = db.offerings ++ o ∷ [] })
      else (refused 500 "db error", db)

  abbrev pub offer :
      (id course_id : String)
      → UserClaims
      → Option OfferingBody
      → Catalog F
      → Outcome String × Catalog F
  offer id course_id who none db = (refused 400 "bad json", db)
  offer id course_id who (some b) db =
      if is_empty (trim_space b.exam_id)
      then (refused 400 "bad json", db)
      else insert_offering (offering_row id course_id who.sub b) db

  -- CreateOfferingHandler; `id` is the text of the time.
  unfoldable pub create_offering :
      TokenParser
      → (id : String) → Request
      → Option OfferingBody
      → Catalog F
      → Outcome String × Catalog F
  create_offering parse id r body db =
      let course_id = get "courseID" r.params in
      guarded parse course_id r db (λ who. offer id course_id who body db)

-- ORDER BY start_at NULLS FIRST, id
abbrev starts_first : Option ℤ → Option ℤ → (id other : String) → Bool
starts_first none none id other = text_le id other
starts_first none (some t) id other = true
starts_first (some s) none id other = false
starts_first (some s) (some t) id other = ltb_ℤ s t || (leb_ℤ s t && text_le id other)

unfoldable pub insert_by_start : OfferingRow → List OfferingRow → List OfferingRow
unfolding text_le
insert_by_start o [] = o ∷ []
insert_by_start o (p ∷ ps) =
    let rest = insert_by_start o ps in
    if starts_first o.start_at p.start_at o.id p.id then o ∷ p ∷ ps else p ∷ rest

unfoldable pub sort_by_start : List OfferingRow → List OfferingRow
unfolding insert_by_start
sort_by_start [] = []
sort_by_start (o ∷ os) = insert_by_start o (sort_by_start os)

unfoldable pub view_offerings : List OfferingRow → List OfferingView
view_offerings [] = []
view_offerings (o ∷ os) =
    record {
      id = o.id;
      exam_id = o.exam_id;
      start_at = o.start_at;
      end_at = o.end_at;
      time_limit_sec = o.time_limit_sec;
      max_attempts = o.max_attempts;
      visibility = o.visibility;
    }
    ∷ view_offerings os

unfoldable pub view_courses : List CourseRow → List Course
view_courses [] = []
view_courses (c ∷ cs) = record { id = c.id; name = c.name } ∷ view_courses cs

abbrev limit_or : (default : ℤ) → Option ℤ → ℤ
limit_or default none = default
limit_or default (some v) =
    if ltb_ℤ (pos 0) v then (if ltb_ℤ (pos 200) v then pos 200 else v) else default

abbrev offset_or : (default : ℤ) → Option ℤ → ℤ
offset_or default none = default
offset_or default (some v) = if leb_ℤ (pos 0) v then v else default

module _ {F : Type 0} where
  unfoldable pub list_offerings : TokenParser → Request → Catalog F → Outcome (List OfferingView)
  list_offerings parse r db =
      let course_id = get "courseID" r.params in
      let who = subject_from_bearer parse r in
      if is_empty who.sub
      then refused 401 "unauthorized"
      else if str_eq who.role "student" && not (is_course_student db who.sub course_id)
      then refused 403 "forbidden"
      else if not (str_eq who.role "student")
          && not (is_course_teacher db who.sub course_id)
          && not (str_eq who.role "admin")
      then refused 403 "forbidden"
      else served (
          view_offerings (
            sort_by_start
              (rows_where (λ (o : OfferingRow). str_eq o.course_id course_id) db.offerings)))

  -- The courses of the switch on the role of the user.
  unfoldable pub courses_for :
      UserClaims → (all : Bool) (teacher_id student_id : String) → Catalog F → List CourseRow
  courses_for who all teacher_id student_id db =
      let taught =
        λ (id : String). rows_where (λ (c : CourseRow). is_course_teacher db id c.id) db.courses in
      let attended =
        λ (id : String). rows_where (λ (c : CourseRow). is_course_student db id c.id) db.courses in
      if str_eq who.role "admin"
      then (if all
          then db.courses
          else if not (is_empty teacher_id)
          then taught teacher_id
          else if not (is_empty student_id)
          then attended student_id
          else db.courses)
      else if str_eq who.role "teacher"
      then taught who.sub
      else attended who.sub

  -- ListCoursesHandler: `ilike` is the test ILIKE '%' || q || '%' of PostgreSQL, `newest_first` the
  -- order by created_at.
  unfoldable pub list_courses :
      (ilike : String → String → Bool)
      → (newest_first : List CourseRow → List CourseRow) → TokenParser
      → Request
      → Catalog F
      → Outcome (List Course)
  unfolding atoi view_courses
  list_courses ilike newest_first parse r db =
      let who = subject_from_bearer parse r in
      let q = trim_space (get "q" r.query) in
      let teacher_id = trim_space (get "teacher_id" r.query) in
      let student_id = trim_space (get "student_id" r.query) in
      let all = str_eq (get "all" r.query) "1" in
      let limit = limit_or (pos 50) (atoi (get "limit" r.query)) in
      let offset = offset_or (pos 0) (atoi (get "offset" r.query)) in
      let found =
        rows_where (λ (c : CourseRow). is_empty q || ilike q c.name)
          (courses_for who all teacher_id student_id db) in
      if is_empty who.sub
      then refused 401 "unauthorized"
      else served
          (view_courses (take (pos_part limit) (drop (pos_part offset) (newest_first found))))
