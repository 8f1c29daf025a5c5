-- ===== src/Api/Teachers.antt =====
-- internal/api/http/teacher_handlers.go: the upload and the deletion of exams, and the deletion of courses.
pub mod Owned
use Prim.Native.String.{◌++◌ as ◌<>◌}
use mindengage_lms.Prelude.{
  ℕ, ℤ, pos, ltb_ℤ, eqb_ℤ, add64, String, Bool, true, false, not, ◌&&◌, ◌||◌, Option, none, some,
  List, [], ◌∷◌, any, map, GoMap, lookup, Result, ok, err, ◌>>=◌, ◌>>◌, str_eq, if◌then◌else◌,
}
use mindengage_lms.Strings.{Unicode, trim_space, is_empty, equal_fold}
use mindengage_lms.Exam.Models.{
  Choice, Question, PolicyText, PolicyRaw, Exam, ExamRow, AttemptRow, Db, StoreError,
}
use mindengage_lms.Exam.Exams.{put_exam, get_exam}
use mindengage_lms.Formats.Policy.{
  Module, Section, Policy, FormatError, QuestionLike, ExamLike, validate_policy,
}
use mindengage_lms.Formats.Adapters.{Adapter, lookup_adapter}
use mindengage_lms.Platform.Http.{Request, get, Outcome, refused, served}
use mindengage_lms.Api.Catalog.{
  CourseRow, TeacherRow, StudentRow, OfferingRow, OwnerRow, Catalog, UserClaims, TokenParser,
  subject_from_bearer, has_id, insert_if_new, rows_where, course_exists,
}

-- What is answered to an upload.
pub record Uploaded : Type 0 where
  pub status : String
  pub id : String
  pub forked_from : Option String

-- json.Unmarshal of a policy, which it may fill in part before its error, and the texts of errors.
pub record PolicyReader : Type 0 where
  pub unmarshal : PolicyText → Policy × Option String
  pub text : FormatError → String

abbrev choice_ids : List Choice → List String
choice_ids [] = []
choice_ids (c ∷ cs) = c.id ∷ choice_ids cs

module _ {F : Type 0} where
  abbrev questions_like : List (Question F) → List QuestionLike
  questions_like [] = []
  questions_like (q ∷ qs) =
      record { id = q.id; q_type = q.q_type; choices = choice_ids q.choices } ∷ questions_like qs

  -- examAdapter
  unfoldable pub exam_like : Exam F → ExamLike
  exam_like e = record { id = e.id; title = e.title; questions = questions_like e.questions }

abbrev module_seconds : ℤ → List Module → ℤ
module_seconds sum [] = sum
module_seconds sum (m ∷ ms) =
    module_seconds (if ltb_ℤ (pos 0) m.time_limit_sec then add64 sum m.time_limit_sec else sum) ms

abbrev section_seconds : ℤ → List Section → ℤ
section_seconds sum [] = sum
section_seconds sum (s ∷ ss) = section_seconds (module_seconds sum s.modules) ss

unfoldable pub total_time_from_policy : Policy → ℤ
total_time_from_policy pol = section_seconds (pos 0) pol.sections

abbrev no_failure : (prefix : String) → Option String → Result String (Unit {0})
no_failure prefix none = ok tt
no_failure prefix (some e) = err (prefix <> e)

abbrev no_format_failure :
    PolicyReader → (prefix : String) → Result FormatError (Unit {0}) → Result String (Unit {0})
no_format_failure reader prefix (ok t) = ok tt
no_format_failure reader prefix (err e) = err (prefix <> reader.text e)

abbrev validate_by :
    PolicyReader
    → (profile : String) → Option Adapter
    → ExamLike
    → Policy
    → Result String (Unit {0})
validate_by reader profile none e pol = err ("unknown profile: " <> profile)
validate_by reader profile (some a) e pol =
    no_format_failure reader "profile validation failed: " (a.validate e pol)

abbrev positive_or : ℤ → (sum : ℤ) → ℤ
positive_or old sum = if ltb_ℤ (pos 0) sum then sum else old

abbrev limit_from : PolicyReader → ℤ → PolicyRaw → ℤ
limit_from reader limit none = limit
limit_from reader limit (some text) =
    if eqb_ℤ limit (pos 0)
    then positive_or limit (total_time_from_policy (reader.unmarshal text).0)
    else limit

module _ {F : Type 0} (reader : PolicyReader) (adapters : GoMap Adapter) where
  abbrev check_read : Exam F → Policy × Option String → Result String (Unit {0})
  check_read e (pol, failure) = do
    no_failure "invalid policy json: " failure
    no_format_failure reader "policy validation failed: " (validate_policy e.profile (some pol))
    validate_by reader e.profile (lookup_adapter e.profile adapters) (exam_like e) pol

  abbrev check_raw : Exam F → PolicyRaw → Result String (Unit {0})
  check_raw e none = ok tt
  check_raw e (some text) =
      if is_empty e.profile then ok tt else check_read e (reader.unmarshal text)

  -- The check of the policy, where the exam has one and a profile.
  unfoldable pub check_exam : Exam F → Result String (Unit {0})
  check_exam e = check_raw e e.policy_raw

  -- The time limit that is stored: of the policy where the exam names none.
  unfoldable pub with_time_limit : Exam F → Exam F
  unfolding total_time_from_policy
  with_time_limit e = record e { time_limit_sec = limit_from reader e.time_limit_sec e.policy_raw }

abbrev first_chars : ℕ → String → String
first_chars ℕ.zero s = ""
first_chars (ℕ.suc n) String.[] = ""
first_chars (ℕ.suc n) (String.◌∷◌ c s) = String.◌∷◌ c (first_chars n s)

-- forkExamID; `stamp` is the time in seconds, as a text.
unfoldable pub fork_exam_id : (stamp base owner : String) → String
unfolding trim_space
fork_exam_id stamp base owner =
    let b = trim_space base in
    (if is_empty b then "exam" else b) <> "-" <> first_chars 8 owner <> "-" <> stamp

unfoldable pub wants_overwrite : Unicode → Request → Bool
unfolding trim_space equal_fold
wants_overwrite u r =
    str_eq (get "overwrite" r.query) "1"
    || equal_fold u (trim_space (get "X-Allow-Overwrite" r.headers)) "1"

abbrev in_offerings : Option String → List OfferingRow → Bool
in_offerings none os = false
in_offerings (some id) os = any (λ (o : OfferingRow). str_eq o.id id) os

module _ {F : Type 0} where
  unfoldable pub exam_exists : String → Catalog F → Bool
  exam_exists id db = any (λ (e : ExamRow F). str_eq e.id id) db.store.exams

  unfoldable pub is_exam_owner : Catalog F → (exam_id teacher_id : String) → Bool
  is_exam_owner db exam_id teacher_id =
      any (λ (o : OwnerRow). str_eq o.exam_id exam_id && str_eq o.teacher_id teacher_id) db.owners

  -- The exam is put, and the user is made an owner where it is one of the users.
  unfoldable pub put_owned : (now : ℤ) → Exam F → (sub : String) → Catalog F → Catalog F
  unfolding insert_if_new
  put_owned now e sub db = record db {
    store = put_exam now e db.store;
    owners =
        insert_if_new (λ o. str_eq o.exam_id e.id && str_eq o.teacher_id sub) (has_id sub db.users)
          (record { exam_id = e.id; teacher_id = sub }) db.owners;
  }

  -- How an upload of a checked exam ends.
  unfoldable pub store_upload :
      Unicode
      → (now : ℤ) (stamp : String) → UserClaims
      → Request
      → Exam F
      → Catalog F
      → Outcome Uploaded × Catalog F
  store_upload u now stamp who r e db =
      if not (exam_exists e.id db)
      then (
        served (record { status = "created"; id = e.id; forked_from = none }),
        put_owned now e who.sub db,
      )
      else if wants_overwrite u r
      then (if not (is_exam_owner db e.id who.sub || str_eq who.role "admin")
          then (refused 409 "conflict: exam exists and you are not an owner (use fork)", db)
          else (
            served (record { status = "updated"; id = e.id; forked_from = none }),
            put_owned now e who.sub db,
          ))
      else (let id = fork_exam_id stamp e.id who.sub in
          (
            served (record { status = "forked"; id = id; forked_from = some e.id }),
            put_owned now (record e { id = id }) who.sub db,
          ))

  abbrev pub then_store :
      Result String (Unit {0})
      → Outcome Uploaded × Catalog F
      → Catalog F
      → Outcome Uploaded × Catalog F
  then_store (ok t) stored db = stored
  then_store (err e) stored db = (refused 400 e, db)

  -- UploadExamHandler
  unfoldable pub upload_exam :
      Unicode
      → PolicyReader
      → GoMap Adapter
      → TokenParser
      → (now : ℤ) (stamp : String) → Request
      → Option (Exam F)
      → Catalog F
      → Outcome Uploaded × Catalog F
  upload_exam u reader adapters parse now stamp r none db = (refused 400 "bad json", db)
  upload_exam u reader adapters parse now stamp r (some e) db =
      if is_empty (trim_space e.id)
      then (refused 400 "id required", db)
      else then_store (check_exam reader adapters e)
          (store_upload u now stamp (subject_from_bearer parse r) r
            (with_time_limit reader adapters e) db)
          db

  abbrev not_found : (StoreError → String) → Result StoreError (Exam F) → Outcome (Exam F)
  not_found text (ok e) = served e
  not_found text (err e) = refused 404 (text e)

  unfoldable pub get_exam_handler : (StoreError → String) → Request → Db F → Outcome (Exam F)
  get_exam_handler text r db = not_found text (get_exam (get "examID" r.params) db)

  -- The links of attempts to offerings that stay.
  unfoldable pub keep_links : (gone : OfferingRow → Bool) → Catalog F → GoMap String
  keep_links gone db =
      rows_where
        (λ (link : String × String).
          not (any (λ (o : OfferingRow). gone o && str_eq o.id link.1) db.offerings))
        db.offering_of

  -- The transaction of DeleteExamHandler. The attempts of the exam go with it.
  unfoldable pub remove_exam : String → Catalog F → Catalog F
  unfolding rows_where keep_links
  remove_exam id db =
      let of_exam = λ (o : OfferingRow). str_eq o.exam_id id in
      record db {
        offering_of = keep_links of_exam db;
        offerings = rows_where (λ o. not (of_exam o)) db.offerings;
        owners = rows_where (λ (o : OwnerRow). not (str_eq o.exam_id id)) db.owners;
        store = record db.store {
          exams = rows_where (λ (e : ExamRow F). not (str_eq e.id id)) db.store.exams;
          attempts = rows_where (λ (a : AttemptRow F). not (str_eq a.exam_id id)) db.store.attempts;
        };
      }

  unfoldable pub delete_exam : TokenParser → Request → Catalog F → Outcome (Unit {0}) × Catalog F
  delete_exam parse r db =
      let id = trim_space (get "examID" r.params) in
      let who = subject_from_bearer parse r in
      if is_empty id
      then (refused 400 "examID required", db)
      else if not (exam_exists id db)
      then (refused 404 "not found", db)
      else if not (str_eq who.role "admin") && not (is_exam_owner db id who.sub)
      then (refused 403 "forbidden (not owner)", db)
      else (served tt, remove_exam id db)

  -- The transaction of DeleteCourseHandler.
  unfoldable pub remove_course : String → Catalog F → Catalog F
  unfolding rows_where keep_links lookup
  remove_course id db =
      let of_course = λ (o : OfferingRow). str_eq o.course_id id in
      let gone = rows_where of_course db.offerings in
      record db {
        store = record db.store {
          attempts =
              rows_where
                (λ (a : AttemptRow F). not (in_offerings (lookup a.id db.offering_of) gone))
                db.store.attempts;
        };
        offering_of = keep_links of_course db;
        students = rows_where (λ (s : StudentRow). not (str_eq s.course_id id)) db.students;
        teachers = rows_where (λ (t : TeacherRow). not (str_eq t.course_id id)) db.teachers;
        offerings = rows_where (λ o. not (of_course o)) db.offerings;
        courses = rows_where (λ (c : CourseRow). not (str_eq c.id id)) db.courses;
      }

  unfoldable pub is_course_owner : Catalog F → (course_id teacher_id : String) → Bool
  is_course_owner db course_id teacher_id =
      any
        (λ (t : TeacherRow).
          str_eq t.course_id course_id && str_eq t.teacher_id teacher_id && str_eq t.role "owner")
        db.teachers

  unfoldable pub delete_course : TokenParser → Request → Catalog F → Outcome (Unit {0}) × Catalog F
  delete_course parse r db =
      let id = trim_space (get "courseID" r.params) in
      let who = subject_from_bearer parse r in
      if is_empty id
      then (refused 400 "courseID required", db)
      else if not (course_exists id db)
      then (refused 404 "not found", db)
      else if not (str_eq who.role "admin") && not (is_course_owner db id who.sub)
      then (refused 403 "forbidden (not course owner)", db)
      else (served tt, remove_course id db)
