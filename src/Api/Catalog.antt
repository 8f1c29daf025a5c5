-- ===== src/Api/Catalog.antt =====
-- The tables of courses, offerings and owners (internal/db/connect.go) that the handlers of
-- internal/api/http read and write beside those of the exam store. The references between tables hold.
use mindengage_lms.Prelude.{
  ℤ, String, Bool, ◌&&◌, Option, List, [], ◌∷◌, any, GoMap, Result, ok, err, str_eq, if◌then◌else◌,
}
use mindengage_lms.Strings.{has_prefix, trim_prefix}
use mindengage_lms.Exam.Models.{Db}
use mindengage_lms.Platform.Http.{Request, get}

pub record CourseRow : Type 0 where
  pub id : String
  pub name : String
  pub created_by : String
  pub created_at : ℤ

pub record TeacherRow : Type 0 where
  pub course_id : String
  pub teacher_id : String
  pub role : String

pub record StudentRow : Type 0 where
  pub course_id : String
  pub student_id : String
  pub status : String

pub record OfferingRow : Type 0 where
  pub id : String
  pub exam_id : String
  pub course_id : String
  pub assigned_by : String
  pub start_at : Option ℤ
  pub end_at : Option ℤ
  pub time_limit_sec : Option ℤ
  pub max_attempts : ℤ
  pub visibility : String
  pub access_token : Option String

-- A row of exam_owners.
pub record OwnerRow : Type 0 where
  pub exam_id : String
  pub teacher_id : String

-- The database: the tables of the store; of the table users the ids; and the column offering_id of
-- attempts, by the id of the attempt; an entry without its attempt is void.
pub record Catalog (F : Type 0) : Type 0 where
  pub store : Db F
  pub offering_of : GoMap String
  pub users : List String
  pub owners : List OwnerRow
  pub courses : List CourseRow
  pub teachers : List TeacherRow
  pub students : List StudentRow
  pub offerings : List OfferingRow

-- The claims that AuthService.Parse returns: what the JWT library reads from a token with a right
-- signature.
pub record UserClaims : Type 0 where
  pub sub : String
  pub role : String

abbrev pub TokenParser : Type 0
TokenParser = String → Result String UserClaims

abbrev claims_or_none : Result String UserClaims → UserClaims
claims_or_none (ok claims) = claims
claims_or_none (err e) = record { sub = ""; role = "" }

-- subjectFromBearer and subjectAndRole
unfoldable pub subject_from_bearer : TokenParser → Request → UserClaims
unfolding get has_prefix trim_prefix
subject_from_bearer parse r =
    let h = get "Authorization" r.headers in
    if has_prefix h "Bearer "
    then claims_or_none (parse (trim_prefix h "Bearer "))
    else record { sub = ""; role = "" }

abbrev pub has_id : String → List String → Bool
has_id id ids = any (λ i. str_eq i id) ids

module _ {A : Type 0} where
  -- INSERT ... ON CONFLICT DO UPDATE of a row that has no other column; it is refused where the row is
  -- new and may not be inserted.
  unfoldable pub upsert : (is_row : A → Bool) → (may_insert : Bool) → (new : A) → List A → List A
  upsert is_row may_insert new [] = if may_insert then new ∷ [] else []
  upsert is_row may_insert new (r ∷ rows) =
      let rest = upsert is_row may_insert new rows in if is_row r then new ∷ rows else r ∷ rest

  -- INSERT ... ON CONFLICT DO NOTHING
  unfoldable pub insert_if_new :
      (is_row : A → Bool) → (may_insert : Bool) → (new : A) → List A → List A
  insert_if_new is_row may_insert new [] = if may_insert then new ∷ [] else []
  insert_if_new is_row may_insert new (r ∷ rows) =
      let rest = insert_if_new is_row may_insert new rows in if is_row r then r ∷ rows else r ∷ rest

  -- The rows that a test holds for, as a SELECT or, negated, a DELETE leaves them.
  unfoldable pub rows_where : (A → Bool) → List A → List A
  rows_where p [] = []
  rows_where p (r ∷ rows) = let rest = rows_where p rows in if p r then r ∷ rest else rest

module _ {F : Type 0} where
  unfoldable pub is_course_teacher : Catalog F → (user_id course_id : String) → Bool
  is_course_teacher db user_id course_id =
      any (λ (t : TeacherRow). str_eq t.course_id course_id && str_eq t.teacher_id user_id)
        db.teachers

  unfoldable pub is_course_student : Catalog F → (user_id course_id : String) → Bool
  is_course_student db user_id course_id =
      any
        (λ (s : StudentRow).
          str_eq s.course_id course_id && str_eq s.student_id user_id && str_eq s.status "active")
        db.students

  abbrev pub course_exists : String → Catalog F → Bool
  course_exists id db = any (λ (c : CourseRow). str_eq c.id id) db.courses
