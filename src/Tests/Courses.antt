-- ===== src/Tests/Courses.antt =====
-- Courses and exams of a concrete database, and the calls of a teacher and of a stranger.
use mindengage_lms.Prelude.{
  ℕ, pos, true, false, ◌≡◌, ◌⊎◌, none, some, [], ◌∷◌, ok, err, str_eq, if◌then◌else◌,
}
use mindengage_lms.Platform.Http.{Request}
use mindengage_lms.Api.Catalog.{Catalog, TokenParser, subject_from_bearer}
use mindengage_lms.Api.Courses.{MembersBody}
use mindengage_lms.Api.Courses.Guarded.{co_teachers, after_call, IsGuarded, after_call-IsGuarded}
use mindengage_lms.Api.Teachers.{PolicyReader}
use mindengage_lms.Api.Teachers.Owned.{
  upload, MayChange, IsKept, after_exam_call, after_exam_call-IsKept,
}
use mindengage_lms.Tests.Setup.{plain_unicode, begun, exam}
use mindengage_lms.Tests.Requests.{request}

abbrev parser : TokenParser
parser t =
    if str_eq t "teacher" then ok (record { sub = "t1"; role = "teacher" }) else err "bad token"

abbrev course_request : Request
course_request = record request {
  headers = ("Authorization", "Bearer teacher") ∷ [];
  params = ("courseID", "c1") ∷ [];
}

abbrev catalog : Catalog ℕ
catalog = record {
  store = begun;
  offering_of = [];
  users = "t1" ∷ "t2" ∷ [];
  owners = record { exam_id = "e1"; teacher_id = "t2" } ∷ [];
  courses = record { id = "c1"; name = "Algebra"; created_by = "t1"; created_at = pos 1 } ∷ [];
  teachers = record { course_id = "c1"; teacher_id = "t1"; role = "owner" } ∷ [];
  students = [];
  offerings = [];
}

abbrev colleague : MembersBody
colleague = record { user_ids = "t2" ∷ []; value = "co" }

after_call-IsGuarded_example :
    (after_call plain_unicode parser (co_teachers (some colleague)) course_request catalog
      ≡ catalog)
    ⊎ IsGuarded plain_unicode parser course_request catalog
        (after_call plain_unicode parser (co_teachers (some colleague)) course_request catalog)
after_call-IsGuarded_example =
    after_call-IsGuarded plain_unicode parser (co_teachers (some colleague)) course_request catalog

abbrev reader : PolicyReader
reader = record {
  unmarshal = λ p. (
    record { sections = []; navigation = record { allow_back = false; module_locked = true } },
    none,
  );
  text = λ e. "";
}

after_exam_call-IsKept_example :
    IsKept "e1" catalog (
      after_exam_call plain_unicode reader [] parser course_request
        (upload (pos 2000) "2000" (some exam))
        catalog)
    ⊎ MayChange catalog
        (subject_from_bearer parser course_request)
        (upload (pos 2000) "2000" (some exam))
        "e1"
after_exam_call-IsKept_example =
    after_exam_call-IsKept plain_unicode reader [] parser course_request
      (upload (pos 2000) "2000" (some exam)) "e1" catalog
