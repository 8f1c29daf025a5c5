-- ===== src/Tests/Ephemeral.antt =====
-- A link of an offering, and responses that are graded through it.
use mindengage_lms.Prelude.{ℕ, pos, false, refl, none, some, List, [], ◌∷◌}
use mindengage_lms.Strings.{trim_space, trim_left, trim_right, is_space}
use mindengage_lms.Platform.Http.{Request, get}
use mindengage_lms.Api.Catalog.{Catalog, OfferingRow}
use mindengage_lms.Api.Normalize.{Texts}
use mindengage_lms.Api.Ephemeral.{
  EphemeralGradeResp, StatRow, grade_ephemeral, grade_loop, find_offering, link_refusal, no_items,
}
use mindengage_lms.Api.Ephemeral.Counted.{IsGraded, grade_ephemeral-IsGraded}
use mindengage_lms.Tests.Setup.{
  thousandths, plain_unicode, generous, begun, exam, answers, store_code,
}
use mindengage_lms.Tests.Requests.{request}

abbrev plain_texts : Texts ℕ
plain_texts = record {
  to_int = λ f. pos f;
  of_int = λ n. 0;
  format_int = λ n. "";
  format_float = λ f. "";
  marshal = λ v. "null";
}

abbrev link_request : Request
link_request = record request {
  params = ("offeringID", "o1") ∷ [];
  query = ("access_token", " k1 ") ∷ [];
}

abbrev shared_offering : OfferingRow
shared_offering = record {
  id = "o1";
  exam_id = "e1";
  course_id = "c1";
  assigned_by = "t1";
  start_at = some (pos 1000);
  end_at = none;
  time_limit_sec = none;
  max_attempts = pos 1;
  visibility = "link";
  access_token = some "k1";
}

abbrev shared : Catalog ℕ
shared = record {
  store = begun;
  offering_of = [];
  users = [];
  owners = [];
  courses = [];
  teachers = [];
  students = [];
  offerings = shared_offering ∷ [];
}

-- What the loop gives for the three questions of the exam, one of which has a response.
abbrev looped : EphemeralGradeResp ℕ × List (StatRow ℕ)
looped =
    grade_loop plain_unicode plain_texts generous (pos 1100) "o1" false answers exam.questions
      no_items []

grade_ephemeral-IsGraded_example :
    IsGraded plain_unicode plain_texts generous
      (pos 1100)
      link_request
      shared
      (some answers)
      []
      looped.0
      looped.1
unfolding grade_ephemeral link_refusal find_offering get trim_space trim_left trim_right is_space
    store_code
grade_ephemeral-IsGraded_example =
    grade_ephemeral-IsGraded plain_unicode plain_texts generous (pos 1100) link_request shared
      (some answers) [] looped.1 refl
