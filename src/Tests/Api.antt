-- ===== src/Tests/Api.antt =====
-- The owner of a concrete attempt.
use mindengage_lms.Prelude.{pos, String, true, ◌≡◌, refl, ◌⊎◌, some}
use mindengage_lms.Rbac.Checker.{has}
use mindengage_lms.Rbac.Require.{
  Context, Handler, served, default_checker, role_from_context, subject_from_context, text_or_empty,
  require_owner_or,
}
use mindengage_lms.Api.Students.{is_attempt_owner}
use mindengage_lms.Api.Owner.{Owns, require_owner_or-Owns}
use mindengage_lms.Tests.Setup.{begun, store_code}

abbrev student : Context
student = record { role = some "student"; subject = some "u1" }

abbrev greet : Handler String
greet ctx = served "hello"

require_owner_or-Owns_example :
    ((has default_checker (role_from_context student) "attempt:view-all" ≡ true)
      ⊎ Owns (pos 1100) "a1" begun student)
    × (greet student ≡ served "hello")
unfolding require_owner_or is_attempt_owner subject_from_context text_or_empty store_code
require_owner_or-Owns_example =
    require_owner_or-Owns (pos 1100) "a1" begun student "attempt:view-all" greet "hello" refl
