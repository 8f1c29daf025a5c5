-- ===== src/Rbac/Require.antt =====
-- internal/rbac/middleware.go: the handlers that let a request pass or answer 403. A request is
-- the role and the subject that its context holds; what the wrapped handler does is `Response`.
use mindengage_lms.Prelude.{String, Bool, not, ◌||◌, Option, none, some, List, if◌then◌else◌}
use mindengage_lms.Strings.{is_empty}
use mindengage_lms.Rbac.Checker.{RolePermissions, new_checker, has, has_any, has_all}

-- The two values that a context holds for the package.
pub record Context : Type 0 where
  pub role : Option String
  pub subject : Option String

unfoldable pub with_role : Context → String → Context
with_role ctx role = record ctx { role = some role }

unfoldable pub with_subject : Context → String → Context
with_subject ctx sub = record ctx { subject = some sub }

unfoldable pub text_or_empty : Option String → String
text_or_empty none = ""
text_or_empty (some s) = s

unfoldable pub role_from_context : Context → String
role_from_context ctx = text_or_empty ctx.role

unfoldable pub subject_from_context : Context → String
subject_from_context ctx = text_or_empty ctx.subject

-- The answer to a request: the refusal, or what the wrapped handler answers.
pub data Answer (Response : Type 0) : Type 0 where
  forbidden : Answer Response
  served : Response → Answer Response

abbrev pub Handler : Type 0 → Type 0
Handler Response = Context → Answer Response

abbrev pub default_checker : RolePermissions
default_checker = new_checker none

module _ {Response : Type 0} where
  unfoldable pub require : String → Handler Response → Handler Response
  require perm next r =
      let role = role_from_context r in
      if is_empty role || not (has default_checker role perm) then forbidden else next r

  unfoldable pub require_any : List String → Handler Response → Handler Response
  require_any perms next r =
      let role = role_from_context r in
      if is_empty role || not (has_any default_checker role perms) then forbidden else next r

  unfoldable pub require_all : List String → Handler Response → Handler Response
  require_all perms next r =
      let role = role_from_context r in
      if is_empty role || not (has_all default_checker role perms) then forbidden else next r

  unfoldable pub require_owner_or :
      String → (is_owner : Context → Bool) → Handler Response → Handler Response
  require_owner_or perm is_owner next r =
      let role = role_from_context r in
      if is_owner r || has default_checker role perm then next r else forbidden
