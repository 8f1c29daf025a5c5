-- ===== src/Api/Owner.antt =====
-- internal/api/http/student_handlers.go with internal/rbac/middleware.go: who passes as the owner.
use mindengage_lms.Prelude.{
  ℤ, String, true, false, not, ◌≡◌, sym, ap, ◌∙◌, ◌⊎◌, inl, inr, some, Bool-cases, Option-cases,
  str_eq, str_eq_cases, &&-eq-true, arith,
}
use mindengage_lms.Strings.{is_empty}
use mindengage_lms.Exam.Models.{AttemptRow, Db}
use mindengage_lms.Exam.Store.{find_attempt}
use mindengage_lms.Exam.Attempts.{get_attempt, view_attempt}
use mindengage_lms.Rbac.Checker.{has}
use mindengage_lms.Rbac.Require.{
  Context, served, Handler, default_checker, role_from_context, subject_from_context,
  require_owner_or,
}
use mindengage_lms.Api.Students.{is_attempt_owner}

module _ {F : Type 0} (now : ℤ) (id : String) (db : Db F) (ctx : Context) where
  -- The attempt is in the table, and its user is the subject of the request, which is not empty.
  abbrev pub Owns : Type 0
  Owns =
      (row : AttemptRow F) × (find_attempt id db.attempts ≡ some row)
      × (subject_from_context ctx ≡ row.user_id)
      × (is_empty row.user_id ≡ false)

  is_attempt_owner-Owns : is_attempt_owner now id db ctx ≡ true → Owns
  unfolding is_attempt_owner get_attempt view_attempt
  is_attempt_owner-Owns h = elim (Option-cases (find_attempt id db.attempts)) [
    | inl e ↦ absurd (cc (rw (is_attempt_owner, get_attempt, e) at h))
    | inr (row, e) ↦
        let sub = subject_from_context ctx in
        let (n, q) =
          &&-eq-true (not (is_empty sub)) (str_eq sub row.user_id)
            (rw (is_attempt_owner, get_attempt, e) at h) in
        elim (str_eq_cases sub row.user_id) [
          | inl (_, p) ↦ (row, e, p, sym (ap is_empty p) ∙ ground arith)
          | inr (f, _) ↦ absurd (cc (q, f))
        ]
  ]

  -- A handler behind RequireOwnerOr with IsAttemptOwner answers only a request whose role has the
  -- permission, or whose subject is the user of the attempt that its path names.
  pub require_owner_or-Owns :
      {Response : Type 0} (perm : String) (next : Handler Response) (a : Response)
      → require_owner_or perm (is_attempt_owner now id db) next ctx ≡ served a
      → ((has default_checker (role_from_context ctx) perm ≡ true) ⊎ Owns) × (next ctx ≡ served a)
  unfolding require_owner_or
  require_owner_or-Owns perm next a h = elim (Bool-cases (is_attempt_owner now id db ctx)) [
    | inl o ↦ (inr (is_attempt_owner-Owns o), rw (require_owner_or, o) at h)
    | inr o ↦ elim (Bool-cases (has default_checker (role_from_context ctx) perm)) [
      | inl p ↦ (inl p, rw (require_owner_or, o, p) at h)
      | inr p ↦ absurd (cc (rw (require_owner_or, o, p) at h))
    ]
  ]
