-- ===== src/Tests/Rbac.antt =====
-- Patterns of permissions at concrete texts.
use mindengage_lms.Prelude.{String, true, false, ◌≡◌, refl, ◌⊎◌, ◌↔◌, str_eq}
use mindengage_lms.Strings.{has_prefix, has_suffix, trim_suffix}
use mindengage_lms.Rbac.Checker.{match_perm}
use mindengage_lms.Rbac.Patterns.{append, match_perm_iff}

teacher_may_not_submit : match_perm "attempt:view*" "attempt:submit" ≡ false
unfolding match_perm has_prefix has_suffix trim_suffix str_eq
teacher_may_not_submit = refl

abbrev on_attempts : String
on_attempts = "attempt:*"

abbrev grading : String
grading = "attempt:grade"

match_perm_iff_example : (match_perm on_attempts grading ≡ true) ↔ (
    (on_attempts ≡ grading)
    ⊎ ((r : String) × (s : String) × (on_attempts ≡ append r "*") × (grading ≡ append r s)))
match_perm_iff_example = match_perm_iff on_attempts grading
