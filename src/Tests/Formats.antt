-- ===== src/Tests/Formats.antt =====
-- Policies of the test formats at concrete values.
use mindengage_lms.Prelude.{
  ℕ, pos, true, false, ◌≡◌, refl, ◌↔◌, none, some, List, [], ◌∷◌, ok, str_eq,
}
use mindengage_lms.Strings.{trim_space, trim_left, trim_right, is_space}
use mindengage_lms.Formats.Policy.{Policy, validate_policy}
use mindengage_lms.Formats.WellFormed.{IsWellFormed, validate_policy_iff}
use mindengage_lms.Formats.SatRouter.{
  SatSection, PlaceholderMod, flatten_modules, has_variant, choose_variant, choose_by_score,
  route_module, next_module, is_zero,
}
use mindengage_lms.Formats.Listed.{IsReply, next_module-listed}
use mindengage_lms.Tests.Setup.{thousandths}

abbrev two_modules : Policy
two_modules = record {
  sections =
      record {
        id = "rw";
        title = "";
        modules =
            record { id = "rw-m1"; time_limit_sec = pos 2340 }
            ∷ record { id = "rw-m2"; time_limit_sec = pos 0 }
            ∷ [];
      }
      ∷ [];
  navigation = record { allow_back = false; module_locked = true };
}

validate_policy_iff_example :
    (validate_policy "sat.v1" (some two_modules) ≡ ok tt) ↔ IsWellFormed two_modules
validate_policy_iff_example = validate_policy_iff "sat.v1" two_modules

abbrev easy_or_hard : PlaceholderMod ℕ
easy_or_hard = record {
  id = "rw-m2";
  variants = "rw-m2-easy" ∷ "rw-m2-hard" ∷ [];
  by_score = some (record {
    threshold = 18000;
    lt_id = "";
    lte_id = "rw-m2-easy";
    gt_id = "rw-m2-hard";
    gte_id = "";
    default_id = "";
  });
}

abbrev adaptive : List (SatSection ℕ)
adaptive =
    record {
      id = "rw";
      modules = record { id = "rw-m1"; variants = []; by_score = none } ∷ easy_or_hard ∷ [];
    }
    ∷ []

hard_module : next_module (some (ok adaptive)) 0 20000 ≡ ok "rw-m2-hard"
unfolding next_module route_module flatten_modules has_variant choose_variant choose_by_score
    is_zero trim_space trim_left trim_right is_space str_eq
hard_module = refl

next_module-listed_example : IsReply (flatten_modules adaptive) 0 20000 "rw-m2-hard"
next_module-listed_example = next_module-listed adaptive 0 20000 "rw-m2-hard" hard_module refl
