-- ===== src/Exam/Routing.antt =====
-- internal/exam/routing.go: the registry of module routers by profile.
use mindengage_lms.Prelude.{
  String, Bool, ◌≡◌, refl, Option, none, some, GoMap, Result, lookup, insert, lookup-insert, str_eq,
  if◌then◌else◌,
}
use mindengage_lms.Strings.{is_empty}
use mindengage_lms.Exam.Models.{Exam, Attempt}

pub record Perf (F : Type 0) : Type 0 where
  pub raw_points : F

-- The interface Router: NextModule returns a module id, empty for the sequential one, or an error.
abbrev pub Router : Type 0 → Type 0
Router F = Exam F → Attempt F → Perf F → Result String String

abbrev pub Routers : Type 0 → Type 0
Routers F = GoMap (Router F)

module _ {F : Type 0} where
  -- A nil router is `none`.
  unfoldable pub register_router : String → Option (Router F) → Routers F → Routers F
  register_router profile none m = m
  register_router profile (some r) m = if is_empty profile then m else insert profile r m

  unfoldable pub router_for_profile : String → Routers F → Option (Router F)
  router_for_profile profile m = lookup profile m

  -- A registered router is the one that its profile finds, and other profiles keep theirs. The
  -- empty profile registers nothing.
  pub router_for_profile-register_router :
      (p q : String) (r : Router F) (m : Routers F)
      → router_for_profile q (register_router p (some r) m) ≡ (
          if is_empty p
          then router_for_profile q m
          else if str_eq p q
          then some r
          else router_for_profile q m)
  unfolding register_router router_for_profile
  router_for_profile-register_router p q r m = go (is_empty p)
    where
      go :
          (e : Bool)
          → lookup q (if e then m else insert p r m)
            ≡ (if e then lookup q m else if str_eq p q then some r else lookup q m)
      go Bool.true = refl
      go Bool.false = lookup-insert p q r m
