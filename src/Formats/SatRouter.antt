-- ===== src/Formats/SatRouter.antt =====
-- internal/formats/sat/router.go: the router of adaptive SAT modules. A policy text is what
-- json.Unmarshal reads from it, `err` where it returns an error.
use Prim.Native.String.{◌++◌ as ◌<>◌}
use mindengage_lms.Prelude.{
  ℕ, ◌+◌, String, Bool, true, false, not, ◌&&◌, ◌||◌, Option, none, some, List, [], ◌∷◌, ◌++◌, any,
  get_elem?, Result, ok, err, str_eq, if◌then◌else◌,
}
use mindengage_lms.Strings.{trim_space, is_empty}
use mindengage_lms.Float.{Float64}

pub record ByScore (F : Type 0) : Type 0 where
  pub threshold : F
  pub lt_id : String
  pub lte_id : String
  pub gt_id : String
  pub gte_id : String
  pub default_id : String

pub record PlaceholderMod (F : Type 0) : Type 0 where
  pub id : String
  pub variants : List String
  pub by_score : Option (ByScore F)

pub record SatSection (F : Type 0) : Type 0 where
  pub id : String
  pub modules : List (PlaceholderMod F)

abbrev is_nil : List String → Bool
is_nil [] = true
is_nil (v ∷ vs) = false

module _ {F : Type 0} where
  unfoldable pub flatten_modules : List (SatSection F) → List (PlaceholderMod F)
  flatten_modules [] = []
  flatten_modules (s ∷ secs) = s.modules ++ flatten_modules secs

  unfoldable pub has_variant : PlaceholderMod F → String → Bool
  has_variant pm id = any (λ v. str_eq (trim_space v) (trim_space id)) pm.variants

  unfoldable pub is_zero : Option (ByScore F) → Bool
  is_zero none = true
  is_zero (some r) = false

module _ {F : Type 0} ⦃fl : Float64 F⦄ where
  unfoldable pub choose_by_score : ByScore F → F → String
  choose_by_score rule score =
      if not (is_empty rule.lt_id) && fl.lt score rule.threshold
      then rule.lt_id
      else if not (is_empty rule.lte_id) && fl.le score rule.threshold
      then rule.lte_id
      else if not (is_empty rule.gt_id) && fl.lt rule.threshold score
      then rule.gt_id
      else if not (is_empty rule.gte_id) && fl.le rule.threshold score
      then rule.gte_id
      else rule.default_id

  unfoldable pub choose_variant : PlaceholderMod F → F → String
  choose_variant pm raw_points = elim pm.by_score [
    | none ↦ ""
    | some r ↦ choose_by_score r raw_points
  ]

  -- The choice for the module that comes next; an empty id is the sequential one.
  unfoldable pub route_module : PlaceholderMod F → F → String
  route_module pm raw_points =
      let chosen = choose_variant pm raw_points in
      if is_nil pm.variants || is_zero pm.by_score
      then ""
      else if is_empty chosen
      then ""
      else if has_variant pm chosen
      then chosen
      else ""

  -- Router.NextModule, of the policy text (`none` is the empty one), the attempt's module index
  -- and the raw points.
  unfoldable pub next_module :
      Option (Result String (List (SatSection F))) → ℕ → F → Result String String
  next_module none module_index raw_points = ok ""
  next_module (some (err e)) module_index raw_points = err ("sat: bad policy json: " <> e)
  next_module (some (ok secs)) module_index raw_points = elim (flatten_modules secs) [
    | [] ↦ err "sat: policy has no modules"
    | m ∷ ms ↦ elim (get_elem? (m ∷ ms) (module_index + 1)) [
      | none ↦ ok ""
      | some pm ↦ ok (route_module pm raw_points)
    ]
  ]
