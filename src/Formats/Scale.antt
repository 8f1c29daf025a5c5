-- ===== src/Formats/Scale.antt =====
-- internal/formats/scale.go and internal/formats/sat/scale.go: raw scores to scaled ones.
use mindengage_lms.Prelude.{
  String, Option, none, some, [], ◌∷◌, GoMap, lookup, insert, if◌then◌else◌,
}
use mindengage_lms.Float.{Float64, zero_f}

-- ScaleMapper: its method Scale. A nil mapper is `none`.
abbrev pub ScaleMapper : Type 0 → Type 0
ScaleMapper F = GoMap F → GoMap F

module _ {F : Type 0} where
  unfoldable pub register_scale :
      String
      → Option (ScaleMapper F)
      → GoMap (Option (ScaleMapper F))
      → GoMap (Option (ScaleMapper F))
  register_scale key m registry = insert key m registry

  unfoldable pub apply_scaling : String → GoMap F → GoMap (Option (ScaleMapper F)) → GoMap F
  apply_scaling key raw registry = elim (lookup key registry) [
    | some (some scale) ↦ scale raw
    | _ ↦ raw
  ]

-- `truncate` is float64(int(x)).
module _ {F : Type 0} ⦃fl : Float64 F⦄ (truncate : F → F) where
  abbrev raw_value : String → GoMap F → F
  raw_value key raw = elim (lookup key raw) [ none ↦ zero_f | some v ↦ v ]

  unfoldable pub scale_one : F → F
  scale_one x =
      let y = if fl.lt x zero_f then zero_f else x in
      let z = if fl.lt (fl.of_ℕ 40) y then fl.of_ℕ 40 else y in
      fl.add (fl.of_ℕ 200) (fl.mul (fl.div z (fl.of_ℕ 40)) (fl.of_ℕ 600))

  -- SATScale.Scale
  unfoldable pub sat_scale : GoMap F → GoMap F
  sat_scale raw =
      let rw = scale_one (raw_value "rw_raw" raw) in
      let math = scale_one (raw_value "math_raw" raw) in
      ("rw_scaled", truncate (fl.add rw fl.half))
      ∷ ("math_scaled", truncate (fl.add math fl.half))
      ∷ ("total", truncate (fl.add (fl.add rw math) fl.half))
      ∷ []
