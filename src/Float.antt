-- ===== src/Float.antt =====
-- Go's float64, as a parameter: its operations and comparisons, and as hypotheses of some theorems
-- the laws of IEEE 754 that the program relies on.
use mindengage_lms.Prelude.{ℕ, String, Bool, Option}

pub record Float64 (F : Type 0) : Type 0 where
  pub of_ℕ : ℕ → F
  pub half : F
  pub minus_one : F
  pub add : F → F → F
  pub sub : F → F → F
  pub mul : F → F → F
  pub div : F → F → F
  pub abs : F → F
  -- `a < b` and `a <= b`
  pub lt : F → F → Bool
  pub le : F → F → Bool
  -- strconv.ParseFloat, `none` where it returns an error
  pub parse : String → Option F

abbrev pub zero_f : {F : Type 0} ⦃fl : Float64 F⦄ → F
zero_f ⦃fl⦄ = fl.of_ℕ 0
