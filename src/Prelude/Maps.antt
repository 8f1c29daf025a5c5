-- ===== src/Prelude/Maps.antt =====
-- Go's `map[string]V` as an association list: lookup and assignment.
use Prim.Native.String.{String}
use mathlib.Core.Path.{◌≡◌, refl}
use mathlib.Core.Option.{Option, none, some}
use mathlib.Core.List.{List, [], ◌∷◌}
use native.Mathlib.Omega.{arith}
use mindengage_lms.Prelude.Tests.{str_eq, str_eq_cases, if◌then◌else◌}

abbrev pub GoMap {ℓ} : Type ℓ → Type ℓ
GoMap V = List (String × V)

module _ {ℓ} {V : Type ℓ} where
  unfoldable pub lookup : String → GoMap V → Option V
  lookup k [] = none
  lookup k ((j, v) ∷ m) = if str_eq j k then some v else lookup k m

  unfoldable pub insert : String → V → GoMap V → GoMap V
  insert k v [] = (k, v) ∷ []
  insert k v ((j, w) ∷ m) = if str_eq j k then (k, v) ∷ m else (j, w) ∷ insert k v m

  -- `for k, v := range new { old[k] = v }`
  unfoldable pub insert_all : GoMap V → GoMap V → GoMap V
  insert_all [] old = old
  insert_all ((k, v) ∷ new) old = insert_all new (insert k v old)

  pub lookup-insert :
      (key sought : String) (new : V) (entries : GoMap V)
      → lookup sought (insert key new entries)
        ≡ (if str_eq key sought then some new else lookup sought entries)
  unfolding lookup insert
  lookup-insert key sought new [] = refl
  lookup-insert key sought new ((first, old) ∷ entries) = ground (
    lookup-insert key sought new entries,
    str_eq_cases key sought,
    str_eq_cases first key,
    str_eq_cases first sought,
    arith,
  )
