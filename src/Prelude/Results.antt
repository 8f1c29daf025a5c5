-- ===== src/Prelude/Results.antt =====
-- Go's `(value, error)` results, and the `do` notation for chains of early returns.
use mathlib.Core.Path.{◌≡◌, refl}
use mathlib.Core.Logic.{◌⊎◌, inl, inr}
use mathlib.Core.Bool.{Bool, true, false}
use mathlib.Core.Option.{Option, none, some}

pub data Result {ℓ κ} (E : Type κ) (A : Type ℓ) : Type (ℓ ⊔ κ) where
  ok : A → Result E A
  err : E → Result E A

infixl 5 ◌>>=◌ ◌>>◌
abbrev pub ◌>>=◌ {ℓ κ ι} :
    {E : Type ι} {A : Type ℓ} {B : Type κ} → Result E A → (A → Result E B) → Result E B
err failure >>= rest = err failure
ok x >>= rest = rest x

abbrev pub ◌>>◌ {ℓ ι} : {E : Type ι} {B : Type ℓ} → Result E (Unit {0}) → Result E B → Result E B
m >> k = m >>= λ _. k

-- `if test { return e }`
abbrev pub fail_if {ι} : {E : Type ι} → Bool → E → Result E (Unit {0})
fail_if true e = err e
fail_if false e = ok tt

-- The error that a missing value stands for.
abbrev pub required {ℓ ι} : {E : Type ι} {A : Type ℓ} → Option A → E → Result E A
required none e = err e
required (some a) e = ok a

-- A chain that returned a value: its first step returned one, and so did the rest.
module _ {ℓ κ ι} {E : Type ι} {A : Type ℓ} {B : Type κ} where
  pub >>=-eq-ok :
      (step : Result E A) (rest : A → Result E B) {y : B}
      → (step >>= rest) ≡ ok y
      → (x : A) × (step ≡ ok x) × (rest x ≡ ok y)
  >>=-eq-ok (err failure) rest p = cc
  >>=-eq-ok (ok x) rest p = (x, refl, p)

pub Result-cases {ℓ ι} :
    {E : Type ι} {A : Type ℓ} (m : Result E A) → ((a : A) × (m ≡ ok a)) ⊎ ((e : E) × (m ≡ err e))
Result-cases (ok a) = inl (a, refl)
Result-cases (err e) = inr (e, refl)

pub required-eq-ok {ℓ ι} :
    {E : Type ι} {A : Type ℓ} (o : Option A) (e : E) {a : A} → required o e ≡ ok a → o ≡ some a
required-eq-ok none e h = cc
required-eq-ok (some b) e h = cc

pub ok_inj {ℓ ι} : {E : Type ι} {A : Type ℓ} {a b : A} → ◌≡◌ {A = Result E A} (ok a) (ok b) → a ≡ b
ok_inj h = cc

-- A guard that was passed.
pub fail_if-eq-ok {ℓ ι} :
    {E : Type ι} {A : Type ℓ} (b : Bool) (e : E) (k : Result E A) {a : A}
    → (fail_if b e >> k) ≡ ok a
    → (b ≡ false) × (k ≡ ok a)
fail_if-eq-ok true e k h = cc
fail_if-eq-ok false e k h = (refl, h)

-- Where a chain that returns an error has failed.
pub >>=-eq-err {ℓ κ ι} :
    {E : Type ι} {A : Type ℓ} {B : Type κ} (m : Result E A) (f : A → Result E B) {e : E}
    → (m >>= f) ≡ err e
    → (m ≡ err e) ⊎ ((a : A) × (m ≡ ok a) × (f a ≡ err e))
>>=-eq-err (ok a) f h = inr (a, refl, h)
>>=-eq-err (err d) f h = inl (cc)

pub fail_if-eq-err {ℓ ι} :
    {E : Type ι} {A : Type ℓ} (b : Bool) (d : E) (k : Result E A) {e : E}
    → (fail_if b d >> k) ≡ err e
    → (d ≡ e) ⊎ ((b ≡ false) × (k ≡ err e))
fail_if-eq-err true d k h = inl (cc)
fail_if-eq-err false d k h = inr (refl, h)

pub required-eq-err {ℓ ι} :
    {E : Type ι} {A : Type ℓ} (o : Option A) (d : E) {e : E}
    → required o d ≡ err e
    → (o ≡ none) × (d ≡ e)
required-eq-err none d h = (refl, cc)
required-eq-err (some b) d h = cc

-- The error of a call that failed, whatever it was.
abbrev pub or_fail {ℓ ι κ} : {E : Type ι} {F : Type κ} {A : Type ℓ} → Result E A → F → Result F A
or_fail (ok a) e = ok a
or_fail (err _) e = err e

pub or_fail-eq-ok {ℓ ι κ} :
    {E : Type ι} {F : Type κ} {A : Type ℓ} (m : Result E A) (e : F) {a : A}
    → or_fail m e ≡ ok a
    → m ≡ ok a
or_fail-eq-ok (ok x) e h = cc
or_fail-eq-ok (err x) e h = cc

-- The two ends of a step that also changes a state.
pub run_cases {ℓ ι κ} :
    {E : Type ι} {A : Type ℓ} {S : Type κ} (m : Result E A × S)
    → ((a : A) × (s : S) × (m ≡ (ok a, s))) ⊎ ((e : E) × (s : S) × (m ≡ (err e, s)))
run_cases (ok a, s) = inl (a, s, refl)
run_cases (err e, s) = inr (e, s, refl)
