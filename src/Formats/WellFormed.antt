-- ===== src/Formats/WellFormed.antt =====
-- internal/formats/policy.go: which policies ValidatePolicy accepts.
use mindengage_lms.Prelude.{
  ℤ, pos, ltb_ℤ, ◌≤ℤ◌, String, Bool, true, false, ◌≡◌, ◌≢◌, ◌↔◌, inl, inr, refl, ap, ◌∙◌, some,
  List, [], ◌∷◌, map, All, any, Result, ok, ◌>>◌, fail_if, fail_if-eq-ok, >>=-eq-ok, str_eq,
  str_eq_cases, ne→str_eq, arith,
}
use mindengage_lms.Strings.{is_empty}
use mindengage_lms.Formats.Policy.{
  Policy, Section, Module, FormatError, is_seen, validate_modules, validate_sections,
  validate_policy,
}

-- No text stands in the list twice.
abbrev pub Distinct : List String → Type 0
Distinct [] = Unit
Distinct (k ∷ ks) = All (λ j. k ≢ j) ks × Distinct ks

abbrev pub ModuleGood : Module → Type 0
ModuleGood m = (is_empty m.id ≡ false) × (pos 0 ≤ℤ m.time_limit_sec)

-- Every module has an id and no negative time, and no two have one id.
abbrev pub ModulesGood : List Module → Type 0
ModulesGood ms = All ModuleGood ms × Distinct (map (λ m. m.id) ms)

abbrev pub SectionGood : Section → Type 0
SectionGood s = (is_empty s.id ≡ false) × ModulesGood s.modules

abbrev pub IsWellFormed : Policy → Type 0
IsWellFormed pol = All SectionGood pol.sections × Distinct (map (λ s. s.id) pol.sections)

-- What the loops check of the ids: none was seen before it.
abbrev Fresh : (seen ids : List String) → Type 0
Fresh seen [] = Unit
Fresh seen (k ∷ ks) = (is_seen k seen ≡ false) × Fresh (k ∷ seen) ks

abbrev Unseen : (seen ids : List String) → Type 0
Unseen seen ids = All (λ k. is_seen k seen ≡ false) ids

Unseen-cons :
    (j : String) (seen ids : List String)
    → Unseen (j ∷ seen) ids
    → All (λ k. j ≢ k) ids × Unseen seen ids
unfolding is_seen
Unseen-cons j seen [] h = (tt, tt)
Unseen-cons j seen (k ∷ ks) (u, us) =
    let (d, r) = Unseen-cons j seen ks us in
    let fresh : any (λ i. str_eq i k) seen ≡ false = ground arith in
    elim (str_eq_cases j k) [
      | inl (e, p) ↦ absurd (ground arith)
      | inr (e, p) ↦ ((p, d), (fresh, r))
    ]

Unseen-of_parts :
    (j : String) (seen ids : List String)
    → All (λ k. j ≢ k) ids
    → Unseen seen ids
    → Unseen (j ∷ seen) ids
unfolding is_seen
Unseen-of_parts j seen [] d u = tt
Unseen-of_parts j seen (k ∷ ks) (n, ns) (u, us) =
    let e = ne→str_eq j k n in (ground arith, Unseen-of_parts j seen ks ns us)

Fresh-Distinct : (seen ids : List String) → Fresh seen ids → Distinct ids × Unseen seen ids
Fresh-Distinct seen [] h = (tt, tt)
Fresh-Distinct seen (k ∷ ks) (f, fs) =
    let (d, u) = Fresh-Distinct (k ∷ seen) ks fs in
    let (n, r) = Unseen-cons k seen ks u in ((n, d), (f, r))

Distinct-Fresh : (seen ids : List String) → Distinct ids → Unseen seen ids → Fresh seen ids
Distinct-Fresh seen [] d u = tt
Distinct-Fresh seen (k ∷ ks) (n, d) (u, us) =
    (u, Distinct-Fresh (k ∷ seen) ks d (Unseen-of_parts k seen ks n us))

Unseen-nil : (ids : List String) → Unseen [] ids
unfolding is_seen
Unseen-nil [] = tt
Unseen-nil (k ∷ ks) = (refl, Unseen-nil ks)

fail_if-passes :
    (b : Bool) (e : FormatError) (k : Result FormatError (Unit {0}))
    → b ≡ false
    → (fail_if b e >> k) ≡ k
fail_if-passes true e k h = cc
fail_if-passes false e k h = refl

not_negative : (t : ℤ) → (ltb_ℤ t (pos 0) ≡ false) ↔ (pos 0 ≤ℤ t)
not_negative t = (λ h. ground arith, λ h. ground arith)

validate_modules_sound :
    (s : String) (seen : List String) (ms : List Module)
    → validate_modules s seen ms ≡ ok tt
    → All ModuleGood ms × Fresh seen (map (λ m. m.id) ms)
unfolding validate_modules
validate_modules_sound s seen [] h = (tt, tt)
validate_modules_sound s seen (m ∷ ms) h =
    let (a, h1) = fail_if-eq-ok _ _ _ h in
    let (b, h2) = fail_if-eq-ok _ _ _ h1 in
    let (c, h3) = fail_if-eq-ok _ _ _ h2 in
    let (g, f) = validate_modules_sound s (m.id ∷ seen) ms h3 in
    (((a, (not_negative m.time_limit_sec).0 c), g), (b, f))

validate_modules_complete :
    (s : String) (seen : List String) (ms : List Module)
    → All ModuleGood ms
    → Fresh seen (map (λ m. m.id) ms)
    → validate_modules s seen ms ≡ ok tt
unfolding validate_modules
validate_modules_complete s seen [] g f = refl
validate_modules_complete s seen (m ∷ ms) ((a, c), g) (b, f) =
    fail_if-passes _ _ _ a
    ∙ fail_if-passes _ _ _ b
    ∙ fail_if-passes _ _ _ ((not_negative m.time_limit_sec).1 c)
    ∙ validate_modules_complete s (m.id ∷ seen) ms g f

validate_sections_sound :
    (seen : List String) (ss : List Section)
    → validate_sections seen ss ≡ ok tt
    → All SectionGood ss × Fresh seen (map (λ s. s.id) ss)
unfolding validate_sections
validate_sections_sound seen [] h = (tt, tt)
validate_sections_sound seen (s ∷ ss) h =
    let (a, h1) = fail_if-eq-ok _ _ _ h in
    let (b, h2) = fail_if-eq-ok _ _ _ h1 in
    let (u, c, h3) = >>=-eq-ok _ _ h2 in
    let (m, f) = validate_modules_sound s.id [] s.modules c in
    let (g, fs) = validate_sections_sound (s.id ∷ seen) ss h3 in
    (((a, (m, (Fresh-Distinct [] _ f).0)), g), (b, fs))

validate_sections_complete :
    (seen : List String) (ss : List Section)
    → All SectionGood ss
    → Fresh seen (map (λ s. s.id) ss)
    → validate_sections seen ss ≡ ok tt
unfolding validate_sections
validate_sections_complete seen [] g f = refl
validate_sections_complete seen (s ∷ ss) ((a, (m, d)), g) (b, f) =
    fail_if-passes _ _ _ a
    ∙ fail_if-passes _ _ _ b
    ∙ ap (λ r. r >> validate_sections (s.id ∷ seen) ss)
        (validate_modules_complete s.id [] s.modules m (Distinct-Fresh [] _ d (Unseen-nil _)))
    ∙ validate_sections_complete (s.id ∷ seen) ss g f

-- ValidatePolicy accepts exactly the well-formed policies: every section and every module has an
-- id, no two sections have one id, no two modules of a section have one id, and no module has a
-- negative time limit. The profile makes no difference.
pub validate_policy_iff :
    (profile : String) (pol : Policy)
    → (validate_policy profile (some pol) ≡ ok tt) ↔ IsWellFormed pol
unfolding validate_policy
validate_policy_iff profile pol = (
  λ h. let (g, f) = validate_sections_sound [] pol.sections h in (g, (Fresh-Distinct [] _ f).0),
  λ w. validate_sections_complete [] pol.sections w.0 (Distinct-Fresh [] _ w.1 (Unseen-nil _)),
)
