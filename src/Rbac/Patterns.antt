-- ===== src/Rbac/Patterns.antt =====
-- internal/rbac/checker.go: which permissions a pattern accepts.
use Prim.Native.Char.{Char}
use Prim.Native.String.{[], ◌∷◌}
use text.Mathlib.TextEquality.{Char-path}
use native.Mathlib.Omega.{arith}
use mindengage_lms.Prelude.{
  String, true, false, ◌≡◌, ◌≢◌, ◌⊎◌, ◌↔◌, inl, inr, refl, sym, ap, ◌∙◌, str_eq, str_eq_refl,
  str_eq_cases, if◌then◌else◌,
}
use mindengage_lms.Strings.{has_prefix, has_suffix, trim_suffix}
use mindengage_lms.Rbac.Checker.{match_perm}

-- The one text followed by the other.
abbrev pub append : String → String → String
append [] t = t
append (c ∷ s) t = c ∷ append s t

has_prefix-eq-true : (s p : String) → has_prefix s p ≡ true → (t : String) × (s ≡ append p t)
unfolding has_prefix
has_prefix-eq-true s [] h = (s, refl)
has_prefix-eq-true [] (c ∷ p) h = cc
has_prefix-eq-true (d ∷ s) (c ∷ p) h =
    let (t, e) = has_prefix-eq-true s p (ground arith) in (t, cc (Char-path d c (ground arith), e))

has_prefix-append : (p t : String) → has_prefix (append p t) p ≡ true
unfolding has_prefix
has_prefix-append [] t = refl
has_prefix-append (c ∷ p) t = ground (arith, has_prefix-append p t)

not_empty : (r : String) → append r "*" ≢ []
not_empty [] h = cc
not_empty (c ∷ r) h = cc

not_star : (c : Char) (r : String) → str_eq (c ∷ append r "*") "*" ≡ false
not_star c r = elim (str_eq_cases (c ∷ append r "*") "*") [
  | inl (e, p) ↦ absurd (not_empty r (cc))
  | inr (e, p) ↦ e
]

-- A text with the suffix is what is left of it, followed by the suffix.
append-trim_suffix : (s : String) → has_suffix s "*" ≡ true → s ≡ append (trim_suffix s "*") "*"
unfolding has_suffix trim_suffix
append-trim_suffix [] h = ground (arith, str_eq_cases "" "*")
append-trim_suffix (c ∷ s) h = elim (str_eq_cases (c ∷ s) "*") [
  | inl (e, p) ↦ p ∙ ap (λ b. append (if b then "" else c ∷ trim_suffix s "*") "*") (sym e)
  | inr (e, p) ↦
      let rest = append-trim_suffix s (ground arith) in
      ap (λ t. c ∷ t) rest ∙ ap (λ b. append (if b then "" else c ∷ trim_suffix s "*") "*") (sym e)
]

has_suffix-append : (r : String) → has_suffix (append r "*") "*" ≡ true
unfolding has_suffix
has_suffix-append [] = ground (arith, str_eq_refl "*")
has_suffix-append (c ∷ r) = ground (arith, has_suffix-append r)

trim_suffix-append : (r : String) → trim_suffix (append r "*") "*" ≡ r
unfolding trim_suffix
trim_suffix-append [] = ap (λ b. if b then "" else "*") (str_eq_refl "*")
trim_suffix-append (c ∷ r) =
    ap (λ b. if b then "" else c ∷ trim_suffix (append r "*") "*") (not_star c r)
    ∙ ap (λ t. c ∷ t) (trim_suffix-append r)

match_perm-append : (r s : String) → match_perm (append r "*") (append r s) ≡ true
unfolding match_perm
match_perm-append r s = ground (
  arith,
  has_suffix-append r,
  has_prefix-append r s,
  ap (has_prefix (append r s)) (trim_suffix-append r),
)

-- A pattern accepts a permission exactly where it is the permission itself, or ends in a star and
-- the permission begins with what stands before the star.
pub match_perm_iff :
    (pattern perm : String)
    → (match_perm pattern perm ≡ true) ↔ (
        (pattern ≡ perm)
        ⊎ ((r : String) × (s : String) × (pattern ≡ append r "*") × (perm ≡ append r s)))
unfolding match_perm
match_perm_iff pattern perm = (to, from)
  where
    to :
        match_perm pattern perm ≡ true
        → (pattern ≡ perm)
          ⊎ ((r : String) × (s : String) × (pattern ≡ append r "*") × (perm ≡ append r s))
    to h = elim (str_eq_cases pattern "*") [
      | inl (e, p) ↦ inr ("", perm, p, refl)
      | inr (e, p) ↦ elim (str_eq_cases pattern perm) [
        | inl (f, q) ↦ inl q
        | inr (f, q) ↦
            let suffix : has_suffix pattern "*" ≡ true = ground arith in
            let prefix : has_prefix perm (trim_suffix pattern "*") ≡ true = ground arith in
            let (s, w) = has_prefix-eq-true perm (trim_suffix pattern "*") prefix in
            inr (trim_suffix pattern "*", s, append-trim_suffix pattern suffix, w)
      ]
    ]

    from :
        (pattern ≡ perm)
          ⊎ ((r : String) × (s : String) × (pattern ≡ append r "*") × (perm ≡ append r s))
        → match_perm pattern perm ≡ true
    from (inl p) = ground (arith, str_eq_cases pattern perm)
    from (inr (r, s, p, q)) = cc (match_perm-append r s)
