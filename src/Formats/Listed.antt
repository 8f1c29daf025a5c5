-- ===== src/Formats/Listed.antt =====
-- internal/formats/sat/router.go: what NextModule may answer.
use mindengage_lms.Prelude.{
  ℕ, ◌+◌, String, Bool, true, false, ◌≡◌, refl, sym, subst, ok_inj, Option, none, some, List, [],
  ◌∷◌, get_elem?, Result, ok, err, if◌then◌else◌, not, ◌&&◌, ◌⊎◌, inl, inr, any, str_eq,
  str_eq_cases, Bool-cases, Option-cases,
}
use mindengage_lms.Strings.{trim_space, is_empty}
use mindengage_lms.Float.{Float64}
use mindengage_lms.Formats.SatRouter.{
  ByScore, SatSection, PlaceholderMod, choose_by_score, flatten_modules, has_variant,
  choose_variant, route_module, next_module,
}

-- A test is skipped where it has no id, or else fails.
abbrev pub IsSkipped : String → Bool → Type 0
IsSkipped id test = (is_empty id ≡ true) ⊎ (test ≡ false)

-- An id among the variants, but for outer spaces.
abbrev pub IsVariant : String → List String → Type 0
IsVariant c [] = ⊥
IsVariant c (v ∷ vs) = (trim_space v ≡ trim_space c) ⊎ IsVariant c vs

taken : (a b : Bool) → not a && b ≡ true → (a ≡ false) × (b ≡ true)
taken true b h = cc
taken false b h = (refl, h)

skipped : (id : String) (b : Bool) → not (is_empty id) && b ≡ false → IsSkipped id b
skipped id b h = elim (Bool-cases (is_empty id)) [ inl e ↦ inl e | inr e ↦ inr (rw e at h) ]

any-IsVariant :
    (c : String) (vs : List String)
    → any (λ v. str_eq (trim_space v) (trim_space c)) vs ≡ true
    → IsVariant c vs
any-IsVariant c [] h = cc
any-IsVariant c (v ∷ vs) h = elim (str_eq_cases (trim_space v) (trim_space c)) [
  | inl (e, p) ↦ inl p
  | inr (e, p) ↦ inr (any-IsVariant c vs (rw e at h))
]

module _ {F : Type 0} ⦃fl : Float64 F⦄ where
  -- What a rule gives to a score: the first of its ids for below, not above, above and not below the
  -- threshold that is given and fits, else its default.
  pub data IsRuled (rule : ByScore F) (score : F) (c : String) : Type 0 where
    below :
        is_empty rule.lt_id ≡ false
        → fl.lt score rule.threshold ≡ true
        → c ≡ rule.lt_id
        → IsRuled rule score c
    not_above :
        IsSkipped rule.lt_id (fl.lt score rule.threshold)
        → is_empty rule.lte_id ≡ false
        → fl.le score rule.threshold ≡ true
        → c ≡ rule.lte_id
        → IsRuled rule score c
    above :
        IsSkipped rule.lt_id (fl.lt score rule.threshold)
        → IsSkipped rule.lte_id (fl.le score rule.threshold)
        → is_empty rule.gt_id ≡ false
        → fl.lt rule.threshold score ≡ true
        → c ≡ rule.gt_id
        → IsRuled rule score c
    not_below :
        IsSkipped rule.lt_id (fl.lt score rule.threshold)
        → IsSkipped rule.lte_id (fl.le score rule.threshold)
        → IsSkipped rule.gt_id (fl.lt rule.threshold score)
        → is_empty rule.gte_id ≡ false
        → fl.le rule.threshold score ≡ true
        → c ≡ rule.gte_id
        → IsRuled rule score c
    otherwise :
        IsSkipped rule.lt_id (fl.lt score rule.threshold)
        → IsSkipped rule.lte_id (fl.le score rule.threshold)
        → IsSkipped rule.gt_id (fl.lt rule.threshold score)
        → IsSkipped rule.gte_id (fl.le rule.threshold score)
        → c ≡ rule.default_id
        → IsRuled rule score c

empty_absurd : {c : String} → "" ≡ c → is_empty c ≡ false → ⊥
empty_absurd {c} h e = cc (subst (λ t. is_empty t ≡ false) (sym h) e)

-- A test that was passed on the way to an answer that is not empty.
answered :
    (a b v : Bool) (chosen c : String)
    → (if a then "" else if b then "" else if v then chosen else "") ≡ c
    → is_empty c ≡ false
    → (chosen ≡ c) × (v ≡ true)
answered true b v chosen c h e = absurd (empty_absurd h e)
answered false true v chosen c h e = absurd (empty_absurd h e)
answered false false false chosen c h e = absurd (empty_absurd h e)
answered false false true chosen c h e = (h, refl)

module _ {F : Type 0} ⦃fl : Float64 F⦄ where
  route_module-listed :
      (pm : PlaceholderMod F) (score : F) (c : String)
      → route_module pm score ≡ c
      → is_empty c ≡ false
      → (choose_variant pm score ≡ c) × (has_variant pm c ≡ true)
  unfolding route_module
  route_module-listed pm score c h e =
      let (p, v) = answered _ (is_empty (choose_variant pm score)) _ _ c h e in
      (p, subst (λ t. has_variant pm t ≡ true) p v)

  choose_by_score-IsRuled :
      (rule : ByScore F) (score : F) (c : String)
      → choose_by_score rule score ≡ c
      → IsRuled rule score c
  unfolding choose_by_score
  choose_by_score-IsRuled rule score c h =
      let lt = fl.lt score rule.threshold in
      let le = fl.le score rule.threshold in
      let gt = fl.lt rule.threshold score in
      let ge = fl.le rule.threshold score in
      elim (Bool-cases (not (is_empty rule.lt_id) && lt)) [
        | inl e ↦
            let (p, q) = taken (is_empty rule.lt_id) lt e in
            below p q (sym (rw (choose_by_score, e) at h))
        | inr e ↦ elim (Bool-cases (not (is_empty rule.lte_id) && le)) [
          | inl f ↦
              let (p, q) = taken (is_empty rule.lte_id) le f in
              not_above (skipped rule.lt_id lt e) p q (sym (rw (choose_by_score, e, f) at h))
          | inr f ↦ elim (Bool-cases (not (is_empty rule.gt_id) && gt)) [
            | inl g ↦
                let (p, q) = taken (is_empty rule.gt_id) gt g in
                above (skipped rule.lt_id lt e) (skipped rule.lte_id le f) p q
                  (sym (rw (choose_by_score, e, f, g) at h))
            | inr g ↦ elim (Bool-cases (not (is_empty rule.gte_id) && ge)) [
              | inl k ↦
                  let (p, q) = taken (is_empty rule.gte_id) ge k in
                  not_below (skipped rule.lt_id lt e) (skipped rule.lte_id le f)
                    (skipped rule.gt_id gt g) p q (sym (rw (choose_by_score, e, f, g, k) at h))
              | inr k ↦
                  otherwise (skipped rule.lt_id lt e) (skipped rule.lte_id le f)
                    (skipped rule.gt_id gt g) (skipped rule.gte_id ge k)
                    (sym (rw (choose_by_score, e, f, g, k) at h))
            ]
          ]
        ]
      ]

  choose_variant-IsRuled :
      (pm : PlaceholderMod F) (score : F) (c : String)
      → choose_variant pm score ≡ c
      → is_empty c ≡ false
      → (rule : ByScore F) × (pm.by_score ≡ some rule) × IsRuled rule score c
  unfolding choose_variant
  choose_variant-IsRuled pm score c h e = elim (Option-cases pm.by_score) [
    | inl p ↦ absurd (empty_absurd (rw (choose_variant, p) at h) e)
    | inr (rule, p) ↦ (rule, p, choose_by_score-IsRuled rule score c (rw (choose_variant, p) at h))
  ]

  -- What an answer must be for the module that comes next.
  abbrev pub IsReply : List (PlaceholderMod F) → ℕ → F → String → Type 0
  IsReply ms i score c =
      (pm : PlaceholderMod F) × (rule : ByScore F) × (get_elem? ms (i + 1) ≡ some pm)
      × (pm.by_score ≡ some rule)
      × IsRuled rule score c
      × IsVariant c pm.variants

  next_module-chosen :
      (secs : List (SatSection F)) (i : ℕ) (score : F) (c : String)
      → next_module (some (ok secs)) i score ≡ ok c
      → is_empty c ≡ false
      → (pm : PlaceholderMod F) × (get_elem? (flatten_modules secs) (i + 1) ≡ some pm)
        × (choose_variant pm score ≡ c)
        × (has_variant pm c ≡ true)
  unfolding next_module
  next_module-chosen secs i score c h e = go (flatten_modules secs) h
    where
      routed :
          (o : Option (PlaceholderMod F))
          → elim o as (λ _. Result String String) [
            | none ↦ ok ""
            | some pm ↦ ok (route_module pm score)
          ]
            ≡ ok c
          → (pm : PlaceholderMod F) × (o ≡ some pm)
            × (choose_variant pm score ≡ c)
            × (has_variant pm c ≡ true)
      routed none k = absurd (empty_absurd (ok_inj k) e)
      routed (some pm) k =
          let (p, v) = route_module-listed pm score c (ok_inj k) e in (pm, refl, p, v)

      go :
          (ms : List (PlaceholderMod F))
          → elim ms as (λ _. Result String String) [
            | [] ↦ err "sat: policy has no modules"
            | m ∷ rest ↦ elim (get_elem? (m ∷ rest) (i + 1)) [
              | none ↦ ok ""
              | some pm ↦ ok (route_module pm score)
            ]
          ]
            ≡ ok c
          → (pm : PlaceholderMod F) × (get_elem? ms (i + 1) ≡ some pm)
            × (choose_variant pm score ≡ c)
            × (has_variant pm c ≡ true)
      go [] k = cc
      go (m ∷ rest) k = routed (get_elem? (m ∷ rest) (i + 1)) k

  -- An answer that names a module follows from the routing rule of the module that comes next in the
  -- policy: it is the id for scores below, not above, above or not below the threshold, the first of these
  -- that the rule has and that fits the score, else the default; and it is among that module's variants,
  -- but for outer spaces.
  pub next_module-listed :
      (secs : List (SatSection F)) (i : ℕ) (score : F) (c : String)
      → next_module (some (ok secs)) i score ≡ ok c
      → is_empty c ≡ false
      → IsReply (flatten_modules secs) i score c
  unfolding has_variant
  next_module-listed secs i score c h e =
      let (pm, found, chosen, listed) = next_module-chosen secs i score c h e in
      let (rule, ruled, fits) = choose_variant-IsRuled pm score c chosen e in
      (pm, rule, found, ruled, fits, any-IsVariant c pm.variants listed)
