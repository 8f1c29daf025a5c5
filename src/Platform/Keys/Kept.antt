-- ===== src/Platform/Keys/Kept.antt =====
-- pkg/platform/lti/keys.go: what signing with the storage in memory keeps.
use mindengage_lms.Prelude.{
  ℤ, String, ◌≡◌, ◌≢◌, refl, ◌∙◌, sym, subst, ◌⊎◌, inl, inr, some, List, [], ◌∷◌, GoMap, insert,
  lookup-insert, str_eq_cases, Bool-cases, Option-cases, Result, ok, err, Result-cases, add_ℤ,
  ltb_ℤ, ◌||◌,
}
use mindengage_lms.Strings.{trim_space, is_empty}
use mindengage_lms.Platform.Keys.{
  KeyRecord, KeyCrypto, InMemoryKeys, entries, keys_of, list_keys, save_key, in_memory_storage,
}
use mindengage_lms.Platform.Keys.Manager.{
  KeyManager, first_active, now_of, overlap_of, generate_key, generate_and_save, ensure_current_key,
  sign, saved, then_sign,
}

-- A manager with the storage in memory.
abbrev pub in_memory :
    {K E : Type 0}
    → KeyManager K E (InMemoryKeys K E)
    → (List (KeyRecord K E) → List (KeyRecord K E))
    → KeyManager K E (InMemoryKeys K E)
in_memory km visit = record km { storage = some (in_memory_storage visit) }

module _ {K E : Type 0} where
  -- The map has the key under the kid.
  abbrev pub HasEntry : String → KeyRecord K E → GoMap (KeyRecord K E) → Type 0
  HasEntry kid k [] = ⊥
  HasEntry kid k ((j, w) ∷ m) = ((j ≡ kid) × (w ≡ k)) ⊎ HasEntry kid k m

  -- Each key of the map is under its own kid.
  abbrev pub AllKeyed : GoMap (KeyRecord K E) → Type 0
  AllKeyed [] = Unit
  AllKeyed ((j, w) ∷ m) = (j ≡ w.kid) × AllKeyed m

  HasEntry-insert :
      (kid : String) (k new : KeyRecord K E) (m : GoMap (KeyRecord K E))
      → new.kid ≢ kid
      → HasEntry kid k m
      → HasEntry kid k (insert new.kid new m)
  unfolding insert
  HasEntry-insert kid k new [] ne h = absurd h
  HasEntry-insert kid k new ((j, w) ∷ m) ne h = elim (str_eq_cases j new.kid) [
    | inl (e, p) ↦ rw (insert, e) (elim h [ inl q ↦ absurd (ne (sym p ∙ q.0)) | inr q ↦ inr q ])
    | inr (e, p) ↦
        rw (insert, e) (elim h [ inl q ↦ inl q | inr q ↦ inr (HasEntry-insert kid k new m ne q) ])
  ]

  AllKeyed-insert :
      (new : KeyRecord K E) (m : GoMap (KeyRecord K E))
      → AllKeyed m
      → AllKeyed (insert new.kid new m)
  unfolding insert
  AllKeyed-insert new [] h = (refl, tt)
  AllKeyed-insert new ((j, w) ∷ m) h = elim (str_eq_cases j new.kid) [
    | inl (e, p) ↦ rw (insert, e) (refl, h.1)
    | inr (e, p) ↦ rw (insert, e) (h.0, AllKeyed-insert new m h.1)
  ]

  keys_of-insert_cases :
      (P : GoMap (KeyRecord K E) → Type 0) (tenant other : String) (m : GoMap (KeyRecord K E))
      (s : InMemoryKeys K E)
      → P (keys_of tenant s)
      → (other ≡ tenant → P m)
      → P (keys_of tenant (insert other m s))
  keys_of-insert_cases P tenant other m s old new =
      subst (λ o. P (entries o)) (sym (lookup-insert other tenant m s))
        (elim (str_eq_cases other tenant) [ inl (e, p) ↦ rw e (new p) | inr (e, p) ↦ rw e old ])

  -- What holds of the keys of a tenant after a key was saved, for this tenant or another one.
  save_key_lem :
      (P : GoMap (KeyRecord K E) → Type 0) (tenant other : String) (new : KeyRecord K E)
      (s : InMemoryKeys K E)
      → P (keys_of tenant s)
      → ((m : GoMap (KeyRecord K E)) → P m → P (insert new.kid new m))
      → P (keys_of tenant (save_key other new s).1)
  unfolding save_key
  save_key_lem P tenant other new s h step =
      elim (Bool-cases (is_empty (trim_space other) || is_empty (trim_space new.kid))) [
        | inl e ↦ rw (save_key, e) h
        | inr e ↦
            rw (save_key, e)
              (keys_of-insert_cases P tenant other (insert new.kid new (keys_of other s)) s h
                (λ p. step (keys_of other s) (subst (λ t. P (keys_of t s)) (sym p) h)))
      ]

saved-state :
    {K E S : Type 0} (k : KeyRecord K E) (m : Result String (Unit {0}) × S) → (saved k m).1 ≡ m.1
saved-state k (ok t, s) = refl
saved-state k (err e, s) = refl

then_sign-state :
    {K E C S : Type 0} (crypto : KeyCrypto K E C) (claims : C)
    (m : Result String (KeyRecord K E) × S)
    → (then_sign crypto claims m).1 ≡ m.1
then_sign-state crypto claims (ok k, s) = refl
then_sign-state crypto claims (err e, s) = refl

module _ {K E C : Type 0} (crypto : KeyCrypto K E C) (km : KeyManager K E (InMemoryKeys K E))
    (visit : List (KeyRecord K E) → List (KeyRecord K E)) (P : InMemoryKeys K E → Type 0) where
  -- What holds before the key to sign with is found, and after any key that is generated was saved,
  -- holds after it.
  abbrev Saving : String → ℤ → InMemoryKeys K E → Type 0
  Saving tenant now s =
      (k : KeyRecord K E) → generate_key crypto km now ≡ ok k → P ((save_key tenant k s).1)

  generate_and_save-keeps :
      (tenant : String) (now : ℤ) (s : InMemoryKeys K E)
      → P s
      → Saving tenant now s
      → P ((generate_and_save crypto km (in_memory_storage visit) tenant now s).1)
  unfolding generate_and_save in_memory_storage
  generate_and_save-keeps tenant now s h saving = elim (Result-cases (generate_key crypto km now)) [
    | inr (e, g) ↦ rw (generate_and_save, g) h
    | inl (k, g) ↦
        rw (generate_and_save, in_memory_storage, g)
          (subst P (sym (saved-state k (save_key tenant k s))) (saving k g))
  ]

  pub ensure_current_key-keeps :
      (tenant : String) (now : ℤ) (s : InMemoryKeys K E)
      → P s
      → Saving tenant now s
      → P ((ensure_current_key crypto km (in_memory_storage visit) tenant now s).1)
  unfolding ensure_current_key in_memory_storage
  ensure_current_key-keeps tenant now s h saving =
      let new = generate_and_save-keeps tenant now s h saving in
      elim (Result-cases (list_keys visit tenant s)) [
        | inr (e, l) ↦ rw (ensure_current_key, in_memory_storage, l) h
        | inl (ks, l) ↦ elim (Option-cases (first_active now ks)) [
          | inl f ↦ rw (ensure_current_key, in_memory_storage, l, f) new
          | inr (k, f) ↦ elim (Bool-cases (ltb_ℤ (add_ℤ now (overlap_of km)) k.not_after)) [
            | inl e ↦ rw (ensure_current_key, in_memory_storage, l, f, e) h
            | inr e ↦ rw (ensure_current_key, in_memory_storage, l, f, e) new
          ]
        ]
      ]

-- A call of Sign, with the randomness and the clock that it meets.
pub record SignCall (K E C : Type 0) : Type 0 where
  pub crypto : KeyCrypto K E C
  pub manager : KeyManager K E (InMemoryKeys K E)
  pub visit : List (KeyRecord K E) → List (KeyRecord K E)
  pub wall : ℤ
  pub tenant : String
  pub claims : C

module _ {K E C : Type 0} where
  abbrev pub after_signs : List (SignCall K E C) → InMemoryKeys K E → InMemoryKeys K E
  after_signs [] s = s
  after_signs (c ∷ calls) s =
      after_signs calls ((sign c.crypto (in_memory c.manager c.visit) c.wall c.tenant c.claims s).1)

  -- None of the calls generates a key with the kid.
  abbrev pub NoneTakes : String → List (SignCall K E C) → Type 0
  NoneTakes kid [] = Unit
  NoneTakes kid (c ∷ calls) =
      ((k : KeyRecord K E)
        → generate_key c.crypto (in_memory c.manager c.visit) (now_of c.manager c.wall) ≡ ok k
        → k.kid ≢ kid)
      × NoneTakes kid calls

  sign-HasEntry :
      (c : SignCall K E C) (tenant kid : String) (k : KeyRecord K E) (s : InMemoryKeys K E)
      → NoneTakes kid (c ∷ [])
      → HasEntry kid k (keys_of tenant s)
      → HasEntry kid k (
          keys_of tenant
            ((sign c.crypto (in_memory c.manager c.visit) c.wall c.tenant c.claims s).1))
  unfolding sign now_of
  sign-HasEntry c tenant kid k s none_takes h =
      let km = in_memory c.manager c.visit in
      let P : InMemoryKeys K E → Type 0 = λ t. HasEntry kid k (keys_of tenant t) in
      subst P (sym (then_sign-state c.crypto c.claims _)) (
        ensure_current_key-keeps c.crypto km c.visit P c.tenant (now_of km c.wall) s h (λ new g.
          save_key_lem (HasEntry kid k) tenant c.tenant new s h
            (λ m. HasEntry-insert kid k new m (none_takes.0 new g))))

  -- A key stays in the storage through any calls that do not generate its kid.
  pub after_signs-HasEntry :
      (calls : List (SignCall K E C)) (tenant kid : String) (k : KeyRecord K E)
      (s : InMemoryKeys K E)
      → NoneTakes kid calls
      → HasEntry kid k (keys_of tenant s)
      → HasEntry kid k (keys_of tenant (after_signs calls s))
  after_signs-HasEntry [] tenant kid k s none_takes h = h
  after_signs-HasEntry (c ∷ calls) tenant kid k s none_takes h =
      after_signs-HasEntry calls tenant kid k _ none_takes.1
        (sign-HasEntry c tenant kid k s (none_takes.0, tt) h)

  pub ensure_current_key-AllKeyed :
      (crypto : KeyCrypto K E C) (km : KeyManager K E (InMemoryKeys K E))
      (visit : List (KeyRecord K E) → List (KeyRecord K E)) (tenant : String) (now : ℤ)
      (s : InMemoryKeys K E)
      → AllKeyed (keys_of tenant s)
      → AllKeyed
          (keys_of tenant ((ensure_current_key crypto km (in_memory_storage visit) tenant now s).1))
  ensure_current_key-AllKeyed crypto km visit tenant now s h =
      ensure_current_key-keeps crypto km visit (λ t. AllKeyed (keys_of tenant t)) tenant now s h
        (λ new g. save_key_lem AllKeyed tenant tenant new s h (AllKeyed-insert new))
