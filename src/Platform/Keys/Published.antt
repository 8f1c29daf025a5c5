-- ===== src/Platform/Keys/Published.antt =====
-- pkg/platform/lti/keys.go: a key that signs is published for as long as its signatures may be checked.
use Prim.Native.String.{◌++◌ as ◌<>◌}
use mindengage_lms.Prelude.{
  ℤ, pos, leb_ℤ, ltb_ℤ, add_ℤ, String, true, false, not, ◌&&◌, ◌||◌, ◌≡◌, refl, ap, ◌∙◌, sym, subst,
  ◌⊎◌, inl, inr, Option, none, some, List, [], ◌∷◌, GoMap, lookup, insert, lookup-insert, str_eq,
  str_eq_refl, Bool-cases, Option-cases, Result, ok, err, Result-cases, ◌≤ℤ◌, ok_inj, required,
  >>=-eq-ok, required-eq-ok, ◌==◌, ℕ, if◌then◌else◌, arith,
}
use mindengage_lms.Strings.{trim_space, is_empty}
use mindengage_lms.Strings.Split.{text_le}
use mindengage_lms.Platform.Jwks.{
  PublicJwk, kid_of, rsa_public_jwk, rsa_jwk, big_int_to_b64, int_to_b64,
}
use mindengage_lms.Platform.Keys.{
  KeyRecord, KeyCrypto, InMemoryKeys, is_active, public_of, values, entries, keys_of, list_keys,
  save_key, in_memory_storage,
}
use mindengage_lms.Platform.Keys.Kept.{
  in_memory, HasEntry, AllKeyed, SignCall, NoneTakes, after_signs, after_signs-HasEntry,
  ensure_current_key-AllKeyed,
}
use mindengage_lms.Platform.Keys.Manager.{
  KeyManager, insert_by_kid, sort_by_kid, first_active, visible_jwks, cons_some, now_of, alg_of,
  rotate_every, overlap_of, generate_key, generate_and_save, ensure_current_key, sign_jwt, sign,
  public_jwks, rsa_bits, saved, signature_of, then_sign,
}

module _ {A : Type 0} where
  abbrev pub IsMember : A → List A → Type 0
  IsMember a [] = ⊥
  IsMember a (x ∷ xs) = (x ≡ a) ⊎ IsMember a xs

  IsMember-cons_some :
      (a : A) (o : Option A) (xs : List A) → IsMember a xs → IsMember a (cons_some o xs)
  IsMember-cons_some a none xs h = h
  IsMember-cons_some a (some x) xs h = inr h

some_inj : {A : Type 0} {a b : A} → ◌≡◌ {A = Option A} (some a) (some b) → a ≡ b
some_inj h = cc

insert_by_kid-IsMember :
    (a k : PublicJwk) (js : List PublicJwk) → IsMember a (k ∷ js) → IsMember a (insert_by_kid k js)
unfolding insert_by_kid
insert_by_kid-IsMember a k [] h = h
insert_by_kid-IsMember a k (j ∷ js) h = elim (Bool-cases (text_le (kid_of j) (kid_of k))) [
  | inl e ↦ rw e h
  | inr e ↦ rw e (elim h [
    | inl p ↦ inr (insert_by_kid-IsMember a k js (inl p))
    | inr q ↦ elim q [ inl p ↦ inl p | inr p ↦ inr (insert_by_kid-IsMember a k js (inr p)) ]
  ])
]

sort_by_kid-IsMember :
    (a : PublicJwk) (ks : List PublicJwk) → IsMember a ks → IsMember a (sort_by_kid ks)
unfolding sort_by_kid
sort_by_kid-IsMember a [] h = h
sort_by_kid-IsMember a (k ∷ ks) h =
    insert_by_kid-IsMember a k (sort_by_kid ks)
      (elim h [ inl p ↦ inl p | inr p ↦ inr (sort_by_kid-IsMember a ks p) ])

module _ {K E : Type 0} where
  values-insert :
      (kid : String) (k : KeyRecord K E) (m : GoMap (KeyRecord K E))
      → IsMember k (values (insert kid k m))
  unfolding insert
  values-insert kid k [] = inl refl
  values-insert kid k ((j, w) ∷ m) = elim (Bool-cases (str_eq j kid)) [
    | inl e ↦ rw e (inl refl)
    | inr e ↦ rw e (inr (values-insert kid k m))
  ]

  IsMember-HasEntry :
      (k : KeyRecord K E) (m : GoMap (KeyRecord K E))
      → AllKeyed m
      → IsMember k (values m)
      → HasEntry k.kid k m
  IsMember-HasEntry k [] keyed h = absurd h
  IsMember-HasEntry k ((j, w) ∷ m) keyed h = elim h [
    | inl p ↦ inl (keyed.0 ∙ ap (λ (x : KeyRecord K E). x.kid) p, p)
    | inr p ↦ inr (IsMember-HasEntry k m keyed.1 p)
  ]

  HasEntry-IsMember :
      (kid : String) (k : KeyRecord K E) (m : GoMap (KeyRecord K E))
      → HasEntry kid k m
      → IsMember k (values m)
  HasEntry-IsMember kid k [] h = absurd h
  HasEntry-IsMember kid k ((j, w) ∷ m) h = elim h [
    | inl p ↦ inl p.1
    | inr p ↦ inr (HasEntry-IsMember kid k m p)
  ]

  first_active-eq-some :
      (now : ℤ) (ks : List (KeyRecord K E)) {k : KeyRecord K E}
      → first_active now ks ≡ some k
      → IsMember k ks × (is_active k now ≡ true)
  unfolding first_active
  first_active-eq-some now [] h = cc
  first_active-eq-some now (x ∷ ks) {k} h = elim (Bool-cases (is_active x now)) [
    | inl e ↦
        let p = some_inj (rw (first_active, e) at h) in
        (inl p, subst (λ y. is_active y now ≡ true) p e)
    | inr e ↦ let (p, q) = first_active-eq-some now ks (rw (first_active, e) at h) in (inr p, q)
  ]

  -- A key that is in its time is among the published ones.
  visible_jwks-IsMember :
      {C : Type 0} (crypto : KeyCrypto K E C) (now overlap : ℤ) (ks : List (KeyRecord K E))
      (k : KeyRecord K E) {jwk : PublicJwk}
      → IsMember k ks
      → public_of crypto k ≡ some jwk
      → ltb_ℤ now k.not_before ≡ false
      → ltb_ℤ (add_ℤ k.not_after overlap) now ≡ false
      → IsMember jwk (visible_jwks crypto now overlap ks)
  unfolding visible_jwks
  visible_jwks-IsMember crypto now overlap [] k m p a b = absurd m
  visible_jwks-IsMember crypto now overlap (x ∷ ks) k {jwk} m p a b = elim m [
    | inl q ↦
        subst
          (λ y. IsMember jwk (
            if ltb_ℤ now y.not_before
            then visible_jwks crypto now overlap ks
            else if ltb_ℤ (add_ℤ y.not_after overlap) now
            then visible_jwks crypto now overlap ks
            else cons_some (public_of crypto y) (visible_jwks crypto now overlap ks)))
          (sym q) (rw (a, b, p) (inl refl))
    | inr q ↦
        let rest = visible_jwks-IsMember crypto now overlap ks k q p a b in
        elim (Bool-cases (ltb_ℤ now x.not_before)) [
          | inl e ↦ rw e rest
          | inr e ↦ elim (Bool-cases (ltb_ℤ (add_ℤ x.not_after overlap) now)) [
            | inl f ↦ rw (e, f) rest
            | inr f ↦ rw (e, f) (IsMember-cons_some jwk (public_of crypto x) _ rest)
          ]
        ]
  ]

-- How `range` goes through the entries of a map: through all of them, and no others.
pub record IsRange {K E : Type 0} (visit : List (KeyRecord K E) → List (KeyRecord K E))
    : Type 0 where
  pub visits :
      (k : KeyRecord K E) (ks : List (KeyRecord K E)) → IsMember k ks → IsMember k (visit ks)
  pub adds_none :
      (k : KeyRecord K E) (ks : List (KeyRecord K E)) → IsMember k (visit ks) → IsMember k ks

module _ {K E : Type 0} (visit : List (KeyRecord K E) → List (KeyRecord K E))
    (h : IsRange visit) where
  listed :
      (o : Option (GoMap (KeyRecord K E)))
      → (ks : List (KeyRecord K E)) × (◌≡◌ {A = Result String (List (KeyRecord K E))}
          (elim o [ none ↦ ok [] | some m ↦ ok (visit (values m)) ])
          (ok ks))
        × ((k : KeyRecord K E) → IsMember k ks → IsMember k (values (entries o)))
        × ((k : KeyRecord K E) → IsMember k (values (entries o)) → IsMember k ks)
  listed none = ([], refl, (λ k m. m), (λ k m. m))
  listed (some m) =
      (visit (values m), refl, (λ k. h.adds_none k (values m)), (λ k. h.visits k (values m)))

  list_keys-members :
      (tenant : String) (s : InMemoryKeys K E)
      → (ks : List (KeyRecord K E)) × (list_keys visit tenant s ≡ ok ks)
        × ((k : KeyRecord K E) → IsMember k ks → IsMember k (values (keys_of tenant s)))
        × ((k : KeyRecord K E) → IsMember k (values (keys_of tenant s)) → IsMember k ks)
  unfolding list_keys
  list_keys-members tenant s = listed (lookup tenant s)

keys_of-insert :
    {K E : Type 0} (tenant : String) (m : GoMap (KeyRecord K E)) (s : InMemoryKeys K E)
    → keys_of tenant (insert tenant m s) ≡ m
keys_of-insert {K} {E} tenant m s = ap entries (
    lookup-insert tenant tenant m s
    ∙ ap (λ b. if b then some m else lookup tenant s) (str_eq_refl tenant))

save_key-eq-ok :
    {K E : Type 0} (tenant : String) (k : KeyRecord K E) (s s' : InMemoryKeys K E) {t : Unit {0}}
    → save_key tenant k s ≡ (ok t, s')
    → IsMember k (values (keys_of tenant s'))
unfolding save_key
save_key-eq-ok tenant k s s' h =
    elim (Bool-cases (is_empty (trim_space tenant) || is_empty (trim_space k.kid))) [
      | inl e ↦ absurd (cc (rw (save_key, e) at h))
      | inr e ↦
          let p : insert tenant (insert k.kid k (keys_of tenant s)) s ≡ s' =
            ap (λ p. p.1) (rw (save_key, e) at h) in
          subst (λ db. IsMember k (values (keys_of tenant db))) p
            (subst (λ m. IsMember k (values m)) (sym (keys_of-insert tenant _ s))
              (values-insert k.kid k (keys_of tenant s)))
    ]

pair_inj :
    {A B : Type 0} {a a' : A} {b b' : B}
    → ◌≡◌ {A = Result String A × B} (ok a, b) (ok a', b')
    → (a ≡ a') × (b ≡ b')
pair_inj {A} {B} h = (ok_inj (ap (λ (p : Result String A × B). p.0) h), ap (λ p. p.1) h)

module _ {K E C S : Type 0} (crypto : KeyCrypto K E C) (km : KeyManager K E S) where
  rotate_every-is_positive : ltb_ℤ (pos 0) (rotate_every km) ≡ true
  unfolding rotate_every
  rotate_every-is_positive = elim (Bool-cases (leb_ℤ km.rotation_interval (pos 0))) [
    | inl e ↦ rw e refl
    | inr e ↦ rw e (ground arith)
  ]

  later :
      (now d : ℤ) → ltb_ℤ (pos 0) d ≡ true → not (ltb_ℤ now now) && ltb_ℤ now (add_ℤ now d) ≡ true
  unfolding add_ℤ
  later now d h = ground arith

  generate_key-active :
      (now : ℤ) {k : KeyRecord K E} → generate_key crypto km now ≡ ok k → is_active k now ≡ true
  unfolding is_active generate_key
  generate_key-active now {k} h = elim (Bool-cases (str_eq (alg_of km) "RS256")) [
    | inr e ↦ absurd (cc (rw (generate_key, e) at h))
    | inl e ↦ elim (Result-cases (crypto.generate_rsa (rsa_bits km))) [
      | inr (d, g) ↦ absurd (cc (rw (generate_key, e, g) at h))
      | inl (key, g) ↦
          subst (λ k. is_active k now ≡ true) (ok_inj (rw (generate_key, e, g) at h))
            (later now (rotate_every km) rotate_every-is_positive)
    ]
  ]

saved-eq-ok :
    {K E S : Type 0} (k₀ : KeyRecord K E) (m : Result String (Unit {0}) × S) {k : KeyRecord K E}
    {s' : S}
    → saved k₀ m ≡ (ok k, s')
    → (k₀ ≡ k) × (m ≡ (ok tt, s'))
saved-eq-ok k₀ (ok t, s) h = let (p, q) = pair_inj h in (p, ap (λ s. (ok t, s)) q)
saved-eq-ok k₀ (err e, s) h = absurd (cc (ap (λ p. p.0) h))

module _ {K E C : Type 0} (crypto : KeyCrypto K E C) (km : KeyManager K E (InMemoryKeys K E))
    (visit : List (KeyRecord K E) → List (KeyRecord K E)) where
  generate_and_save-eq-ok :
      (tenant : String) (now : ℤ) (s s' : InMemoryKeys K E) {k : KeyRecord K E}
      → generate_and_save crypto km (in_memory_storage visit) tenant now s ≡ (ok k, s')
      → (is_active k now ≡ true) × IsMember k (values (keys_of tenant s'))
  unfolding generate_and_save in_memory_storage
  generate_and_save-eq-ok tenant now s s' {k} h = elim (Result-cases (generate_key crypto km now)) [
    | inr (e, g) ↦ absurd (cc (rw (generate_and_save, g) at h))
    | inl (k₀, g) ↦
        let (p, m) =
          saved-eq-ok k₀ (save_key tenant k₀ s)
            (rw (generate_and_save, in_memory_storage, g) at h) in
        (
          subst (λ k. is_active k now ≡ true) p (generate_key-active crypto km now g),
          subst (λ k. IsMember k (values (keys_of tenant s'))) p (save_key-eq-ok tenant k₀ s s' m),
        )
  ]

  -- The key to sign with is active, and it is in the storage afterwards.
  ensure_current_key-eq-ok :
      IsRange visit
      → (tenant : String) (now : ℤ) (s s' : InMemoryKeys K E) {k : KeyRecord K E}
      → ensure_current_key crypto km (in_memory_storage visit) tenant now s ≡ (ok k, s')
      → (is_active k now ≡ true) × IsMember k (values (keys_of tenant s'))
  unfolding ensure_current_key in_memory_storage
  ensure_current_key-eq-ok range tenant now s s' {k} h =
      let (ks, l, from_list, _) = list_keys-members visit range tenant s in
      elim (Option-cases (first_active now ks)) [
        | inl n ↦
            generate_and_save-eq-ok tenant now s s'
              (rw (ensure_current_key, in_memory_storage, l, n) at h)
        | inr (k₀, f) ↦ elim (Bool-cases (ltb_ℤ (add_ℤ now (overlap_of km)) k₀.not_after)) [
          | inr e ↦
              generate_and_save-eq-ok tenant now s s'
                (rw (ensure_current_key, in_memory_storage, l, f, e) at h)
          | inl e ↦
              let (p, q) = pair_inj (rw (ensure_current_key, in_memory_storage, l, f, e) at h) in
              let (m, a) = first_active-eq-some now ks f in
              (
                subst (λ k. is_active k now ≡ true) p a,
                subst (λ db. IsMember k (values (keys_of tenant db))) q
                    (from_list k (subst (λ k. IsMember k ks) p m)),
              )
        ]
      ]

module _ {K E C : Type 0} (crypto : KeyCrypto K E C) where
  -- An RSA key that can be published: it has a modulus, and an exponent that is not zero.
  abbrev pub IsRsa : K → Type 0
  IsRsa key =
      (n : ℕ) × ((crypto.rsa_public key).n ≡ some n) × (((crypto.rsa_public key).e == 0) ≡ false)

  public_of-eq-some :
      (k : KeyRecord K E) (key : K)
      → IsRsa key
      → k.rsa_private ≡ some key
      → (jwk : PublicJwk) × (public_of crypto k ≡ some jwk) × (kid_of jwk ≡ k.kid)
  unfolding public_of rsa_public_jwk kid_of
  public_of-eq-some k key (n, has_n, has_e) h = (
    rsa_jwk k.kid k.alg (big_int_to_b64 crypto.b64url n)
        (int_to_b64 crypto.b64url (crypto.rsa_public key).e),
    rw (h, has_n, has_e) refl,
    refl,
  )

  signature_of-eq-ok :
      (k : KeyRecord K E) (text : String) {sig : List ℕ}
      → signature_of crypto k text ≡ ok sig
      → (key : K) × (k.rsa_private ≡ some key)
  signature_of-eq-ok k text h = elim (Bool-cases (str_eq k.alg "RS256")) [
    | inr e ↦ absurd (cc (rw e at h))
    | inl e ↦
        let (key, r, _) = >>=-eq-ok (required k.rsa_private _) _ (rw e at h) in
        (key, required-eq-ok _ _ r)
  ]

  sign_jwt-eq-ok :
      (claims : C) (k : KeyRecord K E) {jwt : String}
      → sign_jwt crypto claims k ≡ ok jwt
      → (key : K) × (k.rsa_private ≡ some key)
  unfolding sign_jwt
  sign_jwt-eq-ok claims k h =
      let (hb, _, h1) = >>=-eq-ok (crypto.marshal_header k.alg "JWT" k.kid) _ h in
      let (cb, _, h2) = >>=-eq-ok (crypto.marshal_claims claims) _ h1 in
      let to_sign = crypto.b64url hb <> "." <> crypto.b64url cb in
      let (sig, q, _) = >>=-eq-ok (signature_of crypto k to_sign) _ h2 in
      signature_of-eq-ok k to_sign q

  then_sign-eq-ok :
      {S : Type 0} (claims : C) (m : Result String (KeyRecord K E) × S) {jwt : String} {s' : S}
      → then_sign crypto claims m ≡ (ok jwt, s')
      → (k : KeyRecord K E) × (m ≡ (ok k, s')) × (sign_jwt crypto claims k ≡ ok jwt)
  then_sign-eq-ok claims (ok k, s) h = (k, ap (λ p. (ok k, p.1)) h, ap (λ p. p.0) h)
  then_sign-eq-ok claims (err e, s) h = absurd (cc (ap (λ p. p.0) h))

  in_time :
      (now t : ℤ) (k : KeyRecord K E)
      → is_active k now ≡ true
      → now ≤ℤ t
      → ltb_ℤ t k.not_before ≡ false
  unfolding is_active
  in_time now t k a le = ground arith

  not_late : (t end : ℤ) → t ≤ℤ end → ltb_ℤ end t ≡ false
  not_late t end le = ground arith

  -- With the storage in memory, in which each key is under its kid, a token is signed by a key that is
  -- active at that time. After any further calls of Sign, for any tenants, none of which generates a key
  -- with the same kid, the keys that are published for the tenant contain that key, under its kid, at
  -- every time from then until the overlap after the end of the key. Every RSA key has a modulus and an
  -- exponent.
  pub sign-IsPublished :
      ((key : K) → IsRsa key)
      → (km : KeyManager K E (InMemoryKeys K E))
      → (visit visit_later : List (KeyRecord K E) → List (KeyRecord K E)) → IsRange visit
      → IsRange visit_later
      → (wall : ℤ) (tenant : String) (claims : C) (s s' : InMemoryKeys K E) {jwt : String}
      → AllKeyed (keys_of tenant s)
      → sign crypto (in_memory km visit) wall tenant claims s ≡ (ok jwt, s')
      → (k : KeyRecord K E) × (jwk : PublicJwk) × (sign_jwt crypto claims k ≡ ok jwt)
        × (is_active k (now_of km wall) ≡ true)
        × (public_of crypto k ≡ some jwk)
        × (kid_of jwk ≡ k.kid)
        × ((calls : List (SignCall K E C)) (t : ℤ)
            → NoneTakes k.kid calls
            → now_of km wall ≤ℤ now_of km t
            → now_of km t ≤ℤ add_ℤ k.not_after (overlap_of km)
            → (jwks : List PublicJwk) × (public_jwks crypto
                  (in_memory km visit_later)
                  t
                  tenant
                  (after_signs calls s')
                ≡ ok jwks)
              × IsMember jwk jwks)
  unfolding sign public_jwks in_memory_storage now_of overlap_of
  sign-IsPublished rsa km visit visit_later range range_later wall tenant claims s s' keyed h =
      let now = now_of km wall in
      let run =
        ensure_current_key crypto (in_memory km visit) (in_memory_storage visit) tenant now s in
      let (k, e, signed) = then_sign-eq-ok claims run h in
      let (active, stored) =
        ensure_current_key-eq-ok crypto (in_memory km visit) visit range tenant now s s' e in
      let (key, private) = sign_jwt-eq-ok claims k signed in
      let (jwk, p, same) = public_of-eq-some k key (rsa key) private in
      let keyed_after =
        subst (λ t. AllKeyed (keys_of tenant t)) (ap (λ p. p.1) e)
          (ensure_current_key-AllKeyed crypto (in_memory km visit) visit tenant now s keyed) in
      let entry = IsMember-HasEntry k (keys_of tenant s') keyed_after stored in
      (
        k,
        jwk,
        signed,
        active,
        p,
        same,
        λ calls t none_takes from until.
            let later = after_signs calls s' in
            let (ks, l, _, to_list) = list_keys-members visit_later range_later tenant later in
            let kept = after_signs-HasEntry calls tenant k.kid k s' none_takes entry in
            let member = to_list k (HasEntry-IsMember k.kid k (keys_of tenant later) kept) in
            (
              sort_by_kid (visible_jwks crypto (now_of km t) (overlap_of km) ks),
              rw l refl,
              sort_by_kid-IsMember jwk _ (
                  visible_jwks-IsMember crypto (now_of km t) (overlap_of km) ks k member p
                    (in_time now (now_of km t) k active from)
                    (not_late (now_of km t) (add_ℤ k.not_after (overlap_of km)) until)),
            ),
      )
