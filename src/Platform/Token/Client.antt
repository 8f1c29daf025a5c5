-- ===== src/Platform/Token/Client.antt =====
-- pkg/platform/lti/token.go: which client a request names, and what its secret must be.
use mindengage_lms.Prelude.{
  String, Bool, true, false, not, ◌&&◌, ◌||◌, ◌≡◌, refl, sym, ap, ◌∙◌, ◌⊎◌, inl, inr, Result, ok,
  err, ok_inj, fail_if-eq-ok, Bool-cases, Result-cases, str_eq, str_eq_cases, str_eq→eq, subst,
  arith,
}
use mindengage_lms.Strings.{trim_space, is_empty, has_prefix}
use mindengage_lms.Platform.Assertion.{Crypto, peek_jwt_issuer_subject, verify_secret}
use mindengage_lms.Platform.Token.Identify.{Credentials, effective_client_id, is_error, value}

-- The client id is that of the form or, where there is an assertion, its issuer and subject, which the
-- form repeats or leaves out.
abbrev pub IsAsked : Crypto → Credentials → (client_id : String) → Type 0
IsAsked crypto c id =
    ((is_empty c.assertion ≡ true) × (id ≡ c.client_id))
    ⊎ ((is_empty c.assertion ≡ false)
        × (peek_jwt_issuer_subject crypto c.assertion ≡ ok (id, id))
        × ((is_empty c.client_id ≡ true) ⊎ (c.client_id ≡ id)))

repeated :
    (given id : String)
    → not (is_empty given) && not (str_eq given id) ≡ false
    → (is_empty given ≡ true) ⊎ (given ≡ id)
repeated given id h = elim (str_eq_cases given id) [
  | inl (_, p) ↦ inr p
  | inr (e, _) ↦ inl (ground arith)
]

pub effective_client_id-eq-ok :
    (crypto : Crypto) (c : Credentials) {id : String}
    → effective_client_id crypto c ≡ ok id
    → (is_empty id ≡ false) × IsAsked crypto c id
unfolding effective_client_id
effective_client_id-eq-ok crypto c {id} h = elim (Bool-cases (is_empty c.assertion)) [
  | inl e ↦
      let (f, k) = fail_if-eq-ok (is_empty c.client_id) _ _ (rw (effective_client_id, e) at h) in
      let same : c.client_id ≡ id = ok_inj k in
      (subst (λ x. is_empty x ≡ false) same f, inl (e, sym same))
  | inr e ↦ elim (Result-cases (peek_jwt_issuer_subject crypto c.assertion)) [
    | inr (error, p) ↦ absurd (cc (rw (effective_client_id, e, p) at h))
    | inl ((iss, sub), p) ↦
        let (f, h1) =
          fail_if-eq-ok (is_empty iss || is_empty sub || not (str_eq iss sub)) _ _
            (rw (effective_client_id, e, p) at h) in
        let (g, h2) =
          fail_if-eq-ok (not (is_empty c.client_id) && not (str_eq c.client_id iss)) _ _ h1 in
        let nonempty : is_empty iss ≡ false = ground arith in
        let both : str_eq iss sub ≡ true = ground arith in
        let same : iss ≡ id = ok_inj h2 in
        subst (λ x. (is_empty x ≡ false) × IsAsked crypto c x) same
          (
            nonempty,
            inr (
              e,
              p ∙ ap (λ x. ok (iss, x)) (sym (str_eq→eq iss sub both)),
              repeated c.client_id iss g,
            ),
          )
  ]
]

-- The stored hash is not blank, and it is one of bcrypt that the secret matches, or the secret itself.
abbrev pub is_bcrypt : String → Bool
is_bcrypt stored = has_prefix stored "$2a$" || has_prefix stored "$2b$" || has_prefix stored "$2y$"

abbrev pub IsSecret : Crypto → (stored secret : String) → Type 0
IsSecret crypto stored secret =
    (is_empty stored ≡ false)
    × (((is_bcrypt stored ≡ true) × (crypto.bcrypt_matches stored secret ≡ true))
        ⊎ ((is_bcrypt stored ≡ false) × (stored ≡ secret)))

not-eq-false : (b : Bool) → not b ≡ false → b ≡ true
not-eq-false true h = refl
not-eq-false false h = cc

pub verify_secret-IsSecret :
    (crypto : Crypto) (hash secret : String)
    → verify_secret crypto hash secret ≡ ok tt
    → IsSecret crypto (trim_space hash) secret
unfolding verify_secret
verify_secret-IsSecret crypto hash secret h =
    let stored = trim_space hash in
    elim (Bool-cases (is_empty stored)) [
      | inl e ↦ absurd (cc (rw (verify_secret, e) at h))
      | inr e ↦ elim (Bool-cases (is_bcrypt stored)) [
        | inl f ↦ elim (Bool-cases (crypto.bcrypt_matches stored secret)) [
          | inl g ↦ (e, inl (f, g))
          | inr g ↦ absurd (cc (rw (verify_secret, e, f, g) at h))
        ]
        | inr f ↦ elim (Bool-cases (str_eq stored secret)) [
          | inl g ↦ (e, inr (f, str_eq→eq stored secret g))
          | inr g ↦ absurd (cc (rw (verify_secret, e, f, g) at h))
        ]
      ]
    ]

pub value-eq-ok :
    (m : Result String String) (b : Bool) → (is_error m || b) ≡ false → m ≡ ok (value m)
value-eq-ok (ok t) b h = refl
value-eq-ok (err e) b h = cc
