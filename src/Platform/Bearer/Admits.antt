-- ===== src/Platform/Bearer/Admits.antt =====
-- pkg/platform/lti/middleware/authn.go: which requests BearerAuth lets through.
use mindengage_lms.Prelude.{
  String, Bool, true, false, ◌≡◌, refl, ◌⊎◌, inl, inr, none, some, Result, ok, Option-cases,
  Result-cases, arith,
}
use mindengage_lms.Strings.{Unicode, trim_space, is_empty}
use mindengage_lms.Platform.Http.{
  Request, AccessClaims, Outcome, refused, challenged, served, Handler, get,
}
use mindengage_lms.Platform.Bearer.{
  Verifier, AuthOptions, extract_bearer, tenant_equal, check_tenant, unauthorized, forbidden,
  bearer_auth_with_options, realm_or_default,
}

-- The request was turned away.
abbrev pub is_refusal : {A : Type 0} → Outcome A → Bool
is_refusal (refused status msg) = true
is_refusal (challenged realm error desc) = true
is_refusal (served a) = false

abbrev pub IsRefusal : {A : Type 0} → Outcome A → Type 0
IsRefusal o = is_refusal o ≡ true

-- The tenant of the request, where it is to be compared, is the one of the claims up to case and
-- outer spaces.
abbrev pub IsAligned : Unicode → AuthOptions → Request → AccessClaims → Type 0
IsAligned u opts r claims =
    (resolve : Request → Result String String)
    → opts.enforce_tenant_match ≡ true
    → opts.resolve_tenant_id ≡ some resolve
    → (tenant : String) × (resolve r ≡ ok tenant)
      × (is_empty (trim_space tenant) ≡ false)
      × (tenant_equal u tenant claims.tenant_id ≡ true)

-- The request bears a token that was verified, with these claims, for the right tenant.
pub record Admitted (u : Unicode) (verify : Verifier) (opts : AuthOptions) (r : Request)
    (claims : AccessClaims) : Type 0 where
  pub raw : String
  pub token : extract_bearer u (get "Authorization" r.headers) ≡ some raw
  pub verified : verify raw ≡ ok claims
  pub aligned : IsAligned u opts r claims

module _ {A : Type 0} (u : Unicode) (opts : AuthOptions) (r : Request) (claims : AccessClaims) where
  check_tenant-eq-some : (o : Outcome A) → check_tenant u opts r claims ≡ some o → IsRefusal o
  unfolding check_tenant unauthorized forbidden
  check_tenant-eq-some o h = ground arith

  check_tenant-eq-none : check_tenant {A = A} u opts r claims ≡ none → IsAligned u opts r claims
  unfolding check_tenant
  check_tenant-eq-none h resolve e f = elim (Result-cases (resolve r)) [
    | inl (tenant, p) ↦ (tenant, p, ground arith, ground arith)
    | inr (error, p) ↦ absurd (ground arith)
  ]

module _ {S A : Type 0} (u : Unicode) (verify : Verifier) (opts : AuthOptions) (next : Handler S A)
    (r : Request) (s : S) where
  -- BearerAuth either turns a request away and leaves the state, or hands it to the next handler with
  -- claims in its context, and then the request bears a token that the verifier has accepted with
  -- those claims and, where the options ask for it, the tenant of the request is theirs.
  pub bearer_auth_with_options-cases :
      ((claims : AccessClaims) × Admitted u verify opts r claims
        × (bearer_auth_with_options u verify opts next r s
            ≡ next (record r { claims = some claims }) s))
      ⊎ ((o : Outcome A) × IsRefusal o × (bearer_auth_with_options u verify opts next r s ≡ (o, s)))
  unfolding bearer_auth_with_options unauthorized
  bearer_auth_with_options-cases =
      elim (Option-cases (extract_bearer u (get "Authorization" r.headers))) [
        | inl e ↦ inr (
          unauthorized (realm_or_default opts.realm) "invalid_request" "missing bearer token",
          refl,
          ground arith,
        )
        | inr (raw, e) ↦ elim (Result-cases (verify raw)) [
          | inl (claims, v) ↦ elim (Option-cases (check_tenant {A = A} u opts r claims)) [
            | inl n ↦ inl (
              claims,
              record {
                raw = raw;
                token = e;
                verified = v;
                aligned = check_tenant-eq-none {A = A} u opts r claims n;
              },
              ground arith,
            )
            | inr (o, q) ↦ inr (o, check_tenant-eq-some u opts r claims o q, ground arith)
          ]
          | inr (error, v) ↦
              inr (
                unauthorized (realm_or_default opts.realm) "invalid_token" error,
                refl,
                ground arith,
              )
        ]
      ]
