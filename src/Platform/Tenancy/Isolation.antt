-- ===== src/Platform/Tenancy/Isolation.antt =====
-- pkg/platform/lti/middleware: Tenancy followed by BearerAuth that enforces the tenant, as they are
-- wired in front of the services.
use mindengage_lms.Prelude.{
  String, true, false, ◌≡◌, refl, sym, ap, subst, ◌∙◌, inl, inr, some, ok, Bool-cases, Result-cases,
  arith,
}
use mindengage_lms.Strings.{Unicode, trim_space, is_empty}
use mindengage_lms.Platform.Http.{Request, AccessClaims, Outcome, served, Handler}
use mindengage_lms.Platform.Bearer.{Verifier, AuthOptions, tenant_equal, bearer_auth_with_options}
use mindengage_lms.Platform.Bearer.Admits.{is_refusal, Admitted, bearer_auth_with_options-cases}
use mindengage_lms.Platform.Tenancy.{Resolver, tenancy, resolve_tenant_id_from_context}

-- BearerAuth with the options of the wiring.
abbrev pub enforcing : String → AuthOptions
enforcing realm = record {
  realm = realm;
  enforce_tenant_match = true;
  resolve_tenant_id = some resolve_tenant_id_from_context;
}

abbrev pub in_tenant : Request → String → String → Request
in_tenant r id issuer = record r { tenant = some (record { id = id; issuer = issuer }) }

module _ {S A E : Type 0} (u : Unicode) (res : Resolver E) (verify : Verifier) (realm : String)
    (next : Handler S A) (r : Request) (s : S) where
  -- The handler behind both runs only for a tenant that was resolved and claims that were verified,
  -- and the claims are those of that tenant, up to case and outer spaces: no token serves in the name
  -- of another tenant. It then sees both in its context, and what it answers is the answer.
  pub tenancy-bearer_auth :
      {a : A} {s' : S}
      → tenancy res false (bearer_auth_with_options u verify (enforcing realm) next) r s
        ≡ (served a, s')
      → (id : String) × (issuer : String) × (claims : AccessClaims) × (res r ≡ ok (id, issuer))
        × Admitted u verify (enforcing realm) (in_tenant r id issuer) claims
        × (tenant_equal u id claims.tenant_id ≡ true)
        × (next (record (in_tenant r id issuer) { claims = some claims }) s ≡ (served a, s'))
  unfolding tenancy resolve_tenant_id_from_context
  tenancy-bearer_auth {a} {s'} h = elim (Result-cases (res r)) [
    | inl ((id, issuer), p) ↦ elim (Bool-cases (is_empty (trim_space id))) [
      | inl e ↦ absurd (ground arith)
      | inr e ↦
          let r' = in_tenant r id issuer in
          let through : bearer_auth_with_options u verify (enforcing realm) next r' s
              ≡ (served a, s') =
            ground arith in
          elim (bearer_auth_with_options-cases u verify (enforcing realm) next r' s) [
            | inl (claims, adm, q) ↦
                let (t, f, _, m) = adm.aligned resolve_tenant_id_from_context refl refl in
                let same : t ≡ id = ground arith in
                (
                  id,
                  issuer,
                  claims,
                  p,
                  adm,
                  subst (λ i. tenant_equal u i claims.tenant_id ≡ true) same m,
                  sym q ∙ through,
                )
            | inr (o, refusal, q) ↦
                absurd (cc (ap (λ (x : Outcome A × S). is_refusal x.0) (sym q ∙ through), refusal))
          ]
    ]
    | inr (e, p) ↦ absurd (ground arith)
  ]
