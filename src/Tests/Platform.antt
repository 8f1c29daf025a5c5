-- ===== src/Tests/Platform.antt =====
-- The services for tools of pkg/platform at concrete requests.
use mindengage_lms.Prelude.{
  ℤ, pos, String, true, false, ◌≡◌, refl, some, [], ◌∷◌, ok, err, lookup, insert, str_eq, add_ℤ,
  sub64, arith,
}
use mindengage_lms.Strings.{is_space, trim_left, trim_right, trim_space, to_lower}
use mindengage_lms.Strings.Split.{before_last, split_on}
use mindengage_lms.Platform.Http.{AccessClaims, served, get}
use mindengage_lms.Platform.Replay.{
  new_in_memory_replay, purge_entries, kept_entries, use_key, replay_key, use_value,
}
use mindengage_lms.Platform.Replay.SingleUse.{Call, use_call, after_calls, use_value_once}
use mindengage_lms.Platform.Replay.Expiry.{use_value_again}
use mindengage_lms.Platform.Bearer.Admits.{Admitted}
use mindengage_lms.Platform.Bearer.{
  strip_prefix_fold, extract_bearer, tenant_equal, check_tenant, bearer_auth_with_options,
}
use mindengage_lms.Platform.Tenants as Tenants
use mindengage_lms.Platform.Tenants.Token.{IsLabel, resolve-IsLabel}
use mindengage_lms.Platform.Tenancy.{tenancy, unresolved, resolve_tenant_id_from_context}
use mindengage_lms.Platform.Tenancy.Isolation.{enforcing, in_tenant, tenancy-bearer_auth}
use mindengage_lms.Platform.Assertion.{
  exponent_of, modulus_of, rsa_key, rsa_keys, rsa_public_keys_from_jwks, split_jwt, aud_contains,
  signing_input, check_claims, check_signature, read_assertion, use_jti, verify_client_assertion,
}
use mindengage_lms.Platform.Assertion.Once.{verify_at, verify_client_assertion_once}
use mindengage_lms.Platform.Scopes as Scopes
use mindengage_lms.Platform.Token.{TokenResponse}
use mindengage_lms.Platform.Token.Endpoint.{ttl}
use mindengage_lms.Tests.Setup.{plain_unicode}
use mindengage_lms.Tests.Requests.{
  plain_net, request, verifier, yes_handler, by_header, oauth_client, lenient,
}

abbrev nonce_at : ℤ → Call
nonce_at t = record { now = t; kind = "nonce"; value = "n1"; ttl = pos 60 }

abbrev other_at : ℤ → Call
other_at t = record { now = t; kind = "nonce"; value = "n2"; ttl = pos 60 }

use_value_once_example :
    (use_call plain_unicode (nonce_at (pos 30)) (
      after_calls plain_unicode
        (other_at (pos 10) ∷ [])
        (use_call plain_unicode (nonce_at (pos 0)) (new_in_memory_replay (pos 1))).1)).0
    ≡ ok false
unfolding new_in_memory_replay purge_entries kept_entries use_key replay_key use_value is_space
    trim_left trim_right trim_space to_lower lookup insert str_eq add_ℤ
use_value_once_example =
    use_value_once plain_unicode (nonce_at (pos 0)) (nonce_at (pos 30)) (other_at (pos 10) ∷ [])
      (new_in_memory_replay (pos 1)) refl refl (ground arith, tt) (ground arith)

use_value_again_example :
    (use_call plain_unicode
      (nonce_at (pos 60))
      (after_calls plain_unicode (nonce_at (pos 0) ∷ []) (new_in_memory_replay (pos 1)))).0
    ≡ ok true
unfolding replay_key is_space trim_left trim_right trim_space to_lower add_ℤ
use_value_again_example =
    use_value_again plain_unicode (nonce_at (pos 0) ∷ []) (nonce_at (pos 60)) (pos 1)
      {k = "nonce|n1"} refl ((λ e. ground arith), tt)

abbrev strict : mindengage_lms.Platform.Bearer.AuthOptions
strict = record {
  realm = "lti";
  enforce_tenant_match = true;
  resolve_tenant_id = some (λ r. ok "ACME");
}

resolve-IsLabel_example :
    IsLabel "acme"
    × ("https://lms.org/t/acme"
        ≡ Tenants.issuer_for plain_net plain_unicode by_header "acme" request)
unfolding Tenants.resolve Tenants.sanitize_tenant Tenants.matches_token Tenants.issuer_for
    Tenants.scheme_from_request get lookup str_eq is_space trim_left trim_right trim_space to_lower
resolve-IsLabel_example = resolve-IsLabel plain_net plain_unicode by_header request refl

tenancy-bearer_auth_example :
    (id : String) × (issuer : String) × (claims : AccessClaims) × (Tenants.resolve plain_net
        plain_unicode by_header request
      ≡ ok (id, issuer))
    × Admitted plain_unicode verifier (enforcing "lti") (in_tenant request id issuer) claims
    × (tenant_equal plain_unicode id claims.tenant_id ≡ true)
    × (yes_handler (record (in_tenant request id issuer) { claims = some claims }) tt
        ≡ (served "yes", tt))
unfolding tenancy unresolved resolve_tenant_id_from_context bearer_auth_with_options check_tenant
    extract_bearer strip_prefix_fold tenant_equal Tenants.resolve Tenants.sanitize_tenant
    Tenants.matches_token Tenants.issuer_for Tenants.scheme_from_request get lookup str_eq is_space
    trim_left trim_right trim_space to_lower
tenancy-bearer_auth_example =
    tenancy-bearer_auth plain_unicode (Tenants.resolve plain_net plain_unicode by_header) verifier
      "lti" yes_handler request tt refl

abbrev assertion_claims : mindengage_lms.Platform.Assertion.JwtClaims
assertion_claims = record {
  iss = "c1";
  sub = "c1";
  aud = mindengage_lms.Platform.Assertion.single "/oauth/token";
  exp = pos 2000;
  iat = pos 1000;
  nbf = pos 0;
  jti = "j1";
}

verify_client_assertion_once_example :
    (e : String) × ((verify_at plain_unicode lenient
        (pos 1100)
        (pos 1100)
        oauth_client
        "h.p.s"
        "/oauth/token"
        (after_calls plain_unicode
          (nonce_at (pos 1050) ∷ [])
          (verify_at plain_unicode lenient
            (pos 1000)
            (pos 1000)
            oauth_client
            "h.p.s"
            "/oauth/token"
            (new_in_memory_replay (pos 1))).1)).0
      ≡ err e)
unfolding new_in_memory_replay purge_entries kept_entries use_key replay_key use_value is_space
    trim_left trim_right trim_space to_lower lookup insert str_eq add_ℤ verify_client_assertion
    use_jti read_assertion check_signature check_claims rsa_public_keys_from_jwks rsa_keys rsa_key
    exponent_of modulus_of split_jwt split_on aud_contains signing_input before_last sub64
verify_client_assertion_once_example =
    verify_client_assertion_once plain_unicode lenient (pos 1000) (pos 1000) (pos 1100) (pos 1100)
      oauth_client "h.p.s" "/oauth/token" "/oauth/token" assertion_claims (nonce_at (pos 1050) ∷ [])
      (new_in_memory_replay (pos 1)) ((3 ∷ [], 3 ∷ [], 3 ∷ []), refl, refl) refl refl
      (ground arith, tt) (ground arith)

abbrev token_response : TokenResponse
token_response = record {
  access_token = "signed";
  token_type = "Bearer";
  expires_in = pos 3600;
  scope = "score";
}
