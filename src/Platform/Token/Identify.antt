-- ===== src/Platform/Token/Identify.antt =====
-- pkg/platform/lti/token.go: the request of the token endpoint, up to the client that it names.
use mindengage_lms.Prelude.{
  String, Bool, true, false, not, ◌&&◌, ◌||◌, Result, ok, err, ◌>>=◌, ◌>>◌, fail_if, or_fail,
  required, str_eq, if◌then◌else◌,
}
use mindengage_lms.Strings.{Unicode, trim_space, to_lower, is_empty, has_prefix}
use mindengage_lms.Platform.Http.{Request, Net, get, is_http_url}
use mindengage_lms.Platform.Assertion.{OAuthClient, Crypto, peek_jwt_issuer_subject}
use mindengage_lms.Platform.Token.{
  OauthError, invalid_request, invalid_client, TokenClaims, TokenServer,
}

-- What the form says of the client.
pub record Credentials : Type 0 where
  pub client_id : String
  pub assertion_type : String
  pub assertion : String
  pub secret : String

unfoldable pub read_credentials : Request → Credentials
unfolding get
read_credentials r = record {
  client_id = trim_space (get "client_id" r.post_form);
  assertion_type = trim_space (get "client_assertion_type" r.post_form);
  assertion = trim_space (get "client_assertion" r.post_form);
  secret = get "client_secret" r.post_form;
}

abbrev private_key_jwt : String
private_key_jwt = "urn:ietf:params:oauth:client-assertion-type:jwt-bearer"

-- The two ways of authentication that the form may ask for.
unfoldable pub has_credentials : Credentials → Bool
has_credentials c =
    str_eq c.assertion_type private_key_jwt && not (is_empty c.assertion)
    || not (is_empty c.secret) && not (is_empty c.client_id)

-- The client id that counts: that of the assertion, where there is one.
unfoldable pub effective_client_id : Crypto → Credentials → Result OauthError String
effective_client_id crypto c =
    if is_empty c.assertion
    then fail_if (is_empty c.client_id) (invalid_client "client_id required")
      >>= (λ _. ok c.client_id)
    else elim (peek_jwt_issuer_subject crypto c.assertion) [
      | err e ↦ err (invalid_client "invalid client_assertion")
      | ok (iss, sub) ↦ do
        fail_if (is_empty iss || is_empty sub || not (str_eq iss sub))
            (invalid_client "invalid client_assertion iss/sub")
        fail_if (not (is_empty c.client_id) && not (str_eq c.client_id iss))
            (invalid_client "client_id mismatch")
        ok iss
    ]

-- What the handler has found before it authenticates the client.
pub record Identified : Type 0 where
  pub tenant : String
  pub issuer : String
  pub client_id : String
  pub client : OAuthClient
  pub credentials : Credentials
  pub sign : TokenClaims → Result String String

abbrev pub value : Result String String → String
value (err e) = ""
value (ok t) = t

abbrev pub is_error : Result String String → Bool
is_error (err e) = true
is_error (ok t) = false

module _ {S : Type 0} (net : Net) (u : Unicode) (crypto : Crypto) (server : TokenServer S) where
  abbrev not_configured : OauthError
  not_configured = invalid_request 500 "server not configured"

  unfoldable pub check_request : Request → Result OauthError (Unit {0})
  unfolding get
  check_request r = do
    fail_if
        (not (
          has_prefix (to_lower u (trim_space (get "Content-Type" r.headers)))
            "application/x-www-form-urlencoded"))
        (invalid_request 400 "content-type must be application/x-www-form-urlencoded")
    fail_if r.is_bad_form (invalid_request 400 "bad form")

  unfoldable pub identify : Request → Result OauthError Identified
  identify r = do
    fail_if (not (str_eq r.method "POST")) (invalid_request 405 "use POST")
    resolve ← required server.resolve_tenant_id not_configured
    issuer_for ← required server.issuers not_configured
    lookup_client ← required server.registry not_configured
    sign ← required server.signer not_configured
    check_request r
    let tenant = value (resolve r)
    fail_if (is_error (resolve r) || is_empty (trim_space tenant))
        (invalid_request 400 "unable to resolve tenant")
    let issuer = value (issuer_for tenant)
    fail_if (is_error (issuer_for tenant) || not (is_http_url net issuer))
        (invalid_request 500 "issuer resolution failed")
    fail_if (not (str_eq (get "grant_type" r.post_form) "client_credentials")) (record {
      status = 400;
      error = "unsupported_grant_type";
      description = "only client_credentials supported";
    })
    let c = read_credentials r
    fail_if (not (has_credentials c)) (invalid_client "missing client authentication")
    id ← effective_client_id crypto c
    client ← or_fail (lookup_client tenant id) (invalid_client "unknown client")
    ok (record {
      tenant = tenant;
      issuer = issuer;
      client_id = id;
      client = client;
      credentials = c;
      sign = sign tenant;
    })
