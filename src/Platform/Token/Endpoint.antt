-- ===== src/Platform/Token/Endpoint.antt =====
-- pkg/platform/lti/token.go: the authentication of the client, and the token that it is given.
use Prim.Native.String.{◌++◌ as ◌<>◌}
use mindengage_lms.Prelude.{
  ℤ, pos, ltb_ℤ, add_ℤ, String, not, Option, none, some, List, Result, ok, err, ◌>>=◌, ◌>>◌,
  or_fail, if◌then◌else◌,
}
use mindengage_lms.Strings.{Unicode, is_empty, trim_suffix}
use mindengage_lms.Strings.Split.{join}
use mindengage_lms.Platform.Http.{Request, Net, get, scheme_from_request, host_without_port}
use mindengage_lms.Platform.Assertion.{Crypto, verify_secret, verify_client_assertion}
use mindengage_lms.Platform.Token.{
  OauthError, invalid_request, invalid_client, TokenClaims, TokenResponse, TokenServer,
  parse_scopes, granted_scopes,
}
use mindengage_lms.Platform.Token.Identify.{Identified, identify}

abbrev pub described : Result String (Unit {0}) → Result OauthError (Unit {0})
described (ok _) = ok tt
described (err e) = err (invalid_client e)

module _ {S : Type 0} (net : Net) (u : Unicode) (crypto : Crypto) (server : TokenServer S) where
  unfoldable pub absolute_token_url : Request → String
  absolute_token_url r =
      net.url_string (scheme_from_request r) (host_without_port r.host)
        (trim_suffix server.external_base_path "/" <> "/oauth/token")

  -- The authentication, by the assertion where there is one; `wall` is time.Now, in seconds.
  unfoldable pub authenticate : ℤ → Request → Identified → S → Result OauthError (Unit {0}) × S
  authenticate wall r who s =
      let c = who.credentials in
      if not (is_empty c.assertion)
      then (let (res, s') =
            verify_client_assertion crypto server.replay wall who.client c.assertion
              (absolute_token_url r) s in
          (described res, s'))
      else if not (is_empty c.secret)
      then (
        or_fail (verify_secret crypto who.client.secret_hash c.secret)
            (invalid_client "invalid client_secret"),
        s,
      )
      else (err (invalid_client "unsupported client authentication"), s)

  unfoldable pub ttl : ℤ
  ttl = if ltb_ℤ (pos 0) server.access_token_ttl then server.access_token_ttl else pos 3600

  unfoldable pub token_claims : ℤ → Request → Identified → List String → TokenClaims
  unfolding ttl
  token_claims now r who granted = record {
    iss = who.issuer;
    sub = who.client_id;
    aud = absolute_token_url r;
    iat = now;
    exp = add_ℤ now ttl;
    jti = server.random_hex;
    tenant = who.tenant;
    client_id = who.client_id;
    scope = join " " granted;
    typ = "access";
  }

  abbrev pub time_or : Option ℤ → ℤ → ℤ
  time_or none wall = wall
  time_or (some t) wall = t

  unfoldable pub issue_token : ℤ → Request → Identified → Result OauthError TokenResponse
  issue_token wall r who = do
    granted ← granted_scopes (parse_scopes (get "scope" r.post_form)) who.client.allowed_scopes
    jwt ←
        or_fail (who.sign (token_claims (time_or server.now wall) r who granted))
          (invalid_request 500 "signing failed")
    ok (record {
      access_token = jwt;
      token_type = "Bearer";
      expires_in = ttl;
      scope = join " " granted;
    })

  -- TokenServer.Handler
  unfoldable pub token_handler : ℤ → Request → S → Result OauthError TokenResponse × S
  token_handler wall r s = elim (identify net u crypto server r) [
    | err e ↦ (err e, s)
    | ok who ↦ let (res, s') = authenticate wall r who s in (res >> issue_token wall r who, s')
  ]
