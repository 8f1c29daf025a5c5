-- ===== src/Platform/Token/Grant.antt =====
-- pkg/platform/lti/token.go: to whom the endpoint gives a token, and for what.
use mindengage_lms.Prelude.{
  ℤ, pos, ltb_ℤ, add_ℤ, String, true, false, ◌≡◌, ◌⊎◌, some, List, [], ◌∷◌, All, any, Result, ok,
  err, str_eq, if◌then◌else◌,
}
use mindengage_lms.Strings.{Unicode, trim_space, is_empty}
use mindengage_lms.Strings.Split.{join}
use mindengage_lms.Platform.Http.{Request, Net, get}
use mindengage_lms.Platform.Scopes as Scopes
use mindengage_lms.Platform.Assertion.{OAuthClient, Crypto, verify_client_assertion}
use mindengage_lms.Platform.Token.{OauthError, TokenClaims, TokenResponse, TokenServer}
use mindengage_lms.Platform.Token.Identify.{Identified}
use mindengage_lms.Platform.Token.Client.{IsAsked, IsSecret}
use mindengage_lms.Platform.Token.Endpoint.{absolute_token_url, time_or}

-- The scope is an allowed one, but for its outer spaces.
abbrev pub IsHeld : List String → String → Type 0
IsHeld allowed g = any (λ a. str_eq (trim_space a) g) allowed ≡ true

abbrev if_any : List String → OauthError → Result OauthError (List String)
if_any gs e = elim gs [ g ∷ rest ↦ ok (g ∷ rest) | [] ↦ err e ]

module _ {S : Type 0} (net : Net) (u : Unicode) (crypto : Crypto) (server : TokenServer S) where
  -- The tenant and the client that the request names, as the parts of the server know them.
  pub record Named (r : Request) (who : Identified) : Type 0 where
    pub credentials : who.credentials ≡ record {
      client_id = trim_space (get "client_id" r.post_form);
      assertion_type = trim_space (get "client_assertion_type" r.post_form);
      assertion = trim_space (get "client_assertion" r.post_form);
      secret = get "client_secret" r.post_form;
    }
    pub asked : IsAsked crypto who.credentials who.client_id
    pub issuer :
        (issuer_for : String → Result String String) × (server.issuers ≡ some issuer_for)
        × (issuer_for who.tenant ≡ ok who.issuer)
    pub tenant :
        (resolve : Request → Result String String) × (server.resolve_tenant_id ≡ some resolve)
        × (resolve r ≡ ok who.tenant)
        × (is_empty (trim_space who.tenant) ≡ false)
    pub client :
        (look : String → String → Result String OAuthClient) × (server.registry ≡ some look)
        × (look who.tenant who.client_id ≡ ok who.client)
    pub signer :
        (sign : String → TokenClaims → Result String String) × (server.signer ≡ some sign)
        × (who.sign ≡ sign who.tenant)
    pub has_id : is_empty who.client_id ≡ false

  -- The way in which the client showed who it is, and what it left of the replay cache.
  abbrev pub ByAssertion : ℤ → Request → Identified → S → S → Type 0
  ByAssertion wall r who s s' =
      (is_empty who.credentials.assertion ≡ false)
      × (verify_client_assertion crypto server.replay wall who.client who.credentials.assertion
            (absolute_token_url net u crypto server r) s
          ≡ (ok tt, s'))

  abbrev pub BySecret : Identified → S → S → Type 0
  BySecret who s s' =
      (is_empty who.credentials.assertion ≡ true)
      × (is_empty who.credentials.secret ≡ false)
      × IsSecret crypto (trim_space who.client.secret_hash) who.credentials.secret
      × (s' ≡ s)

  -- The lifetime of a token, in seconds.
  abbrev pub lifetime : ℤ
  lifetime = if ltb_ℤ (pos 0) server.access_token_ttl then server.access_token_ttl else pos 3600

  -- What a client was given: a token over a scope that it may have.
  abbrev pub Given : ℤ → Request → Identified → TokenResponse → Type 0
  Given wall r who response =
      (granted : List String) × ((who.client.allowed_scopes ≡ [])
        ⊎ All (IsHeld who.client.allowed_scopes) granted)
      × (response.scope ≡ join " " granted)
      × (who.sign (record {
        iss = who.issuer;
        sub = who.client_id;
        aud = absolute_token_url net u crypto server r;
        iat = time_or net u crypto server server.now wall;
        exp = add_ℤ (time_or net u crypto server server.now wall) lifetime;
        jti = server.random_hex;
        tenant = who.tenant;
        client_id = who.client_id;
        scope = join " " granted;
        typ = "access";
      })
          ≡ ok response.access_token)
