-- ===== src/Tests/Requests.antt =====
-- Requests, tokens and a token server at concrete values.
use mindengage_lms.Prelude.{
  pos, String, true, false, none, some, [], ◌∷◌, ok, err, str_eq, if◌then◌else◌,
}
use mindengage_lms.Platform.Http.{Request, AccessClaims, served, Net, Handler}
use mindengage_lms.Platform.Tenants.{Options}
use mindengage_lms.Platform.Bearer.{Verifier}
use mindengage_lms.Platform.Assertion.{OAuthClient, Crypto, single}
use mindengage_lms.Platform.Token.{TokenServer}

abbrev pub plain_net : Net
plain_net = record {
  split_host_port = λ h. none;
  parse_url = λ s. some ("https", "lms.org");
  path_escape = λ s. s;
  url_string = λ scheme host path. path;
}

abbrev pub request : Request
request = record {
  method = "POST";
  host = "lms.org";
  path = "/oauth/token";
  url_scheme = "";
  is_tls = true;
  headers =
      ("Content-Type", "application/x-www-form-urlencoded")
      ∷ ("Authorization", "bearer t1")
      ∷ ("X-Tenant", "acme")
      ∷ [];
  query = [];
  form = [];
  post_form =
      ("grant_type", "client_credentials")
      ∷ ("client_id", "c1")
      ∷ ("client_secret", "s1")
      ∷ ("scope", "score lineitem")
      ∷ [];
  is_bad_form = false;
  params = [];
  claims = none;
  scopes = none;
  tenant = none;
}

abbrev pub access_claims : AccessClaims
access_claims = record {
  subject = "c1";
  tenant_id = "acme";
  client_id = "c1";
  scopes = "score" ∷ [];
  expires_at = none;
  jti = "j1";
}

abbrev pub verifier : Verifier
verifier raw = if str_eq raw "t1" then ok access_claims else err "invalid token"

abbrev pub yes_handler : Handler (Unit {0}) String
yes_handler r s = (served "yes", s)

abbrev pub by_header : Options
by_header = record {
  base_domain = "lms.org";
  host_is_tenant = false;
  path_prefix = "/t";
  header_key = "X-Tenant";
  default_tenant = "";
  force_https = true;
}

abbrev pub oauth_client : OAuthClient
oauth_client = record {
  client_id = "c1";
  secret_hash = "s1";
  jwks = some (record { kty = some "RSA"; kid = some "k1"; n = some "n"; e = some "e" }) ∷ [];
  allowed_scopes = "score" ∷ "result" ∷ [];
}

-- Every part of an assertion can be read, and its signature is right.
abbrev pub lenient : Crypto
lenient = record {
  decode = λ s. some (3 ∷ []);
  read_header = λ bs. some (record { alg = "RS256"; kid = "k1" });
  read_claims = λ bs. some (record {
    iss = "c1";
    sub = "c1";
    aud = single "/oauth/token";
    exp = pos 2000;
    iat = pos 1000;
    nbf = pos 0;
    jti = "j1";
  });
  read_subject = λ bs. some ("c1", "c1");
  verify_rsa = λ k signed signature. true;
  quote = λ s. s;
  bcrypt_matches = λ hash password. false;
}

abbrev pub token_server : TokenServer (Unit {0})
token_server = record {
  resolve_tenant_id = some (λ r. ok "acme");
  issuers = some (λ tenant. ok "https://lms.org");
  registry = some (λ tenant id. if str_eq id "c1" then ok oauth_client else err "unknown");
  signer = some (λ tenant claims. ok "signed");
  replay = none;
  access_token_ttl = pos 0;
  now = some (pos 1000);
  random_hex = "ab";
  external_base_path = "";
}
