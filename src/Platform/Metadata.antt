-- ===== src/Platform/Metadata.antt =====
-- pkg/platform/lti/metadata.go: the discovery document of the platform. Durations are in seconds.
use Prim.Native.String.{◌++◌ as ◌<>◌}
use mindengage_lms.Prelude.{
  ℤ, pos, ltb_ℤ, String, Bool, true, false, not, ◌&&◌, ◌||◌, Option, none, some, List, [], ◌∷◌,
  Result, ok, err, ◌>>=◌, ◌>>◌, fail_if, required, if◌then◌else◌,
}
use mindengage_lms.Strings.{trim_space, is_empty, trim_suffix}
use mindengage_lms.Platform.Http.{Request, Net, is_http_url, scheme_from_request, host_without_port}
use mindengage_lms.Platform.Authorize.{Refusal, refuse, trimmed}

pub record MetadataServer : Type 0 where
  pub resolve_tenant_id : Option (Request → Result String String)
  pub issuers : Option (String → Result String String)
  pub external_base_path : String
  pub id_token_algs : List String
  pub token_auth_methods : List String
  pub registration_absolute_url : String
  pub product_version : String
  pub platform_guid : String
  pub logo_uri : String
  pub documentation_url : String
  pub cache_max_age : ℤ
  pub allow_cors : Bool

-- The members of the document that are not the same for every platform; one that is left out is `none`.
pub record PlatformConfig : Type 0 where
  pub issuer : String
  pub authorization_endpoint : String
  pub token_endpoint : String
  pub jwks_uri : String
  pub id_token_signing_alg_values_supported : List String
  pub token_endpoint_auth_methods_supported : List String
  pub registration_endpoint : Option String
  pub service_documentation : Option String
  pub version : String
  pub guid : String
  pub logo_uri : String

-- The answer with its headers.
pub record MetadataAnswer : Type 0 where
  pub config : PlatformConfig
  pub max_age : ℤ
  pub allow_origin : Option String

abbrev is_failed : Result String String → Bool
is_failed (ok t) = false
is_failed (err e) = true

abbrev text_of : Result String String → String
text_of (ok t) = t
text_of (err e) = ""

abbrev or_these : List String → List String → List String
or_these [] default = default
or_these (x ∷ xs) default = trimmed (x ∷ xs)

unfoldable pub id_token_algs : MetadataServer → List String
unfolding trimmed
id_token_algs s = or_these s.id_token_algs ("RS256" ∷ [])

unfoldable pub token_auth_methods : MetadataServer → List String
unfolding trimmed
token_auth_methods s = or_these s.token_auth_methods ("private_key_jwt" ∷ "client_secret_post" ∷ [])

unfoldable pub or_default : (sv d : String) → String
unfolding trim_space
or_default sv d = if is_empty (trim_space sv) then d else sv

unfoldable pub document_age : MetadataServer → ℤ
document_age s = if ltb_ℤ (pos 0) s.cache_max_age then s.cache_max_age else pos 3600

module _ (net : Net) (s : MetadataServer) where
  unfoldable pub join_url : (scheme host base path : String) → String
  unfolding trim_suffix
  join_url scheme host base path = net.url_string scheme host (trim_suffix base "/" <> path)

  abbrev if_http : String → Option String
  if_http url = if not (is_empty url) && is_http_url net url then some url else none

  unfoldable pub logo_or_empty : String
  unfolding is_http_url
  logo_or_empty = if is_http_url net s.logo_uri then s.logo_uri else ""

  unfoldable pub platform_config : Request → (iss : String) → PlatformConfig
  unfolding join_url id_token_algs token_auth_methods or_default logo_or_empty
  platform_config r iss =
      let base = trim_suffix s.external_base_path "/" in
      let scheme = scheme_from_request r in
      let host = host_without_port r.host in
      record {
        issuer = iss;
        authorization_endpoint = join_url scheme host base "/oauth/authorize";
        token_endpoint = join_url scheme host base "/oauth/token";
        jwks_uri = join_url scheme host "" "/.well-known/jwks.json";
        id_token_signing_alg_values_supported = id_token_algs s;
        token_endpoint_auth_methods_supported = token_auth_methods s;
        registration_endpoint = if_http s.registration_absolute_url;
        service_documentation = if_http s.documentation_url;
        version = or_default s.product_version "1.0";
        guid = s.platform_guid;
        logo_uri = logo_or_empty;
      }

  -- MetadataServer.OpenIDConfiguration
  unfoldable pub open_id_configuration : Request → Result Refusal MetadataAnswer
  unfolding platform_config document_age is_http_url
  open_id_configuration r = do
    let not_configured = refuse 500 "metadata: not configured"
    resolve ← required s.resolve_tenant_id not_configured
    issuer_for ← required s.issuers not_configured
    fail_if (is_failed (resolve r) || is_empty (trim_space (text_of (resolve r))))
        (refuse 400 "metadata: unable to resolve tenant")
    let iss = issuer_for (text_of (resolve r))
    fail_if (is_failed iss || not (is_http_url net (text_of iss)))
        (refuse 500 "metadata: issuer resolution failed")
    ok (record {
      config = platform_config r (text_of iss);
      max_age = document_age s;
      allow_origin = if s.allow_cors then some "*" else none;
    })
