-- ===== src/Platform/Token.antt =====
-- pkg/platform/lti/token.go: the token endpoint. Durations are in whole seconds.
pub mod Identify
pub mod Endpoint
pub mod Client
pub mod Grant
use Prim.Native.String.{◌++◌ as ◌<>◌}
use mindengage_lms.Prelude.{
  ℕ, ℤ, pos, ltb_ℤ, add_ℤ, String, Bool, true, false, not, ◌&&◌, ◌||◌, Option, none, some, List, [],
  ◌∷◌, any, Result, ok, err, ◌>>=◌, ◌>>◌, fail_if, required, str_eq, if◌then◌else◌,
}
use mindengage_lms.Strings.{Unicode, trim_space, to_lower, is_empty, has_prefix, trim_suffix}
use mindengage_lms.Strings.Split.{fields, join, sort_strings}
use mindengage_lms.Platform.Http.{
  Request, Net, get, scheme_from_request, host_without_port, is_http_url,
}
use mindengage_lms.Platform.Scopes as Scopes
use mindengage_lms.Platform.Replay.{Protector}
use mindengage_lms.Platform.Assertion.{
  OAuthClient, Crypto, verify_secret, peek_jwt_issuer_subject, verify_client_assertion,
}

-- An OAuth error: its status, code and description.
pub record OauthError : Type 0 where
  pub status : ℕ
  pub error : String
  pub description : String

abbrev pub invalid_request : ℕ → String → OauthError
invalid_request status d = record { status = status; error = "invalid_request"; description = d }

abbrev pub invalid_client : String → OauthError
invalid_client d = record { status = 401; error = "invalid_client"; description = d }

-- The claims of an access token.
pub record TokenClaims : Type 0 where
  pub iss : String
  pub sub : String
  pub aud : String
  pub iat : ℤ
  pub exp : ℤ
  pub jti : String
  pub tenant : String
  pub client_id : String
  pub scope : String
  pub typ : String

-- tokenResponse
pub record TokenResponse : Type 0 where
  pub access_token : String
  pub token_type : String
  pub expires_in : ℤ
  pub scope : String

-- TokenServer. The parts that the handler asks for are `none` where they are nil; `now` is the value
-- of s.Now, `random_hex` what randHex gives.
pub record TokenServer (S : Type 0) : Type 0 where
  pub resolve_tenant_id : Option (Request → Result String String)
  pub issuers : Option (String → Result String String)
  pub registry : Option (String → String → Result String OAuthClient)
  pub signer : Option (String → TokenClaims → Result String String)
  pub replay : Option (Protector S)
  pub access_token_ttl : ℤ
  pub now : Option ℤ
  pub random_hex : String
  pub external_base_path : String

-- uniqueScopes
unfoldable pub unique_scopes : List String → List String
unique_scopes scopes = sort_strings (Scopes.unique_scopes scopes)

unfoldable pub parse_scopes : String → List String
parse_scopes s = if is_empty (trim_space s) then [] else unique_scopes (fields s)

-- The scope is one of the allowed ones.
unfoldable pub is_allowed : List String → String → Bool
is_allowed allowed s = any (λ a. str_eq (trim_space a) (trim_space s)) allowed

unfoldable pub keep_allowed : List String → List String → List String
unfolding is_allowed
keep_allowed allowed [] = []
keep_allowed allowed (s ∷ ss) =
    let rest = keep_allowed allowed ss in if is_allowed allowed s then s ∷ rest else rest

unfoldable pub intersect_scopes : (requested allowed : List String) → List String
intersect_scopes [] allowed = []
intersect_scopes (s ∷ ss) [] = unique_scopes (s ∷ ss)
intersect_scopes (s ∷ ss) (a ∷ allowed) = unique_scopes (keep_allowed (a ∷ allowed) (s ∷ ss))

abbrev pub lti_scopes : List String
lti_scopes =
    "https://purl.imsglobal.org/spec/lti-ags/scope/lineitem"
    ∷ "https://purl.imsglobal.org/spec/lti-ags/scope/lineitem.readonly"
    ∷ "https://purl.imsglobal.org/spec/lti-ags/scope/score"
    ∷ "https://purl.imsglobal.org/spec/lti-ags/scope/result.readonly"
    ∷ "https://purl.imsglobal.org/spec/lti-nrps/scope/contextmembership.readonly" ∷ []

-- The scopes of a client that asks for none.
unfoldable pub default_scopes : (allowed : List String) → List String
default_scopes [] = lti_scopes
default_scopes (a ∷ allowed) = unique_scopes (a ∷ allowed)

-- The scope negotiation.
unfoldable pub granted_scopes : (requested allowed : List String) → Result OauthError (List String)
granted_scopes requested allowed = elim (intersect_scopes requested allowed) [
  | g ∷ gs ↦ ok (g ∷ gs)
  | [] ↦ elim requested [
    | [] ↦ ok (default_scopes allowed)
    | r ∷ rs ↦ err (record {
      status = 400;
      error = "invalid_scope";
      description = "requested scopes not allowed";
    })
  ]
]
