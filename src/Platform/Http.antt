-- ===== src/Platform/Http.antt =====
-- Requests and answers, as far as the handlers of pkg/platform read and write them. What encoding/json
-- reads from a body is an argument of the handler.
use mindengage_lms.Prelude.{
  ℕ, ℤ, String, Bool, false, not, ◌&&◌, ◌||◌, str_eq, Option, none, some, List, GoMap, lookup,
  if◌then◌else◌,
}
use mindengage_lms.Strings.{trim_space, is_empty}
use mindengage_lms.Strings.Split.{before_first}

-- AccessClaims of pkg/platform/lti/middleware/authn.go. A zero time is `none`.
pub record AccessClaims : Type 0 where
  pub subject : String
  pub tenant_id : String
  pub client_id : String
  pub scopes : List String
  pub expires_at : Option ℤ
  pub jti : String

-- TenantInfo of pkg/platform/lti/middleware/tenancy.go.
pub record TenantInfo : Type 0 where
  pub id : String
  pub issuer : String

-- An http.Request: its parts, the first value of each header, query and form field, the parameters
-- of its route, and the values in its context.
pub record Request : Type 0 where
  pub method : String
  pub host : String
  pub path : String
  pub url_scheme : String
  pub is_tls : Bool
  pub headers : GoMap String
  pub query : GoMap String
  pub form : GoMap String
  pub post_form : GoMap String
  -- ParseForm returns an error
  pub is_bad_form : Bool
  pub params : GoMap String
  pub claims : Option AccessClaims
  pub scopes : Option (List String)
  pub tenant : Option TenantInfo

-- The text of a key, empty where it is missing.
unfoldable pub get : String → GoMap String → String
unfolding lookup
get k m = elim (lookup k m) [ none ↦ "" | some v ↦ v ]

-- What a request leads to: a refusal with its status and message, the refusal 401 with the code and
-- the description of its WWW-Authenticate header, or what the handler answers.
pub data Outcome (A : Type 0) : Type 0 where
  refused : ℕ → String → Outcome A
  challenged : (realm code description : String) → Outcome A
  served : A → Outcome A

-- A handler over a state `S` of the service.
abbrev pub Handler : Type 0 → Type 0 → Type 0
Handler S A = Request → S → Outcome A × S

-- What the handlers use of packages net and net/url: the host of net.SplitHostPort, the scheme and the
-- host of url.Parse (each `none` where it returns an error), url.PathEscape, and URL.String of a
-- scheme, a host and a path.
pub record Net : Type 0 where
  pub split_host_port : String → Option String
  pub parse_url : String → Option (String × String)
  pub path_escape : String → String
  pub url_string : String → String → String → String

-- The first of the protocols that a proxy has set.
unfoldable pub forwarded_proto : String → String
unfolding trim_space before_first
forwarded_proto xf = trim_space (before_first 0x2c xf)

-- schemeFromRequest of pkg/platform/lti/helpers.go
unfoldable pub scheme_from_request : Request → String
unfolding get forwarded_proto
scheme_from_request r =
    let xf = get "X-Forwarded-Proto" r.headers in
    if not (is_empty xf)
    then forwarded_proto xf
    else if not (is_empty r.url_scheme)
    then r.url_scheme
    else if r.is_tls
    then "https"
    else "http"

-- hostWithoutPort of pkg/platform/lti/helpers.go
unfoldable pub host_without_port : String → String
host_without_port h = before_first 0x3a h

-- isHTTPURL: an absolute URL with a host.
unfoldable pub is_http_url : Net → String → Bool
is_http_url net s = elim (net.parse_url s) [
  | none ↦ false
  | some (scheme, host) ↦ (str_eq scheme "http" || str_eq scheme "https") && not (is_empty host)
]
