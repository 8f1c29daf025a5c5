-- ===== src/Platform/Tenants.antt =====
-- pkg/platform/tenants/resolver.go: the tenant of a request, and its issuer. Texts are sequences of
-- characters.
pub mod Token
use Prim.Native.Char.{Char, code}
use Prim.Native.String.{◌++◌ as ◌<>◌}
use mindengage_lms.Prelude.{
  ℕ, suc, ◌+◌, ◌-◌, leb, ◌==◌, String, Bool, true, false, not, ◌&&◌, ◌||◌, Option, none, some,
  GoMap, Result, ok, err, if◌then◌else◌,
}
use mindengage_lms.Strings.{
  Unicode, trim_space, to_lower, is_empty, has_prefix, has_suffix, trim_prefix, equal_fold,
}
use mindengage_lms.Strings.Split.{before_first}
use mindengage_lms.Platform.Http.{Request, Net, get, forwarded_proto}

pub record Options : Type 0 where
  pub base_domain : String
  pub host_is_tenant : Bool
  pub path_prefix : String
  pub header_key : String
  pub default_tenant : String
  pub force_https : Bool

pub data TenantError : Type 0 where
  no_tenant bad_tenant_token : TenantError

-- NewResolver: the options with the prefix made absolute.
unfoldable pub new_resolver : Options → Options
new_resolver opts =
    if not (is_empty opts.path_prefix) && not (has_prefix opts.path_prefix "/")
    then record opts { path_prefix = "/" <> opts.path_prefix }
    else opts

abbrev pub size : String → ℕ
size String.[] = 0
size (String.◌∷◌ c s) = suc (size s)

abbrev pub is_alphanumeric : Char → Bool
is_alphanumeric c = leb 97 (code c) && leb (code c) 122 || leb 48 (code c) && leb (code c) 57

abbrev pub is_label_char : Char → Bool
is_label_char c = is_alphanumeric c || code c == 45

abbrev pub all_chars : (Char → Bool) → String → Bool
all_chars p String.[] = true
all_chars p (String.◌∷◌ c s) = p c && all_chars p s

-- The pattern ^[a-z0-9][a-z0-9-]{0,61}$
unfoldable pub matches_token : String → Bool
matches_token String.[] = false
matches_token (String.◌∷◌ c s) = is_alphanumeric c && all_chars is_label_char s && leb (size s) 61

unfoldable pub sanitize_tenant : Unicode → String → String
unfolding matches_token
sanitize_tenant u s = let t = to_lower u (trim_space s) in if matches_token t then t else ""

-- The first `n` characters.
abbrev pub take : ℕ → String → String
take ℕ.zero s = ""
take (suc n) String.[] = ""
take (suc n) (String.◌∷◌ c s) = String.◌∷◌ c (take n s)

module _ (net : Net) (u : Unicode) where
  unfoldable pub host_without_port : String → String
  host_without_port h =
      if is_empty h then "" else elim (net.split_host_port h) [ some host ↦ host | none ↦ h ]

  unfoldable pub tenant_from_host : Options → Request → String
  tenant_from_host opts r =
      let host = host_without_port r.host in
      let base = to_lower u (trim_space opts.base_domain) in
      let suffix = "." <> base in
      let rest = take (size host - size suffix) host in
      if is_empty host || is_empty base
      then ""
      else if equal_fold u host base
      then ""
      else if not (has_suffix (to_lower u host) suffix)
      then ""
      else if is_empty rest
      then ""
      else sanitize_tenant u (before_first 0x2e rest)

  unfoldable pub tenant_from_path : Options → Request → String
  tenant_from_path opts r =
      let rest = trim_prefix (trim_prefix r.path opts.path_prefix) "/" in
      if is_empty opts.path_prefix
      then ""
      else if not (has_prefix r.path opts.path_prefix)
      then ""
      else if is_empty rest
      then ""
      else sanitize_tenant u (before_first 0x2f rest)

  unfoldable pub scheme_from_request : Request → (force_https : Bool) → String
  unfolding get forwarded_proto
  scheme_from_request r force_https =
      let xf = get "X-Forwarded-Proto" r.headers in
      if force_https
      then "https"
      else if not (is_empty xf)
      then forwarded_proto xf
      else if r.is_tls
      then "https"
      else "http"

  unfoldable pub issuer_for : Options → String → Request → String
  unfolding scheme_from_request host_without_port
  issuer_for opts tenant r =
      let scheme = scheme_from_request r opts.force_https in
      let trimmed = trim_space opts.base_domain in
      let base = if is_empty trimmed then host_without_port r.host else trimmed in
      if opts.host_is_tenant
      then (((scheme <> "://") <> tenant) <> ".") <> base
      else ((((scheme <> "://") <> base) <> opts.path_prefix) <> "/") <> tenant

  -- A tenant with its issuer.
  abbrev found : Options → Request → String → Result TenantError (String × String)
  found opts r tenant = ok (tenant, issuer_for opts tenant r)

  -- A tenant that is given by its name, which must be a token.
  abbrev named : Options → Request → String → Result TenantError (String × String)
  named opts r name =
      let tenant = sanitize_tenant u name in
      if is_empty tenant then err bad_tenant_token else found opts r tenant

  unfoldable pub resolve : Options → Request → Result TenantError (String × String)
  resolve opts r =
      let header = trim_space (get opts.header_key r.headers) in
      let from_host = tenant_from_host opts r in
      let from_path = tenant_from_path opts r in
      if not (is_empty opts.header_key) && not (is_empty header)
      then named opts r header
      else if opts.host_is_tenant && not (is_empty from_host)
      then found opts r from_host
      else if not (is_empty opts.path_prefix) && not (is_empty from_path)
      then found opts r from_path
      else if not (is_empty opts.default_tenant)
      then named opts r opts.default_tenant
      else err no_tenant
