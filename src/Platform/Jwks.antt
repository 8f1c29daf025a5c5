-- ===== src/Platform/Jwks.antt =====
-- pkg/platform/lti/jwks.go: public keys as JSON Web Keys, and their endpoint.
pub mod Decoded
use Prim.Native.String.{◌++◌ as ◌<>◌}
use mindengage_lms.Prelude.{
  ℕ, zero, suc, ◌/◌, ◌%◌, leb, ◌==◌, ℤ, pos, ltb_ℤ, String, Bool, true, false, not, ◌&&◌, ◌||◌,
  str_eq, Option, none, some, List, [], ◌∷◌, GoMap, lookup, Result, ok, err, ◌>>=◌, ◌>>◌, fail_if,
  required, or_fail, if◌then◌else◌,
}
use mindengage_lms.Strings.{trim_space, is_empty}
use mindengage_lms.Platform.Http.{Request, get}

-- rsa.PublicKey: its exponent is not negative.
pub record RsaPublicKey : Type 0 where
  pub n : Option ℕ
  pub e : ℕ

-- ecdsa.PublicKey, with the name of its curve.
pub record EcPublicKey : Type 0 where
  pub x : Option ℕ
  pub y : Option ℕ
  pub curve : Option String

-- A JWK, by its `kty`: the kid, the algorithm and the parameters of the key. Its `use` is "sig" and
-- its `key_ops` are ["verify"].
pub data PublicJwk : Type 0 where
  rsa_jwk : (kid alg n e : String) → PublicJwk
  ec_jwk : (kid alg crv x y : String) → PublicJwk

unfoldable pub kid_of : PublicJwk → String
kid_of (rsa_jwk kid alg n e) = kid
kid_of (ec_jwk kid alg crv x y) = kid

abbrev is_one_of : String → List String → Bool
is_one_of s [] = false
is_one_of s (t ∷ ts) = str_eq s t || is_one_of s ts

unfoldable pub curve_name : String → String
curve_name name =
    if is_one_of name ("P-256" ∷ "prime256v1" ∷ "secp256r1" ∷ [])
    then "P-256"
    else if is_one_of name ("P-384" ∷ "secp384r1" ∷ [])
    then "P-384"
    else if is_one_of name ("P-521" ∷ "secp521r1" ∷ [])
    then "P-521"
    else ""

-- big.Int.FillBytes into as many bytes as the number has, before the bytes `acc`. A number is more
-- than the count of its bytes, so it is fuel enough.
unfoldable pub big_bytes : (fuel n : ℕ) → (acc : List ℕ) → List ℕ
big_bytes zero n acc = acc
big_bytes (suc fuel) zero acc = acc
big_bytes (suc fuel) (suc n) acc = big_bytes fuel (suc n / 256) ((suc n % 256) ∷ acc)

-- big.Int.FillBytes into `count` bytes, before the bytes `acc`.
unfoldable pub fill_bytes : (count n : ℕ) → (acc : List ℕ) → List ℕ
fill_bytes zero n acc = acc
fill_bytes (suc count) n acc = fill_bytes count (n / 256) ((n % 256) ∷ acc)

unfoldable pub int_byte_len : ℕ → ℕ
int_byte_len v =
    if leb v 0xff
    then 1
    else if leb v 0xffff
    then 2
    else if leb v 0xffffff
    then 3
    else if leb v 0xffffffff
    then 4
    else 8

-- `b64url` is base64.RawURLEncoding.EncodeToString.
module _ (b64url : List ℕ → String) where
  unfoldable pub big_int_to_b64 : ℕ → String
  big_int_to_b64 n = b64url (big_bytes n n [])

  unfoldable pub int_to_b64 : ℕ → String
  int_to_b64 e = b64url (fill_bytes (int_byte_len e) e [])

  unfoldable pub rsa_public_jwk : RsaPublicKey → (kid alg : String) → Option PublicJwk
  rsa_public_jwk key kid alg = elim key.n [
    | none ↦ none
    | some n ↦
        if key.e == 0 then none else some (rsa_jwk kid alg (big_int_to_b64 n) (int_to_b64 key.e))
  ]

  abbrev ec_coordinates :
      Option ℕ → Option ℕ → Option String → (kid alg : String) → Option PublicJwk
  ec_coordinates (some x) (some y) (some curve) kid alg =
      if is_empty (curve_name curve)
      then none
      else some (ec_jwk kid alg (curve_name curve) (big_int_to_b64 x) (big_int_to_b64 y))
  ec_coordinates none y curve kid alg = none
  ec_coordinates (some x) none curve kid alg = none
  ec_coordinates (some x) (some y) none kid alg = none

  unfoldable pub ec_public_jwk : EcPublicKey → (kid alg : String) → Option PublicJwk
  ec_public_jwk key kid alg = ec_coordinates key.x key.y key.curve kid alg

-- JWKSHandler; the age and the times are in seconds.
pub record JwksHandler : Type 0 where
  pub resolve_tenant_id : Option (Request → Result String String)
  pub provider : Option (String → Result String (List PublicJwk))
  pub cache_max_age : ℤ
  pub allow_cors : Bool
  pub now : Option ℤ

-- A status with the text of http.Error.
pub record JwksError : Type 0 where
  pub status : ℕ
  pub message : String

-- The answer with its headers; `allow_origin` is `none` where the header is not set.
pub record JwksAnswer : Type 0 where
  pub status : ℕ
  pub content_type : String
  pub max_age : ℤ
  pub etag : String
  pub last_modified : ℤ
  pub allow_origin : Option String
  pub body : Option String

abbrev time_or : Option ℤ → (wall : ℤ) → ℤ
time_or none wall = wall
time_or (some t) wall = t

abbrev http_error : ℕ → String → JwksError
http_error status message = record { status = status; message = message }

abbrev resolved_tenant : Result String String → Result JwksError String
resolved_tenant (err e) = err (http_error 400 "jwks: unable to resolve tenant")
resolved_tenant (ok t) =
    if is_empty (trim_space t) then err (http_error 400 "jwks: unable to resolve tenant") else ok t

abbrev provided : Result String (List PublicJwk) → Result JwksError (List PublicJwk)
provided (ok keys) = ok keys
provided (err e) = err (http_error 500 ("jwks: " <> e))

-- `marshal` is json.Marshal of a set of keys, `sha256` the sum of a payload.
module _ (b64url : List ℕ → String) (marshal : List PublicJwk → Result String String)
    (sha256 : String → List ℕ) (h : JwksHandler) where
  unfoldable pub compute_etag : String → String
  compute_etag payload = "W/\"" <> b64url (sha256 payload) <> "\""

  unfoldable pub cache_age : ℤ
  cache_age = if ltb_ℤ (pos 0) h.cache_max_age then h.cache_max_age else pos 600

  abbrev jwks_answer : (status : ℕ) (now : ℤ) (etag : String) → Option String → JwksAnswer
  jwks_answer status now etag body = record {
    status = status;
    content_type = "application/jwk-set+json";
    max_age = cache_age;
    etag = etag;
    last_modified = now;
    allow_origin = if h.allow_cors then some "*" else none;
    body = body;
  }

  -- ServeHTTP; `wall` is time.Now.
  unfoldable pub serve_http : (wall : ℤ) → Request → Result JwksError JwksAnswer
  unfolding compute_etag get
  serve_http wall r = do
    let not_configured = http_error 500 "jwks: not configured"
    resolve ← required h.resolve_tenant_id not_configured
    public_jwks ← required h.provider not_configured
    tenant ← resolved_tenant (resolve r)
    keys ← provided (public_jwks tenant)
    payload ← or_fail (marshal keys) (http_error 500 "jwks: marshal error")
    let now = time_or h.now wall
    let etag = compute_etag payload
    let match = get "If-None-Match" r.headers
    ok (
        if not (is_empty match) && str_eq match etag
        then jwks_answer 304 now etag none
        else if str_eq r.method "HEAD"
        then jwks_answer 200 now etag none
        else jwks_answer 200 now etag (some payload))

-- StaticJWKS and MapJWKSProvider
unfoldable pub static_jwks : List PublicJwk → (tenant : String) → Result String (List PublicJwk)
static_jwks keys tenant = ok keys

unfoldable pub map_jwks : GoMap (List PublicJwk) → String → Result String (List PublicJwk)
unfolding lookup
map_jwks sets tenant = elim (lookup tenant sets) [
  | none ↦ err "jwks: tenant not found"
  | some keys ↦ ok keys
]
