-- ===== src/Platform/Assertion.antt =====
-- pkg/platform/lti/token.go: verifySecret and verifyClientAssertion, the two ways in which a client
-- shows who it is.
pub mod Once
use Prim.Native.String.{◌++◌ as ◌<>◌}
use mindengage_lms.Prelude.{
  ℕ, ◌+◌, ◌*◌, ◌%◌, ◌^◌, ◌==◌, ℤ, pos, ltb_ℤ, eqb_ℤ, sub64, String, Bool, true, false, not, ◌&&◌,
  ◌||◌, Option, none, some, List, [], ◌∷◌, any, Result, ok, err, ◌>>=◌, ◌>>◌, fail_if, or_fail,
  required, str_eq, if◌then◌else◌,
}
use mindengage_lms.Strings.{trim_space, is_empty, has_prefix}
use mindengage_lms.Strings.Split.{split_on, before_last}
use mindengage_lms.Platform.Replay.{Protector}

-- A key of a JWKS: its members that are texts. A nil key is `none` in the set.
pub record Jwk : Type 0 where
  pub kty : Option String
  pub kid : Option String
  pub n : Option String
  pub e : Option String

-- OAuthClient
pub record OAuthClient : Type 0 where
  pub client_id : String
  pub secret_hash : String
  pub jwks : List (Option Jwk)
  pub allowed_scopes : List String

-- rsa.PublicKey, with the exponent as a pattern of 64 bits.
pub record PublicKey : Type 0 where
  pub modulus : ℕ
  pub exponent : ℕ

pub record JwtHeader : Type 0 where
  pub alg : String
  pub kid : String

-- The types of the claim "aud"; the elements that are no texts are `none`.
pub data Audience : Type 0 where
  other : Audience
  single : String → Audience
  several : List (Option String) → Audience

pub record JwtClaims : Type 0 where
  pub iss : String
  pub sub : String
  pub aud : Audience
  pub exp : ℤ
  pub iat : ℤ
  pub nbf : ℤ
  pub jti : String

-- What the file calls of other packages: base64.RawURLEncoding.DecodeString, json.Unmarshal into the
-- structs of the header, of the claims and of the issuer and subject, rsa.VerifyPKCS1v15 on the
-- SHA-256 sum of a text, bcrypt.CompareHashAndPassword, and the verb %q of fmt.
pub record Crypto : Type 0 where
  pub decode : String → Option (List ℕ)
  pub read_header : List ℕ → Option JwtHeader
  pub read_claims : List ℕ → Option JwtClaims
  pub read_subject : List ℕ → Option (String × String)
  pub verify_rsa : PublicKey → (signed : String) → (signature : List ℕ) → Bool
  pub quote : String → String
  pub bcrypt_matches : (hash password : String) → Bool

module _ (crypto : Crypto) where
  unfoldable pub verify_secret : (stored_hash provided : String) → Result String (Unit {0})
  verify_secret stored_hash provided =
      let stored = trim_space stored_hash in
      let is_bcrypt =
        has_prefix stored "$2a$" || has_prefix stored "$2b$" || has_prefix stored "$2y$" in
      if is_empty stored
      then err "no client_secret configured"
      else if is_bcrypt
      then fail_if (not (crypto.bcrypt_matches stored provided)) "bcrypt mismatch"
      else fail_if (not (str_eq stored provided)) "secret mismatch"

  abbrev decoded : String → Result String (List ℕ)
  decoded s = required (crypto.decode s) "illegal base64 data"

  unfoldable pub split_jwt : String → Result String (List ℕ × List ℕ × List ℕ)
  split_jwt jwt = elim (split_on 0x2e jwt) [
    | h ∷ p ∷ s ∷ [] ↦ do hb ← decoded h; pb ← decoded p; sb ← decoded s; ok (hb, pb, sb)
    | _ ↦ err "want 3 parts"
  ]

  unfoldable pub peek_jwt_issuer_subject : String → Result String (String × String)
  peek_jwt_issuer_subject jwt = elim (split_on 0x2e jwt) [
    | h ∷ p ∷ rest ↦ do pb ← decoded p; required (crypto.read_subject pb) "invalid JSON"
    | _ ↦ err "malformed"
  ]

-- The exponent of its bytes, `e << 8 | b` on 64 bits.
unfoldable pub exponent_of : ℕ → List ℕ → ℕ
exponent_of e [] = e
exponent_of e (b ∷ bs) = exponent_of ((e * 256 + b) % 2 ^ 64) bs

-- big.Int.SetBytes
unfoldable pub modulus_of : ℕ → List ℕ → ℕ
modulus_of n [] = n
modulus_of n (b ∷ bs) = modulus_of (n * 256 + b) bs

abbrev text_of : Option String → String
text_of none = ""
text_of (some s) = s

module _ (crypto : Crypto) where
  -- The public key of an entry, where it is an RSA key with the wanted kid that can be read.
  unfoldable pub rsa_key : (kid : String) → Jwk → Option PublicKey
  unfolding exponent_of modulus_of
  rsa_key kid k =
      let e64 = λ (bytes : List ℕ). exponent_of 0 bytes in
      let is_wanted = is_empty kid || str_eq (text_of k.kid) kid in
      if not (str_eq (text_of k.kty) "RSA") || not is_wanted
      then none
      else if is_empty (text_of k.n) || is_empty (text_of k.e)
      then none
      else elim (crypto.decode (text_of k.n)) [
        | none ↦ none
        | some nb ↦ elim (crypto.decode (text_of k.e)) [
          | none ↦ none
          | some eb ↦
              if e64 eb == 0
              then none
              else some (record { modulus = modulus_of 0 nb; exponent = e64 eb })
        ]
      ]

  abbrev cons_some : {A : Type 0} → Option A → List A → List A
  cons_some none xs = xs
  cons_some (some x) xs = x ∷ xs

  unfoldable pub rsa_keys : (kid : String) → List (Option Jwk) → List PublicKey
  unfolding rsa_key
  rsa_keys kid [] = []
  rsa_keys kid (none ∷ ks) = rsa_keys kid ks
  rsa_keys kid (some k ∷ ks) = cons_some (rsa_key kid k) (rsa_keys kid ks)

  unfoldable pub rsa_public_keys_from_jwks :
      List (Option Jwk) → (kid : String) → Result String (List PublicKey)
  rsa_public_keys_from_jwks set kid = elim (rsa_keys kid set) [
    | [] ↦ err (
        if is_empty kid
        then "no RSA keys in client JWKS"
        else "no RSA key with kid " <> crypto.quote kid)
    | k ∷ ks ↦ ok (k ∷ ks)
  ]

abbrev element_is : String → Option String → Bool
element_is want none = false
element_is want (some s) = str_eq (trim_space s) want

unfoldable pub aud_contains : Audience → (want : String) → Bool
aud_contains other want = false
aud_contains (single v) want = str_eq (trim_space v) want
aud_contains (several vs) want = any (element_is want) vs

-- "header.payload", the text before the last dot.
unfoldable pub signing_input : String → String
signing_input jwt = text_of (before_last 0x2e jwt)

-- The checks of the claims, at the time of the request in seconds.
unfoldable pub check_claims :
    ℤ → OAuthClient → (audience : String) → JwtClaims → Result String (Unit {0})
unfolding aud_contains
check_claims now client audience c = do
  fail_if
      (is_empty c.iss
        || is_empty c.sub
        || not (str_eq c.iss c.sub)
        || not (str_eq c.sub client.client_id))
      "iss/sub mismatch"
  fail_if (not (aud_contains c.aud audience)) "aud mismatch"
  fail_if (eqb_ℤ c.exp (pos 0) || ltb_ℤ c.exp now) "assertion expired"
  fail_if (ltb_ℤ (pos 0) c.iat && ltb_ℤ (pos 600) (sub64 now c.iat)) "assertion too old"
  fail_if (ltb_ℤ (pos 0) c.nbf && ltb_ℤ now c.nbf) "assertion not yet valid"

-- Some key of the client verifies the signature.
unfoldable pub check_signature :
    Crypto
    → OAuthClient
    → (kid assertion : String) → (signature : List ℕ) → Result String (Unit {0})
unfolding rsa_public_keys_from_jwks signing_input
check_signature crypto client kid assertion sig = do
  fail_if (elim client.jwks [ [] ↦ true | _ ↦ false ]) "no client keys registered"
  keys ← rsa_public_keys_from_jwks crypto client.jwks kid
  fail_if (not (any (λ k. crypto.verify_rsa k (signing_input assertion) sig) keys))
      "signature verification failed"

-- What is read of an assertion before its claims are used up.
unfoldable pub read_assertion :
    Crypto
    → ℤ
    → OAuthClient
    → (assertion audience : String) → Result String (JwtHeader × JwtClaims × List ℕ)
read_assertion crypto now client assertion audience = do
  parts ← or_fail (split_jwt crypto assertion) "malformed client_assertion"
  h ← required (crypto.read_header parts.0) "invalid JWT header"
  fail_if (not (str_eq h.alg "RS256")) "unsupported alg (only RS256)"
  c ← required (crypto.read_claims parts.1) "invalid JWT claims"
  check_claims now client audience c
  ok (h, c, parts.2)

abbrev is_accepted : Result String Bool → Bool
is_accepted (ok fresh) = fresh
is_accepted (err e) = false

module _ {S : Type 0} where
  -- The use of the id of the token, where there is a cache and an id; 900 seconds are 15 minutes.
  unfoldable pub use_jti : Option (Protector S) → OAuthClient → JwtClaims → S → Bool × S
  use_jti none client c s = (true, s)
  use_jti (some replay) client c s =
      if is_empty (trim_space c.jti)
      then (true, s)
      else let (used, s') = replay ("pkjwt_jti:" <> client.client_id) c.jti (pos 900) s in
        (is_accepted used, s')

  unfoldable pub verify_client_assertion :
      Crypto
      → Option (Protector S)
      → ℤ
      → OAuthClient
      → (assertion audience : String) → S
      → Result String (Unit {0}) × S
  unfolding use_jti
  verify_client_assertion crypto replay now client assertion audience s =
      elim (read_assertion crypto now client assertion audience) [
        | err e ↦ (err e, s)
        | ok (h, c, sig) ↦
            let (fresh, s') = use_jti replay client c s in
            (
              if fresh
                  then check_signature crypto client h.kid assertion sig
                  else err "assertion replay detected",
              s',
            )
      ]
