-- ===== src/Platform/Jwks/Decoded.antt =====
-- pkg/platform/lti/jwks.go and token.go: the keys that are published, read back.
use mindengage_lms.Prelude.{
  ℕ, zero, suc, ◌*◌, ◌/◌, ◌%◌, ◌^◌, ◌≤◌, ◌<◌, ◌==◌, String, Bool, true, false, ◌≡◌, refl, ap, ◌∙◌,
  none, some, List, [], ◌∷◌, str_eq_refl, ◌||◌, arith,
}
use mindengage_lms.Strings.{is_empty}
use mindengage_lms.Platform.Assertion.{Jwk, Crypto, exponent_of, modulus_of, rsa_key}
use mindengage_lms.Platform.Jwks.{
  PublicJwk, rsa_jwk, ec_jwk, big_bytes, fill_bytes, int_byte_len, big_int_to_b64, int_to_b64,
  rsa_public_jwk,
}

modulus_of-big_bytes :
    (fuel n : ℕ) (acc : List ℕ) → n ≤ fuel → modulus_of 0 (big_bytes fuel n acc) ≡ modulus_of n acc
unfolding big_bytes modulus_of
modulus_of-big_bytes zero n acc h = ap (λ k. modulus_of k acc) (omega arith)
modulus_of-big_bytes (suc fuel) zero acc h = refl
modulus_of-big_bytes (suc fuel) (suc n) acc h =
    modulus_of-big_bytes fuel (suc n / 256) ((suc n % 256) ∷ acc) (omega arith)
    ∙ ap (λ k. modulus_of k acc) (omega arith)

-- 256 to the power of a count
abbrev limit : ℕ → ℕ
limit zero = 1
limit (suc count) = limit count * 256

exponent_of-fill_bytes :
    (count n : ℕ) (acc : List ℕ)
    → n < limit count
    → n < 2 ^ 64
    → exponent_of 0 (fill_bytes count n acc) ≡ exponent_of n acc
unfolding fill_bytes exponent_of
exponent_of-fill_bytes zero n acc h b = ap (λ k. exponent_of k acc) (omega arith)
exponent_of-fill_bytes (suc count) n acc h b =
    exponent_of-fill_bytes count (n / 256) ((n % 256) ∷ acc) (omega arith) (omega arith)
    ∙ ap (λ k. exponent_of k acc) (omega arith)

-- An exponent fits into the bytes that are chosen for it.
int_byte_len-fits : (e : ℕ) → e < 2 ^ 64 → e < limit (int_byte_len e)
unfolding int_byte_len
int_byte_len-fits e h = ground arith

or_true : (b : Bool) → b || true ≡ true
or_true true = refl
or_true false = refl

-- What encoding/json reads of a published key.
abbrev pub as_read : PublicJwk → Jwk
as_read (rsa_jwk kid alg n e) = record { kty = some "RSA"; kid = some kid; n = some n; e = some e }
as_read (ec_jwk kid alg crv x y) = record { kty = some "EC"; kid = some kid; n = none; e = none }

module _ (crypto : Crypto) (b64url : List ℕ → String) where
  -- The bytes are read back from their text, which is not empty.
  abbrev pub IsRead : List ℕ → Type 0
  IsRead bytes = (is_empty (b64url bytes) ≡ false) × (crypto.decode (b64url bytes) ≡ some bytes)

  -- An RSA key that is published by jwks.go is read back by token.go, under its kid, with the same
  -- modulus and exponent, where the exponent is from 1 to 2^64 - 1 and base64 decodes what it encodes.
  pub rsa_public_jwk-rsa_key :
      (n e : ℕ) (kid alg : String)
      → 0 < e
      → e < 2 ^ 64
      → IsRead (big_bytes n n [])
      → IsRead (fill_bytes (int_byte_len e) e [])
      → (jwk : PublicJwk) × (rsa_public_jwk b64url (record { n = some n; e = e }) kid alg
          ≡ some jwk)
        × (rsa_key crypto kid (as_read jwk) ≡ some (record { modulus = n; exponent = e }))
  unfolding rsa_public_jwk big_int_to_b64 int_to_b64 rsa_key
  rsa_public_jwk-rsa_key n e kid alg positive small (full_n, read_n) (full_e, read_e) =
      let nb = big_bytes n n [] in
      let eb = fill_bytes (int_byte_len e) e [] in
      let same_e : exponent_of 0 eb ≡ e =
        exponent_of-fill_bytes (int_byte_len e) e [] (int_byte_len-fits e small) small in
      let same_n : modulus_of 0 nb ≡ n = modulus_of-big_bytes n n [] (omega arith) in
      let is_positive : (e == 0) ≡ false = ground arith in
      (
        rsa_jwk kid alg (b64url nb) (b64url eb),
        rw is_positive refl,
        rw
            (
              str_eq_refl "RSA",
              str_eq_refl kid,
              or_true (is_empty kid),
              full_n,
              full_e,
              read_n,
              read_e,
              same_e,
              same_n,
              is_positive,
            )
            refl,
      )
