-- ===== src/Platform/Keys.antt =====
-- pkg/platform/lti/keys.go: the signing keys of the tenants and their storage. Times and durations are
-- in whole seconds.
pub mod Manager
pub mod Kept
pub mod Published
use mindengage_lms.Prelude.{
  ℕ, ℤ, ltb_ℤ, String, Bool, true, false, not, ◌&&◌, ◌||◌, Option, none, some, List, [], ◌∷◌, GoMap,
  lookup, insert, Result, ok, err, if◌then◌else◌,
}
use mindengage_lms.Strings.{trim_space, is_empty}
use mindengage_lms.Platform.Jwks.{
  RsaPublicKey, EcPublicKey, PublicJwk, rsa_public_jwk, ec_public_jwk,
}

-- A private key is of type `K` for RSA and `E` for ECDSA.
pub record KeyRecord (K E : Type 0) : Type 0 where
  pub kid : String
  pub alg : String
  pub created_at : ℤ
  pub not_before : ℤ
  pub not_after : ℤ
  pub rsa_private : Option K
  pub ecdsa_private : Option E

-- What keys.go calls: crypto/rsa and crypto/ecdsa, the encodings of json.Marshal and base64 of a
-- header and of claims, the hexadecimal start of the hash of a key in makeKID, its random suffix, and
-- the verb %q of fmt.
pub record KeyCrypto (K E C : Type 0) : Type 0 where
  pub rsa_public : K → RsaPublicKey
  pub ec_public : E → EcPublicKey
  pub generate_rsa : (bits : ℤ) → Result String K
  pub sign_pkcs1v15_sha256 : K → String → Result String (List ℕ)
  pub b64url : List ℕ → String
  pub marshal_header : (alg typ kid : String) → Result String (List ℕ)
  pub marshal_claims : C → Result String (List ℕ)
  pub hash_hex : RsaPublicKey → String
  pub random_hex : String
  pub quote : String → String

module _ {K E : Type 0} where
  unfoldable pub is_active : KeyRecord K E → (now : ℤ) → Bool
  is_active k now = not (ltb_ℤ now k.not_before) && ltb_ℤ now k.not_after

  unfoldable pub is_visible_in_jwks : KeyRecord K E → (now overlap : ℤ) → Bool
  is_visible_in_jwks k now overlap = ltb_ℤ now overlap

  -- KeyRecord.Public
  unfoldable pub public_of : {C : Type 0} → KeyCrypto K E C → KeyRecord K E → Option PublicJwk
  public_of crypto k = elim k.rsa_private [
    | some key ↦ rsa_public_jwk crypto.b64url (crypto.rsa_public key) k.kid k.alg
    | none ↦ elim k.ecdsa_private [
      | some key ↦ ec_public_jwk crypto.b64url (crypto.ec_public key) k.kid k.alg
      | none ↦ none
    ]
  ]

-- The interface KeyStorage, over its state; the first text is the tenant.
pub record KeyStorage (K E S : Type 0) : Type 0 where
  pub list : String → S → Result String (List (KeyRecord K E))
  pub save : String → KeyRecord K E → S → Result String (Unit {0}) × S
  pub find : String → (kid : String) → S → Result String (KeyRecord K E)

-- InMemoryKeyStorage: the keys of each tenant by their kid. Its lock makes each operation one step.
abbrev pub InMemoryKeys : (K E : Type 0) → Type 0
InMemoryKeys K E = GoMap (GoMap (KeyRecord K E))

module _ {K E : Type 0} where
  abbrev pub values : GoMap (KeyRecord K E) → List (KeyRecord K E)
  values [] = []
  values ((kid, k) ∷ m) = k ∷ values m

  abbrev pub entries : Option (GoMap (KeyRecord K E)) → GoMap (KeyRecord K E)
  entries none = []
  entries (some m) = m

  abbrev pub keys_of : String → InMemoryKeys K E → GoMap (KeyRecord K E)
  keys_of tenant s = entries (lookup tenant s)

  -- `visit` is the order in which `range` goes through a map.
  unfoldable pub list_keys :
      (visit : List (KeyRecord K E) → List (KeyRecord K E))
      → String
      → InMemoryKeys K E
      → Result String (List (KeyRecord K E))
  unfolding lookup
  list_keys visit tenant s = elim (lookup tenant s) [
    | none ↦ ok []
    | some m ↦ ok (visit (values m))
  ]

  unfoldable pub save_key :
      String → KeyRecord K E → InMemoryKeys K E → Result String (Unit {0}) × InMemoryKeys K E
  save_key tenant k s =
      if is_empty (trim_space tenant) || is_empty (trim_space k.kid)
      then (err "keystore: tenant and kid required", s)
      else (ok tt, insert tenant (insert k.kid k (keys_of tenant s)) s)

  unfoldable pub get_key :
      String → (kid : String) → InMemoryKeys K E → Result String (KeyRecord K E)
  unfolding lookup
  get_key tenant kid s = elim (lookup tenant s) [
    | none ↦ err "keystore: tenant not found"
    | some m ↦ elim (lookup kid m) [ none ↦ err "keystore: key not found" | some k ↦ ok k ]
  ]

  unfoldable pub in_memory_storage :
      (visit : List (KeyRecord K E) → List (KeyRecord K E)) → KeyStorage K E (InMemoryKeys K E)
  in_memory_storage visit = record { list = list_keys visit; save = save_key; find = get_key }
