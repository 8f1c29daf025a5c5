-- ===== src/Platform/Keys/Manager.antt =====
-- pkg/platform/lti/keys.go: KeyManager, which signs with a current key and publishes the public ones.
use Prim.Native.String.{◌++◌ as ◌<>◌}
use mindengage_lms.Prelude.{
  ℕ, ℤ, pos, ltb_ℤ, leb_ℤ, add_ℤ, String, Option, none, some, List, [], ◌∷◌, str_eq, Result, ok,
  err, ◌>>=◌, required, if◌then◌else◌,
}
use mindengage_lms.Strings.{trim_space, is_empty}
use mindengage_lms.Strings.Split.{text_le}
use mindengage_lms.Platform.Jwks.{RsaPublicKey, PublicJwk, kid_of}
use mindengage_lms.Platform.Keys.{KeyRecord, KeyCrypto, KeyStorage, is_active, public_of}

pub record KeyManager (K E S : Type 0) : Type 0 where
  pub storage : Option (KeyStorage K E S)
  pub alg : String
  pub rsa_key_bits : ℤ
  pub rotation_interval : ℤ
  pub overlap : ℤ
  pub now : Option ℤ

abbrev pub cons_some : {A : Type 0} → Option A → List A → List A
cons_some none xs = xs
cons_some (some x) xs = x ∷ xs

-- sort.SliceStable by the greater kid
unfoldable pub insert_by_kid : PublicJwk → List PublicJwk → List PublicJwk
unfolding text_le kid_of
insert_by_kid k [] = k ∷ []
insert_by_kid k (j ∷ js) =
    let rest = insert_by_kid k js in if text_le (kid_of j) (kid_of k) then k ∷ j ∷ js else j ∷ rest

unfoldable pub sort_by_kid : List PublicJwk → List PublicJwk
sort_by_kid [] = []
sort_by_kid (k ∷ ks) = insert_by_kid k (sort_by_kid ks)

module _ {K E S : Type 0} (km : KeyManager K E S) where
  unfoldable pub now_of : (wall : ℤ) → ℤ
  now_of wall = elim km.now [ none ↦ wall | some t ↦ t ]

  unfoldable pub alg_of : String
  alg_of = if is_empty (trim_space km.alg) then "RS256" else km.alg

  unfoldable pub rsa_bits : ℤ
  rsa_bits = if leb_ℤ km.rsa_key_bits (pos 0) then pos 2048 else km.rsa_key_bits

  unfoldable pub rotate_every : ℤ
  rotate_every = if leb_ℤ km.rotation_interval (pos 0) then pos 7776000 else km.rotation_interval

  unfoldable pub overlap_of : ℤ
  overlap_of = if leb_ℤ km.overlap (pos 0) then pos 604800 else km.overlap

module _ {K E : Type 0} where
  -- The first key that is active.
  unfoldable pub first_active : (now : ℤ) → List (KeyRecord K E) → Option (KeyRecord K E)
  unfolding is_active
  first_active now [] = none
  first_active now (k ∷ ks) =
      let rest = first_active now ks in if is_active k now then some k else rest

  -- The public parts of the keys that are not before their time, nor after it by more than `overlap`.
  unfoldable pub visible_jwks :
      {C : Type 0} → KeyCrypto K E C → (now overlap : ℤ) → List (KeyRecord K E) → List PublicJwk
  visible_jwks crypto now overlap [] = []
  visible_jwks crypto now overlap (k ∷ ks) =
      let rest = visible_jwks crypto now overlap ks in
      if ltb_ℤ now k.not_before
      then rest
      else if ltb_ℤ (add_ℤ k.not_after overlap) now
      then rest
      else cons_some (public_of crypto k) rest

module _ {K E S : Type 0} where
  abbrev pub saved :
      KeyRecord K E → Result String (Unit {0}) × S → Result String (KeyRecord K E) × S
  saved k (ok _, s) = (ok k, s)
  saved k (err e, s) = (err e, s)

module _ {K E C : Type 0} (crypto : KeyCrypto K E C) where
  abbrev pub signature_of : KeyRecord K E → String → Result String (List ℕ)
  signature_of k to_sign =
      if str_eq k.alg "RS256"
      then (required k.rsa_private "key: missing RSA private key" >>= λ key.
          crypto.sign_pkcs1v15_sha256 key to_sign)
      else err ("sign: unsupported alg " <> crypto.quote k.alg)

  unfoldable pub sign_jwt : C → KeyRecord K E → Result String String
  sign_jwt claims k = do
    hb ← crypto.marshal_header k.alg "JWT" k.kid
    cb ← crypto.marshal_claims claims
    let to_sign = crypto.b64url hb <> "." <> crypto.b64url cb
    signature ← signature_of k to_sign
    ok (to_sign <> "." <> crypto.b64url signature)

  abbrev pub then_sign :
      {S : Type 0} → C → Result String (KeyRecord K E) × S → Result String String × S
  then_sign claims (err e, s) = (err e, s)
  then_sign claims (ok k, s) = (sign_jwt claims k, s)

module _ {K E C S : Type 0} (crypto : KeyCrypto K E C) (km : KeyManager K E S) where
  unfoldable pub make_kid : (prefix : String) → RsaPublicKey → String
  make_kid prefix key = prefix <> "-" <> crypto.hash_hex key <> "-" <> crypto.random_hex

  unfoldable pub generate_key : (now : ℤ) → Result String (KeyRecord K E)
  generate_key now =
      if str_eq (alg_of km) "RS256"
      then elim (crypto.generate_rsa (rsa_bits km)) [
        | err e ↦ err ("rsa generate: " <> e)
        | ok key ↦ ok (record {
          kid = make_kid "rsa" (crypto.rsa_public key);
          alg = "RS256";
          created_at = now;
          not_before = now;
          not_after = add_ℤ now (rotate_every km);
          rsa_private = some key;
          ecdsa_private = none;
        })
      ]
      else err ("unsupported alg " <> crypto.quote (alg_of km) <> " (only RS256 implemented here)")

  -- `storage.save` of a new key
  unfoldable pub generate_and_save :
      KeyStorage K E S → String → (now : ℤ) → S → Result String (KeyRecord K E) × S
  generate_and_save storage tenant now s = elim (generate_key now) [
    | err e ↦ (err e, s)
    | ok k ↦ saved k (storage.save tenant k s)
  ]

  -- The lock of the manager makes it one step.
  unfoldable pub ensure_current_key :
      KeyStorage K E S → String → (now : ℤ) → S → Result String (KeyRecord K E) × S
  ensure_current_key storage tenant now s = elim (storage.list tenant s) [
    | err e ↦ (err e, s)
    | ok keys ↦ elim (first_active now keys) [
      | none ↦ generate_and_save storage tenant now s
      | some k ↦
          if ltb_ℤ (add_ℤ now (overlap_of km)) k.not_after
          then (ok k, s)
          else generate_and_save storage tenant now s
    ]
  ]

  unfoldable pub sign : (wall : ℤ) → String → C → S → Result String String × S
  sign wall tenant claims s = elim km.storage [
    | none ↦ (err "keys: storage not configured", s)
    | some storage ↦ then_sign crypto claims (ensure_current_key storage tenant (now_of km wall) s)
  ]

  unfoldable pub public_jwks : (wall : ℤ) → String → S → Result String (List PublicJwk)
  public_jwks wall tenant s = do
    storage ← required km.storage "keys: storage not configured"
    keys ← storage.list tenant s
    ok (sort_by_kid (visible_jwks crypto (now_of km wall) (overlap_of km) keys))

  abbrev seeded_kid : String → K → String
  seeded_kid kid key =
      if is_empty (trim_space kid) then make_kid "rsa" (crypto.rsa_public key) else kid

  unfoldable pub seed_rsa_key :
      (wall : ℤ)
      → String
      → (kid : String) → Option K
      → (not_before not_after : ℤ) → S
      → Result String (Unit {0}) × S
  seed_rsa_key wall tenant kid priv not_before not_after s = elim km.storage [
    | none ↦ (err "keys: storage not configured", s)
    | some storage ↦ elim priv [
      | none ↦ (err "keys: nil rsa key", s)
      | some key ↦
          storage.save tenant
            (record {
              kid = seeded_kid kid key;
              alg = "RS256";
              created_at = now_of km wall;
              not_before = not_before;
              not_after = not_after;
              rsa_private = some key;
              ecdsa_private = none;
            })
            s
    ]
  ]

  abbrev kid_or_none : Option (KeyRecord K E) → Result String String
  kid_or_none none = err "keys: no active signing key for tenant"
  kid_or_none (some k) = ok k.kid

  -- ActiveKID, of a manager that has a storage.
  unfoldable pub active_kid : KeyStorage K E S → (wall : ℤ) → String → S → Result String String
  active_kid storage wall tenant s =
      storage.list tenant s >>= λ keys. kid_or_none (first_active (now_of km wall) keys)
