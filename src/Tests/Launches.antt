-- ===== src/Tests/Launches.antt =====
-- The keys, the launches and the key sets of pkg/platform/lti at concrete values.
use mindengage_lms.Prelude.{
  ℕ, ℤ, pos, String, true, false, ◌≡◌, refl, none, some, List, [], ◌∷◌, ok, err, add_ℤ,
  if◌then◌else◌, insert, lookup, str_eq, ◌≤ℤ◌, arith,
}
use mindengage_lms.Strings.{equal_fold, is_space, trim_left, trim_right, trim_space}
use mindengage_lms.Platform.Http.{Request, get, is_http_url}
use mindengage_lms.Platform.Assertion.{Crypto, rsa_key}
use mindengage_lms.Platform.Jwks.{
  PublicJwk, kid_of, big_bytes, fill_bytes, int_byte_len, rsa_public_jwk,
}
use mindengage_lms.Platform.Jwks.Decoded.{as_read, rsa_public_jwk-rsa_key}
use mindengage_lms.Platform.Keys.{
  KeyRecord, KeyCrypto, InMemoryKeys, is_active, public_of, list_keys, save_key, in_memory_storage,
}
use mindengage_lms.Platform.Keys.Manager.{
  KeyManager, now_of, alg_of, rsa_bits, rotate_every, overlap_of, first_active, make_kid,
  generate_key, generate_and_save, ensure_current_key, sign_jwt, sign, public_jwks,
}
use mindengage_lms.Platform.Keys.Kept.{in_memory, SignCall, NoneTakes, after_signs}
use mindengage_lms.Platform.Keys.Published.{IsMember, sign-IsPublished}
use mindengage_lms.Platform.Authorize.{
  LtiTool, LaunchInfo, AuthorizeServer, FormPost, eq_fold, redirect_allowed,
}
use mindengage_lms.Platform.Authorize.Handler.{read_asked, authorize_handler}
use mindengage_lms.Platform.Authorize.Posts.{IsLaunch, authorize_handler-IsLaunch}
use mindengage_lms.Tests.Setup.{plain_unicode}
use mindengage_lms.Tests.Requests.{plain_net, request, lenient}

abbrev launch_request : Request
launch_request = record request {
  method = "GET";
  query =
      ("response_type", " id_token")
      ∷ ("response_mode", "form_post")
      ∷ ("client_id", "c1 ")
      ∷ ("redirect_uri", "https://quiz.org/launch")
      ∷ ("nonce", "n1")
      ∷ ("state", "s1")
      ∷ [];
}

abbrev launch_tool : LtiTool
launch_tool = record {
  client_id = "c1";
  name = "Quiz";
  redirect_uris = "https://quiz.org/other" ∷ " https://quiz.org/launch " ∷ [];
}

abbrev launch_info : LaunchInfo
launch_info = record {
  user_id = "u1";
  user_roles = "Learner" ∷ [];
  deployment_id = "d1";
  context_id = "ctx";
  context_label = "";
  context_title = "";
  resource_link_id = "rl1";
  line_items_url = "";
  ags_scope = [];
  nrps_url = "";
  deep_linking = false;
  deep_link_return_url = "";
  deep_link_data = "";
}

abbrev launch_server : AuthorizeServer
launch_server = record {
  issuers = some (λ tenant. ok "https://lms.org");
  registry = some (λ tenant id. if str_eq id "c1" then ok launch_tool else err "unknown");
  launches = some (λ tenant id login message. ok launch_info);
  signer = some (λ tenant claims. ok "signed");
  resolve_tenant_id = some (λ r. ok "acme");
  now = some (pos 1000);
  token_ttl = pos 0;
  external_base_path = "";
  product_name = "";
  product_version = "";
  platform_guid = "";
  random_hex = "ab";
}

abbrev launch_post : FormPost
launch_post = record { action = "https://quiz.org/launch"; id_token = "signed"; state = "s1" }

authorize_handler-IsLaunch_example :
    IsLaunch plain_net plain_unicode launch_server (pos 1000) launch_request launch_post
unfolding authorize_handler read_asked eq_fold equal_fold redirect_allowed is_http_url get lookup
    str_eq is_space trim_left trim_right trim_space
authorize_handler-IsLaunch_example =
    authorize_handler-IsLaunch plain_net plain_unicode launch_server (pos 1000) launch_request
      {post = launch_post} refl

-- A key is its modulus.
abbrev key_crypto : KeyCrypto ℕ (Unit {0}) String
key_crypto = record {
  rsa_public = λ key. record { n = some key; e = 65537 };
  ec_public = λ key. record { x = none; y = none; curve = none };
  generate_rsa = λ bits. ok 77;
  sign_pkcs1v15_sha256 = λ key signed. ok (key ∷ []);
  b64url = λ bytes. "b";
  marshal_header = λ alg typ kid. ok [];
  marshal_claims = λ claims. ok [];
  hash_hex = λ key. "h";
  random_hex = "r";
  quote = λ s. s;
}

abbrev key_manager : KeyManager ℕ (Unit {0}) (InMemoryKeys ℕ (Unit {0}))
key_manager = record {
  storage = none;
  alg = "";
  rsa_key_bits = pos 0;
  rotation_interval = pos 0;
  overlap = pos 0;
  now = none;
}

abbrev as_stored : List (KeyRecord ℕ (Unit {0})) → List (KeyRecord ℕ (Unit {0}))
as_stored ks = ks

abbrev new_key : KeyRecord ℕ (Unit {0})
new_key = record {
  kid = "rsa-h-r";
  alg = "RS256";
  created_at = pos 1000;
  not_before = pos 1000;
  not_after = pos 7777000;
  rsa_private = some 77;
  ecdsa_private = none;
}

sign-IsPublished_example :
    (k : KeyRecord ℕ (Unit {0})) × (jwk : PublicJwk) × (sign_jwt key_crypto "claims" k ≡ ok "b.b.b")
    × (is_active k (now_of key_manager (pos 1000)) ≡ true)
    × (public_of key_crypto k ≡ some jwk)
    × (kid_of jwk ≡ k.kid)
    × ((calls : List (SignCall ℕ (Unit {0}) String)) (t : ℤ)
        → NoneTakes k.kid calls
        → now_of key_manager (pos 1000) ≤ℤ now_of key_manager t
        → now_of key_manager t ≤ℤ add_ℤ k.not_after (overlap_of key_manager)
        → (jwks : List PublicJwk) × (public_jwks key_crypto
              (in_memory key_manager as_stored)
              t
              "acme"
              (after_signs calls (("acme", ("rsa-h-r", new_key) ∷ []) ∷ []))
            ≡ ok jwks)
          × IsMember jwk jwks)
unfolding sign ensure_current_key in_memory_storage list_keys save_key first_active
    generate_and_save generate_key make_kid alg_of rsa_bits rotate_every overlap_of now_of sign_jwt
    add_ℤ lookup insert str_eq is_space trim_left trim_right trim_space
sign-IsPublished_example =
    sign-IsPublished key_crypto (λ key. (key, refl, refl)) key_manager as_stored as_stored
      (record { visits = λ k ks m. m; adds_none = λ k ks m. m })
      (record { visits = λ k ks m. m; adds_none = λ k ks m. m }) (pos 1000) "acme" "claims" []
      (("acme", ("rsa-h-r", new_key) ∷ []) ∷ []) tt refl

abbrev two_texts : Crypto
two_texts = record lenient {
  decode = λ s. if str_eq s "n" then some (1 ∷ 2 ∷ []) else some (1 ∷ 0 ∷ 1 ∷ []);
}

abbrev two_codes : List ℕ → String
two_codes (a ∷ b ∷ []) = "n"
two_codes bytes = "e"

rsa_public_jwk-rsa_key_example :
    (jwk : PublicJwk) × (rsa_public_jwk two_codes (record { n = some 258; e = 65537 }) "k1" "RS256"
      ≡ some jwk)
    × (rsa_key two_texts "k1" (as_read jwk) ≡ some (record { modulus = 258; exponent = 65537 }))
unfolding big_bytes fill_bytes int_byte_len str_eq
rsa_public_jwk-rsa_key_example =
    rsa_public_jwk-rsa_key two_texts two_codes 258 65537 "k1" "RS256" (omega arith) (omega arith)
      (refl, refl) (refl, refl)
