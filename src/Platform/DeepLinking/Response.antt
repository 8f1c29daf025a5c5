-- ===== src/Platform/DeepLinking/Response.antt =====
-- pkg/platform/lti/deeplinking/response.go: the handler of a deep linking response.
pub mod Persisted
use Prim.Native.String.{◌++◌ as ◌<>◌}
use mindengage_lms.Prelude.{
  ℕ, suc, String, Bool, true, false, not, ◌&&◌, ◌||◌, Option, none, some, List, [], ◌∷◌, length,
  GoMap, Result, ok, err, ◌>>=◌, ◌>>◌, fail_if, required, or_fail, str_eq, if◌then◌else◌,
}
use mindengage_lms.Strings.{trim_space, is_empty}
use mindengage_lms.Float.{Float64, zero_f}
use mindengage_lms.Exam.Models.{Value, obj, Fields}
use mindengage_lms.Platform.Http.{Request, Net, get, is_http_url}
use mindengage_lms.Platform.Authorize.{Refusal, refuse}
use mindengage_lms.Platform.DeepLinking.{
  LineItemHint, ContentItem, ClaimsCodec, first_non_empty, as_string, get_nested, is_resource_link,
  parse_content_items, unverified_claims,
}

-- The context that the items are stored in.
pub record Placed : Type 0 where
  pub tenant : String
  pub client_id : String
  pub deployment_id : String
  pub context_id : String

-- The interface Store, over its state.
pub record LinkStore (F S : Type 0) : Type 0 where
  pub upsert_resource_link :
      Placed
      → (resource_link_id title target_url : String) → Option (GoMap String)
      → S
      → Result String String × S
  pub upsert_platform_line_item :
      (tenant context_id resource_link_id resource_id label : String)
      → (score_max : F) → S
      → Result String String × S

-- Server. The Boolean that Replay.Use returns is taken, its error is not; `random_hex` has what randHex
-- gives for each item, and `with_status` a return address with the status and the count in its query.
pub record DeepLinkServer (F S : Type 0) : Type 0 where
  pub resolve_tenant_id : Option (Request → Result String String)
  pub issuer_for_tenant : String → Result String String
  pub verify_tool_jwt : (tenant client_id raw_jwt expected_aud : String) → Result String (Fields F)
  pub store : LinkStore F S
  pub replay : Option ((kind value : String) → S → Bool × S)
  pub random_hex : ℕ → String
  pub with_status : (return_url : String) → (count : ℕ) → String

-- A redirect, or the JSON of Output.
pub data DeepLinkAnswer : Type 0 where
  redirect : String → DeepLinkAnswer
  output :
      (status : String)
      → (placement_count : ℕ) → (created_line_items : List String) → DeepLinkAnswer

-- What the token says before the items are stored.
pub record Checked (F : Type 0) : Type 0 where
  pub placed : Placed
  pub items : List (ContentItem F)

abbrev pub is_failed : Result String String → Bool
is_failed (ok t) = false
is_failed (err e) = true

abbrev pub text_of : Result String String → String
text_of (ok t) = t
text_of (err e) = ""

-- An error whose text is sent after a message.
abbrev pub told : {A : Type 0} → Result String A → ℕ → String → Result Refusal A
told (ok a) status prefix = ok a
told (err e) status prefix = err (refuse status (prefix <> e))

module _ {F : Type 0} where
  abbrev pub label_of : (title : String) → LineItemHint F → String
  label_of title li = if is_empty (trim_space li.label) then title else trim_space li.label

module _ {F : Type 0} ⦃fl : Float64 F⦄ where
  abbrev pub score_max_of : LineItemHint F → F
  score_max_of li = if fl.le li.score_maximum zero_f then fl.of_ℕ 100 else li.score_maximum

abbrev pub cons_text : String → List String → List String
cons_text line rest = if is_empty line then rest else line ∷ rest

module _ {S A B : Type 0} where
  -- A step that changes the state, and the rest of the handler.
  abbrev pub run_then : Result Refusal A × S → (A → S → Result Refusal B × S) → Result Refusal B × S
  run_then (ok a, s) rest = rest a s
  run_then (err e, s) rest = (err e, s)

abbrev pub told_run :
    {S : Type 0} → (prefix : String) → Result String String × S → Result Refusal String × S
told_run prefix (ok a, s) = (ok a, s)
told_run prefix (err e, s) = (err (refuse 500 (prefix <> e)), s)

module _ {F S : Type 0} ⦃fl : Float64 F⦄ (net : Net) (codec : ClaimsCodec F)
    (server : DeepLinkServer F S) where
  abbrev pub required_tenant : Request → Result Refusal String
  required_tenant r =
      required server.resolve_tenant_id (refuse 400 "tenant resolver not configured") >>= λ resolve.
      told (resolve r) 400 ""

  unfoldable pub raw_jwt : Request → String
  unfolding first_non_empty get
  raw_jwt r = first_non_empty (
      get "JWT" r.post_form
      ∷ get "jwt" r.post_form
      ∷ get "id_token" r.post_form
      ∷ get "JWT" r.query
      ∷ get "jwt" r.query
      ∷ get "id_token" r.query
      ∷ [])

  -- The token up to its verification: the tenant, the client and the verified claims.
  unfoldable pub verified : Request → Result Refusal (String × String × Fields F)
  unfolding is_http_url
  verified r = do
    tenant ← required_tenant r
    fail_if (is_empty (trim_space (raw_jwt r)))
        (refuse 400 "missing Deep Linking JWT (JWT/id_token)")
    uv ← or_fail (unverified_claims codec (raw_jwt r)) (refuse 400 "malformed JWT")
    let client_id = as_string (get_nested uv "iss")
    fail_if (is_empty client_id) (refuse 400 "missing iss in JWT")
    let aud = server.issuer_for_tenant tenant
    fail_if (is_failed aud || not (is_http_url net (text_of aud)))
        (refuse 500 "issuer resolution failed")
    claims ←
        told (server.verify_tool_jwt tenant client_id (raw_jwt r) (text_of aud)) 401
          "jwt verification failed: "
    ok (tenant, client_id, claims)

  abbrev pub used : String → Bool × S → Result Refusal (Unit {0}) × S
  used message (true, s) = (ok tt, s)
  used message (false, s) = (err (refuse 401 message), s)

  abbrev pub use_with :
      Option ((kind value : String) → S → Bool × S)
      → (jti nonce : String) → S
      → Result Refusal (Unit {0}) × S
  use_with none jti nonce s = (ok tt, s)
  use_with (some use_once) jti nonce s =
      if not (is_empty jti)
      then used "jwt replay detected" (use_once "jti" jti s)
      else if not (is_empty nonce)
      then used "nonce replay detected" (use_once "nonce" nonce s)
      else (ok tt, s)

  -- The replay protection, by the jti or else the nonce of the claims.
  unfoldable pub check_replay : Fields F → S → Result Refusal (Unit {0}) × S
  check_replay claims s =
      use_with server.replay (as_string (get_nested claims "jti"))
        (as_string (get_nested claims "nonce")) s

  abbrev pub context_of : Value F → String
  context_of (obj m) = as_string (get_nested m "id")
  context_of _ = ""

  abbrev pub or_query : Request → String → (key : String) → String
  or_query r claimed key = if is_empty claimed then trim_space (get key r.query) else claimed

  abbrev pub is_none : List (ContentItem F) → Bool
  is_none [] = true
  is_none (it ∷ items) = false

  -- The checks of the message, of the context and of the items.
  unfoldable pub check_response :
      Request → (tenant client_id : String) → Fields F → Result Refusal (Checked F)
  check_response r tenant client_id claims = do
    let message_type =
        as_string (get_nested claims "https://purl.imsglobal.org/spec/lti/claim/message_type")
    fail_if (not (str_eq message_type "LtiDeepLinkingResponse"))
        (refuse 400 "not a Deep Linking Response")
    let claimed =
        as_string (get_nested claims "https://purl.imsglobal.org/spec/lti/claim/deployment_id")
    let deployment_id = or_query r claimed "deployment_id"
    let context = context_of (get_nested claims "https://purl.imsglobal.org/spec/lti/claim/context")
    let context_id = or_query r context "context_id"
    fail_if (is_empty deployment_id || is_empty context_id)
        (refuse 400 "deployment_id and context_id are required (claims or query)")
    items ←
        told
          (parse_content_items
            (get_nested claims "https://purl.imsglobal.org/spec/lti-dl/claim/content_items"))
          400 "invalid content_items: "
    fail_if (is_none items) (refuse 400 "no content items provided")
    ok (record {
      placed = record {
        tenant = tenant;
        client_id = client_id;
        deployment_id = deployment_id;
        context_id = context_id;
      };
      items = items;
    })

  -- The resource link of an item: its own, or a random one.
  unfoldable pub link_id : (i : ℕ) → ContentItem F → String
  link_id i it =
      if is_empty it.resource_link_id then "rl-" <> server.random_hex i else it.resource_link_id

  -- The line item that an item asks for: its address, where the store gives one.
  unfoldable pub persist_line_item :
      Placed → (resource_link_id : String) → ContentItem F → S → Result Refusal String × S
  persist_line_item at id it s = elim it.line_item [
    | none ↦ (ok "", s)
    | some li ↦ told_run "persist line item: " (
        server.store.upsert_platform_line_item at.tenant at.context_id id li.resource_id
          (label_of it.title li) (score_max_of li) s)
  ]

  -- The loop over the items, from the number `i`: the addresses of the line items.
  unfoldable pub persist_items :
      Placed → (i : ℕ) → List (ContentItem F) → S → Result Refusal (List String) × S
  persist_items at i [] s = (ok [], s)
  persist_items at i (it ∷ items) s =
      if not (is_resource_link it)
      then persist_items at (suc i) items s
      else run_then
          (told_run "persist resource link: "
            (server.store.upsert_resource_link at (link_id i it) it.title it.url it.custom s))
          λ stored s1. run_then (persist_line_item at (link_id i it) it s1) λ line s2.
            run_then (persist_items at (suc i) items s2) λ rest s3. (ok (cons_text line rest), s3)

  unfoldable pub closing : Request → (count : ℕ) → List String → DeepLinkAnswer
  unfolding is_http_url
  closing r count created =
      let ret = trim_space (get "return" r.query) in
      if not (is_empty ret) && is_http_url net ret
      then redirect (server.with_status ret count)
      else output "ok" count created

  -- ResponseHandler
  unfoldable pub response_handler : Request → S → Result Refusal DeepLinkAnswer × S
  response_handler r s =
      run_then (verified r, s)
        λ token s0. run_then (check_replay (token.2) s0) λ fresh s1.
          run_then (check_response r (token.0) (token.1) (token.2), s1)
            λ checked s2.
              run_then (persist_items checked.placed 0 checked.items s2)
                λ created s3. (ok (closing r (length checked.items) created), s3)
