-- ===== src/Platform/DeepLinking/Response/Persisted.antt =====
-- pkg/platform/lti/deeplinking/response.go: what stands behind a response that is accepted.
use mindengage_lms.Prelude.{
  ℕ, suc, String, Bool, true, false, ◌≡◌, Option, ◌⊎◌, none, some, List, [], ◌∷◌, length, Result,
  ok,
}
use mindengage_lms.Strings.{trim_space, is_empty}
use mindengage_lms.Float.{Float64}
use mindengage_lms.Exam.Models.{Value, obj, Fields}
use mindengage_lms.Platform.Http.{Request, Net, get, is_http_url}
use mindengage_lms.Platform.DeepLinking.{
  LineItemHint, ContentItem, ClaimsCodec, as_string, get_nested, is_resource_link,
  parse_content_items, unverified_claims,
}
use mindengage_lms.Platform.DeepLinking.Response.{
  Placed, DeepLinkServer, DeepLinkAnswer, Checked, raw_jwt, link_id, label_of, score_max_of,
  cons_text, closing,
}

module _ {F S : Type 0} ⦃fl : Float64 F⦄ (net : Net) (codec : ClaimsCodec F)
    (server : DeepLinkServer F S) (at : Placed) where
  -- The line item of an item is stored, with its address.
  pub data LineStored (link : String) (it : ContentItem F) : S → String → S → Type 0 where
    without_line : (s : S) → it.line_item ≡ none → LineStored link it s "" s
    with_line :
        (li : LineItemHint F) (s s' : S) (line : String)
        → it.line_item ≡ some li
        → server.store.upsert_platform_line_item at.tenant at.context_id link li.resource_id
            (label_of it.title li)
            (score_max_of li)
            s
          ≡ (ok line, s')
        → LineStored link it s line s'

  -- From a state to another, the resource links among the items are stored one after the other, each
  -- followed by its line item; the other items are ignored.
  pub data Stored : ℕ → List (ContentItem F) → S → List String → S → Type 0 where
    finished : (i : ℕ) (s : S) → Stored i [] s [] s
    ignored :
        (i : ℕ) (it : ContentItem F) (items : List (ContentItem F)) (s s' : S) (lines : List String)
        → is_resource_link it ≡ false
        → Stored (suc i) items s lines s'
        → Stored i (it ∷ items) s lines s'
    linked :
        (i : ℕ) (it : ContentItem F) (items : List (ContentItem F)) (id line : String)
        (lines : List String) (s s1 s2 s' : S)
        → is_resource_link it ≡ true
        → server.store.upsert_resource_link at
            (link_id net codec server i it)
            it.title
            it.url
            it.custom
            s
          ≡ (ok id, s1)
        → LineStored (link_id net codec server i it) it s1 line s2
        → Stored (suc i) items s2 lines s'
        → Stored i (it ∷ items) s (cons_text line lines) s'

abbrev pub message_type_claim : String
message_type_claim = "https://purl.imsglobal.org/spec/lti/claim/message_type"

abbrev pub items_claim : String
items_claim = "https://purl.imsglobal.org/spec/lti-dl/claim/content_items"

-- A text is the claimed one or, where none is claimed, that of the query, trimmed.
abbrev pub IsTaken : Request → (claimed key taken : String) → Type 0
IsTaken r claimed key taken =
    ((is_empty claimed ≡ false) × (taken ≡ claimed))
    ⊎ ((is_empty claimed ≡ true) × (taken ≡ trim_space (get key r.query)))

-- The id of a context claim, empty where the claim is no object.
abbrev pub id_of_context : {F : Type 0} → Value F → String
id_of_context (obj m) = as_string (get_nested m "id")
id_of_context _ = ""

module _ {S : Type 0} where
  -- A jti, or else a nonce, is used for the first time, where the server has a replay protection.
  pub data IsFresh (replay : Option ((kind value : String) → S → Bool × S)) (jti nonce : String)
      (s t : S) : Type 0 where
    unprotected : replay ≡ none → t ≡ s → IsFresh replay jti nonce s t
    new_jti :
        (use_once : (kind value : String) → S → Bool × S)
        → replay ≡ some use_once
        → is_empty jti ≡ false
        → use_once "jti" jti s ≡ (true, t)
        → IsFresh replay jti nonce s t
    new_nonce :
        (use_once : (kind value : String) → S → Bool × S)
        → replay ≡ some use_once
        → is_empty jti ≡ true
        → is_empty nonce ≡ false
        → use_once "nonce" nonce s ≡ (true, t)
        → IsFresh replay jti nonce s t
    unnamed : is_empty jti ≡ true → is_empty nonce ≡ true → t ≡ s → IsFresh replay jti nonce s t

abbrev pub deployment_claim : String
deployment_claim = "https://purl.imsglobal.org/spec/lti/claim/deployment_id"

abbrev pub context_claim : String
context_claim = "https://purl.imsglobal.org/spec/lti/claim/context"

module _ {F S : Type 0} ⦃fl : Float64 F⦄ (net : Net) (codec : ClaimsCodec F)
    (server : DeepLinkServer F S) (r : Request) where
  -- The claims are those of the token of the request, verified for the tenant of the request, for the
  -- client that the token names and for the issuer of the tenant.
  pub record IsVerified (tenant client_id : String) (claims : Fields F) : Type 0 where
    pub by_tenant :
        (resolve : Request → Result String String) × (server.resolve_tenant_id ≡ some resolve)
        × (resolve r ≡ ok tenant)
    pub by_client :
        (unverified : Fields F) × (unverified_claims codec (raw_jwt net codec server r)
          ≡ ok unverified)
        × (as_string (get_nested unverified "iss") ≡ client_id)
        × (is_empty client_id ≡ false)
    pub by_issuer :
        (aud : String) × (server.issuer_for_tenant tenant ≡ ok aud)
        × (is_http_url net aud ≡ true)
        × (server.verify_tool_jwt tenant client_id (raw_jwt net codec server r) aud ≡ ok claims)

  -- The claims are a deep linking response, and place the items in a deployment and a context.
  pub record IsChecked (tenant client_id : String) (claims : Fields F) (checked : Checked F)
      : Type 0 where
    pub message : as_string (get_nested claims message_type_claim) ≡ "LtiDeepLinkingResponse"
    pub items : parse_content_items (get_nested claims items_claim) ≡ ok checked.items
    pub tenant_of : checked.placed.tenant ≡ tenant
    pub client_of : checked.placed.client_id ≡ client_id
    pub deployment :
        IsTaken r
          (as_string (get_nested claims deployment_claim))
          "deployment_id"
          checked.placed.deployment_id
    pub context :
        IsTaken r
          (id_of_context (get_nested claims context_claim))
          "context_id"
          checked.placed.context_id
    pub has_deployment : is_empty checked.placed.deployment_id ≡ false
    pub has_context : is_empty checked.placed.context_id ≡ false

  -- What stands behind an answer.
  pub record IsAccepted (s : S) (sent : DeepLinkAnswer) (s' : S) : Type 0 where
    pub tenant : String
    pub client_id : String
    pub claims : Fields F
    pub is_verified : IsVerified tenant client_id claims
    pub unused : S
    pub is_unused :
        IsFresh server.replay
          (as_string (get_nested claims "jti"))
          (as_string (get_nested claims "nonce"))
          s
          unused
    pub checked : Checked F
    pub is_checked : IsChecked tenant client_id claims checked
    pub lines : List String
    pub stored : Stored net codec server checked.placed 0 checked.items unused lines s'
    pub is_answer : sent ≡ closing net codec server r (length checked.items) lines
