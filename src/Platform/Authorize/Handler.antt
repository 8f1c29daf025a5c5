-- ===== src/Platform/Authorize/Handler.antt =====
-- pkg/platform/lti/authorize.go: the claims of a launch, and the handler.
use Prim.Native.String.{◌++◌ as ◌<>◌}
use mindengage_lms.Prelude.{
  ℤ, pos, ltb_ℤ, add_ℤ, String, Bool, true, false, not, ◌||◌, Option, none, some, List, [], ◌∷◌,
  Result, ok, err, ◌>>=◌, ◌>>◌, fail_if, required, or_fail, if◌then◌else◌,
}
use mindengage_lms.Strings.{Unicode, trim_space, is_empty}
use mindengage_lms.Platform.Http.{Request, Net, get, is_http_url}
use mindengage_lms.Platform.Authorize.{
  Refusal, refuse, LaunchInfo, LaunchClaims, AuthorizeServer, FormPost, eq_fold, non_empty,
  sorted_copy, redirect_allowed,
}

-- The parameters of the request, trimmed.
pub record Asked : Type 0 where
  pub client_id : String
  pub redirect_uri : String
  pub nonce : String
  pub state : String
  pub login_hint : String
  pub message_hint : String

abbrev present : {A : Type 0} → String → A → Option A
present s a = if not (is_empty s) then some a else none

abbrev default_ags_scope : List String → List String
default_ags_scope [] =
    "https://purl.imsglobal.org/spec/lti-ags/scope/lineitem"
    ∷ "https://purl.imsglobal.org/spec/lti-ags/scope/score"
    ∷ "https://purl.imsglobal.org/spec/lti-ags/scope/result.readonly"
    ∷ "https://purl.imsglobal.org/spec/lti-ags/scope/lineitem.readonly" ∷ []
default_ags_scope (s ∷ ss) = s ∷ ss

abbrev roles_claim : List String → Option (List String)
roles_claim [] = none
roles_claim (r ∷ rs) = some (sorted_copy (r ∷ rs))

abbrev pub is_failed : Result String String → Bool
is_failed (ok t) = false
is_failed (err e) = true

abbrev pub text_of : Result String String → String
text_of (ok t) = t
text_of (err e) = ""

abbrev pub resolved : Result String LaunchInfo → Result Refusal LaunchInfo
resolved (ok li) = ok li
resolved (err e) = err (refuse 401 ("unable to resolve launch: " <> e))

module _ (server : AuthorizeServer) where
  -- `wall` is time.Now, in seconds.
  unfoldable pub launch_time : (wall : ℤ) → ℤ
  launch_time wall = elim server.now [ none ↦ wall | some t ↦ t ]

  unfoldable pub token_ttl : ℤ
  token_ttl = if ltb_ℤ (pos 0) server.token_ttl then server.token_ttl else pos 300

  -- The claims of both messages.
  unfoldable pub base_claims : (iss : String) → Asked → LaunchInfo → ℤ → LaunchClaims
  unfolding token_ttl non_empty
  base_claims iss asked li now = record {
    iss = iss;
    aud = asked.client_id;
    sub = non_empty li.user_id ("user-" <> server.random_hex);
    iat = now;
    exp = add_ℤ now token_ttl;
    nonce = asked.nonce;
    azp = asked.client_id;
    tool_platform =
        if not (is_empty server.product_name) || not (is_empty server.platform_guid)
        then some (record {
          name = server.product_name;
          version = server.product_version;
          product_family_code = "mindengage";
          guid = server.platform_guid;
        })
        else none;
    message_type = "";
    version = "1.3.0";
    deployment_id = present li.deployment_id li.deployment_id;
    settings = none;
    target_link_uri = asked.redirect_uri;
    context = none;
    resource_link = none;
    roles = none;
    ags_endpoint = none;
    nrps_service = none;
  }

  unfoldable pub deep_link_claims : LaunchInfo → LaunchClaims → LaunchClaims
  deep_link_claims li base = record base {
    message_type = "LtiDeepLinkingRequest";
    settings = some (record {
      deep_link_return_url = li.deep_link_return_url;
      data_text = li.deep_link_data;
      accept_types = "ltiResourceLink" ∷ [];
      accept_presentation_document_targets = "iframe" ∷ "window" ∷ [];
    });
  }

  unfoldable pub resource_link_claims : LaunchInfo → LaunchClaims → LaunchClaims
  unfolding sorted_copy
  resource_link_claims li base = record base {
    message_type = "LtiResourceLinkRequest";
    context =
        present li.context_id
          (record { id = li.context_id; label = li.context_label; title = li.context_title });
    resource_link = present li.resource_link_id li.resource_link_id;
    roles = roles_claim li.user_roles;
    ags_endpoint =
        present li.line_items_url
          (record { lineitems = li.line_items_url; scope = default_ags_scope li.ags_scope });
    nrps_service =
        present li.nrps_url
          (record { context_memberships_url = li.nrps_url; service_versions = "2.0" ∷ [] });
  }

  unfoldable pub launch_claims : (iss : String) → Asked → LaunchInfo → ℤ → LaunchClaims
  launch_claims iss asked li now =
      if li.deep_linking
      then deep_link_claims li (base_claims iss asked li now)
      else resource_link_claims li (base_claims iss asked li now)

module _ (net : Net) (u : Unicode) (server : AuthorizeServer) where
  unfoldable pub read_asked : Request → Result Refusal Asked
  unfolding eq_fold is_http_url
  read_asked r = do
    fail_if (not (eq_fold u (get "response_type" r.query) "id_token"))
        (refuse 400 "response_type must be id_token")
    fail_if (not (eq_fold u (get "response_mode" r.query) "form_post"))
        (refuse 400 "response_mode must be form_post")
    let client_id = trim_space (get "client_id" r.query)
    fail_if (is_empty client_id) (refuse 400 "client_id required")
    let redirect_uri = trim_space (get "redirect_uri" r.query)
    fail_if (not (is_http_url net redirect_uri)) (refuse 400 "redirect_uri must be http(s)")
    let nonce = trim_space (get "nonce" r.query)
    fail_if (is_empty nonce) (refuse 400 "nonce required")
    ok (record {
      client_id = client_id;
      redirect_uri = redirect_uri;
      nonce = nonce;
      state = trim_space (get "state" r.query);
      login_hint = trim_space (get "login_hint" r.query);
      message_hint = trim_space (get "lti_message_hint" r.query);
    })

  -- AuthorizeServer.AuthorizeHandler
  unfoldable pub authorize_handler : (wall : ℤ) → Request → Result Refusal FormPost
  unfolding redirect_allowed is_http_url launch_time
  authorize_handler wall r = do
    let not_configured = refuse 500 "server not configured"
    issuer_for ← required server.issuers not_configured
    get_tool ← required server.registry not_configured
    resolve_launch ← required server.launches not_configured
    sign ← required server.signer not_configured
    resolve_tenant_id ← required server.resolve_tenant_id not_configured
    let tenant = text_of (resolve_tenant_id r)
    fail_if (is_failed (resolve_tenant_id r) || is_empty (trim_space tenant))
        (refuse 400 "unable to resolve tenant")
    asked ← read_asked r
    tool ← or_fail (get_tool tenant asked.client_id) (refuse 401 "unknown tool/client")
    fail_if (not (redirect_allowed asked.redirect_uri tool.redirect_uris))
        (refuse 401 "redirect_uri not allowed for client")
    li ← resolved (resolve_launch tenant asked.client_id asked.login_hint asked.message_hint)
    let iss = text_of (issuer_for tenant)
    fail_if (is_failed (issuer_for tenant) || not (is_http_url net iss))
        (refuse 500 "issuer resolution failed")
    id_token ←
        or_fail (sign tenant (launch_claims server iss asked li (launch_time server wall)))
          (refuse 500 "signing failed")
    ok (record { action = asked.redirect_uri; id_token = id_token; state = asked.state })
