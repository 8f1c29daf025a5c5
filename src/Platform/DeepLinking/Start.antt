-- ===== src/Platform/DeepLinking/Start.antt =====
-- pkg/platform/lti/deeplinking/request.go: the address at which a tool starts a deep linking flow.
use Prim.Native.String.{◌++◌ as ◌<>◌}
use mindengage_lms.Prelude.{
  ℤ, pos, eqb_ℤ, String, not, Option, none, some, List, [], ◌∷◌, ◌++◌, GoMap, Result, ok, err,
  ◌>>=◌, ◌>>◌, fail_if, required, if◌then◌else◌,
}
use mindengage_lms.Strings.{trim_space, is_empty}
use mindengage_lms.Platform.Http.{Net, is_http_url}
use mindengage_lms.Platform.Authorize.Hints.{MessageHint}

-- Tool
pub record StartTool : Type 0 where
  pub client_id : String
  pub initiate_login_url : String
  pub redirect_uris : List String

-- Client. `wall` is time.Now in Unix seconds; `random_hex` what randHex(16) gives; `encode_hint`
-- json.Marshal and base64.RawURLEncoding of a hint; `with_query` an address with values set in its query.
pub record StartClient : Type 0 where
  pub issuers : Option (String → Result String String)
  pub tools : Option (String → String → Result String StartTool)
  pub choose_redirect : Option (List String → Result String String)
  pub wall : ℤ
  pub random_hex : String
  pub encode_hint : MessageHint → Result String String
  pub with_query : (address : String) → GoMap String → String
  pub quote : String → String

pub record StartParams : Type 0 where
  pub tenant_id : String
  pub client_id : String
  pub deployment_id : String
  pub context_id : String
  pub return_url : String
  pub login_hint : String
  pub target_link_uri : String
  pub extra : GoMap String

abbrev prefixed : {A : Type 0} → (prefix : String) → Result String A → Result String A
prefixed prefix (ok a) = ok a
prefixed prefix (err e) = err (prefix <> e)

abbrev http_issuer : Net → (invalid : String) → Result String String → Result String String
http_issuer net invalid (err e) = err ("deeplinking: resolve issuer: " <> e)
http_issuer net invalid (ok iss) =
    if is_http_url net iss then ok iss else err ("deeplinking: resolve issuer: " <> invalid)

abbrev set_if : String → String → GoMap String
set_if key value = if is_empty value then [] else (key, value) ∷ []

abbrev not_configured : String
not_configured = "deeplinking: Client not configured (Issuers/Tools)"

module _ (net : Net) (c : StartClient) where
  abbrev first_uri : List String → Result String String
  first_uri [] = err "deeplinking: tool has no redirect_uris"
  first_uri (uri ∷ uris) = ok (trim_space uri)

  unfoldable pub pick_redirect : List String → Result String String
  pick_redirect uris = elim c.choose_redirect [ some choose ↦ choose uris | none ↦ first_uri uris ]

  unfoldable pub build_message_hint : MessageHint → Result String String
  build_message_hint m = c.encode_hint (record m {
    kind = if is_empty m.kind then "deep_link" else m.kind;
    issued_at = if eqb_ℤ m.issued_at (pos 0) then c.wall else m.issued_at;
  })

  abbrev target_of : StartParams → StartTool → Result String String
  target_of p tool =
      if is_empty (trim_space p.target_link_uri)
      then pick_redirect tool.redirect_uris
      else ok (trim_space p.target_link_uri)

  unfoldable pub start_request : StartParams → Result String String
  unfolding is_http_url pick_redirect build_message_hint
  start_request p = do
    issuer_for ← required c.issuers not_configured
    get_tool ← required c.tools not_configured
    fail_if (is_empty (trim_space p.tenant_id)) "deeplinking: tenant_id is required"
    fail_if (is_empty (trim_space p.client_id)) "deeplinking: client_id is required"
    tool ← prefixed "deeplinking: get tool: " (get_tool p.tenant_id p.client_id)
    fail_if (not (is_http_url net tool.initiate_login_url))
        "deeplinking: tool initiate_login_url is invalid"
    target ← target_of p tool
    fail_if (not (is_http_url net target))
        "deeplinking: target_link_uri must be http(s) absolute URL"
    iss ←
        http_issuer net ("invalid issuer for tenant " <> c.quote p.tenant_id)
          (issuer_for p.tenant_id)
    let given = trim_space p.login_hint
    let login_hint = if is_empty given then ("dl-" <> c.random_hex) else given
    hint ← prefixed "deeplinking: lti_message_hint: " (
        build_message_hint (record {
          kind = "";
          tenant_id = p.tenant_id;
          client_id = p.client_id;
          deployment_id = p.deployment_id;
          context_id = p.context_id;
          return_url = p.return_url;
          extra = p.extra;
          issued_at = pos 0;
        }))
    ok (
        c.with_query tool.initiate_login_url (
          ("iss", iss)
            ∷ ("login_hint", login_hint)
            ∷ ("target_link_uri", target)
            ∷ ("client_id", tool.client_id)
            ∷ set_if "lti_deployment_id" p.deployment_id
          ++ set_if "lti_message_hint" hint))
