-- ===== src/Platform/Authorize.antt =====
-- pkg/platform/lti/authorize.go: the OIDC authorization endpoint. Durations are in whole seconds.
pub mod Handler
pub mod Hints
pub mod Posts
use Prim.Native.String.{◌++◌ as ◌<>◌}
use mindengage_lms.Prelude.{
  ℕ, ℤ, pos, ltb_ℤ, add_ℤ, String, Bool, true, false, not, ◌&&◌, ◌||◌, str_eq, Option, none, some,
  List, [], ◌∷◌, any, Result, if◌then◌else◌,
}
use mindengage_lms.Strings.{Unicode, trim_space, is_empty, equal_fold, trim_suffix}
use mindengage_lms.Strings.Split.{sort_strings}
use mindengage_lms.Platform.Http.{Request, Net, scheme_from_request, host_without_port}

-- A status and the message that writeErr sends.
pub record Refusal : Type 0 where
  pub status : ℕ
  pub message : String

abbrev pub refuse : ℕ → String → Refusal
refuse status message = record { status = status; message = message }

-- Tool
pub record LtiTool : Type 0 where
  pub client_id : String
  pub name : String
  pub redirect_uris : List String

pub record LaunchInfo : Type 0 where
  pub user_id : String
  pub user_roles : List String
  pub deployment_id : String
  pub context_id : String
  pub context_label : String
  pub context_title : String
  pub resource_link_id : String
  pub line_items_url : String
  pub ags_scope : List String
  pub nrps_url : String
  pub deep_linking : Bool
  pub deep_link_return_url : String
  pub deep_link_data : String

pub record ToolPlatform : Type 0 where
  pub name : String
  pub version : String
  pub product_family_code : String
  pub guid : String

pub record DeepLinkSettings : Type 0 where
  pub deep_link_return_url : String
  pub data_text : String
  pub accept_types : List String
  pub accept_presentation_document_targets : List String

pub record ContextClaim : Type 0 where
  pub id : String
  pub label : String
  pub title : String

pub record AgsEndpoint : Type 0 where
  pub lineitems : String
  pub scope : List String

pub record NrpsService : Type 0 where
  pub context_memberships_url : String
  pub service_versions : List String

-- The claims of an id_token; one that is not in the map is `none`.
pub record LaunchClaims : Type 0 where
  pub iss : String
  pub aud : String
  pub sub : String
  pub iat : ℤ
  pub exp : ℤ
  pub nonce : String
  pub azp : String
  pub tool_platform : Option ToolPlatform
  pub message_type : String
  pub version : String
  pub deployment_id : Option String
  pub settings : Option DeepLinkSettings
  pub target_link_uri : String
  pub context : Option ContextClaim
  pub resource_link : Option String
  pub roles : Option (List String)
  pub ags_endpoint : Option AgsEndpoint
  pub nrps_service : Option NrpsService

-- AuthorizeServer: as TokenServer of Platform/Token. The first text of its parts is the tenant; the
-- others of a launch are the client, the login hint and the message hint.
pub record AuthorizeServer : Type 0 where
  pub issuers : Option (String → Result String String)
  pub registry : Option (String → String → Result String LtiTool)
  pub launches : Option (String → String → String → String → Result String LaunchInfo)
  pub signer : Option (String → LaunchClaims → Result String String)
  pub resolve_tenant_id : Option (Request → Result String String)
  pub now : Option ℤ
  pub token_ttl : ℤ
  pub external_base_path : String
  pub product_name : String
  pub product_version : String
  pub platform_guid : String
  pub random_hex : String

-- The form that the browser posts to a tool; an empty state is not in it.
pub record FormPost : Type 0 where
  pub action : String
  pub id_token : String
  pub state : String

unfoldable pub eq_fold : Unicode → String → String → Bool
unfolding trim_space equal_fold
eq_fold u a b = equal_fold u (trim_space a) (trim_space b)

unfoldable pub non_empty : (s d : String) → String
unfolding trim_space
non_empty s d = if not (is_empty (trim_space s)) then s else d

unfoldable pub trimmed : List String → List String
trimmed [] = []
trimmed (s ∷ xs) =
    let rest = trimmed xs in if not (is_empty (trim_space s)) then trim_space s ∷ rest else rest

unfoldable pub sorted_copy : List String → List String
unfolding trimmed sort_strings
sorted_copy xs = sort_strings (trimmed xs)

unfoldable pub redirect_allowed : (uri : String) (allowed : List String) → Bool
redirect_allowed uri allowed = any (λ a. str_eq (trim_space a) uri) allowed

module _ (net : Net) (server : AuthorizeServer) where
  abbrev service_url : Request → (collection context_id item : String) → String
  service_url r collection context_id item =
      scheme_from_request r
      <> "://"
      <> host_without_port r.host
      <> trim_suffix server.external_base_path "/"
      <> collection
      <> net.path_escape context_id
      <> item

  unfoldable pub build_service_urls : Request → (context_id : String) → String × String
  build_service_urls r context_id =
      if not (is_empty context_id)
      then (
        service_url r "/lti/ags/contexts/" context_id "/line_items",
        service_url r "/lti/nrps/contexts/" context_id "/memberships",
      )
      else ("", "")
