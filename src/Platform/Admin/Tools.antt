-- ===== src/Platform/Admin/Tools.antt =====
-- pkg/platform/admin/registry.go: the handlers of the tools.
use Prim.Native.String.{◌++◌ as ◌<>◌}
use mindengage_lms.Prelude.{
  pos, String, not, ◌&&◌, none, some, List, Result, ok, err, str_eq, if◌then◌else◌,
}
use mindengage_lms.Strings.{trim_space, is_empty}
use mindengage_lms.Platform.Http.{Request, Net, get, Outcome, refused}
use mindengage_lms.Platform.Admin.{
  Tool, CreateToolReq, Registry, Answered, with_status, no_content, respond, respond_list,
  parse_page, trim_all, validate_create_tool_req,
}

-- The tool of a request, in a tenant and under a client id.
unfoldable pub tool_of : (tenant_id client_id : String) → CreateToolReq → Tool
unfolding trim_all
tool_of tenant_id client_id req = record {
  client_id = client_id;
  tenant_id = tenant_id;
  name = trim_space req.name;
  jwks_url = trim_space req.jwks_url;
  redirect_uris = trim_all req.redirect_uris;
  allowed_scopes = trim_all req.allowed_scopes;
  auth_methods = trim_all req.auth_methods;
}

module _ {S : Type 0} (net : Net) (registry : Registry S) where
  -- `body` is what encoding/json reads.
  unfoldable pub create_tool :
      Request → (body : Result String CreateToolReq) → S → Outcome (Answered Tool) × S
  create_tool r body s = elim body [
    | err e ↦ (refused 400 ("invalid JSON: " <> e), s)
    | ok req ↦ elim (validate_create_tool_req net req) [
      | some msg ↦ (refused 400 msg, s)
      | none ↦
          let t = tool_of (get "tenantID" r.params) (trim_space req.client_id) req in
          respond "tenant not found" (λ _. with_status 201 t) (registry.insert_tool t s)
    ]
  ]

  unfoldable pub get_tool : Request → S → Outcome (Answered Tool) × S
  get_tool r s =
      respond "tool not found" (with_status 200)
        (registry.find_tool (get "tenantID" r.params) (get "clientID" r.params) s)

  unfoldable pub list_tools : Request → S → Outcome (Answered (List Tool)) × S
  list_tools r s =
      let (offset, limit) = parse_page r.query (pos 0) (pos 100) in
      respond_list (registry.tools (get "tenantID" r.params) offset limit s)

  -- The body may leave the client id out.
  unfoldable pub update_tool :
      Request → (body : Result String CreateToolReq) → S → Outcome (Answered Tool) × S
  update_tool r body s =
      let client_id = get "clientID" r.params in
      elim body [
        | err e ↦ (refused 400 ("invalid JSON: " <> e), s)
        | ok req ↦
            if not (is_empty req.client_id) && not (str_eq (trim_space req.client_id) client_id)
            then (refused 400 "client_id in body must match path", s)
            else elim (validate_create_tool_req net (record req { client_id = client_id })) [
              | some msg ↦ (refused 400 msg, s)
              | none ↦
                  let t = tool_of (get "tenantID" r.params) client_id req in
                  respond "tool not found" (λ _. with_status 200 t) (registry.replace_tool t s)
            ]
      ]

  unfoldable pub delete_tool : Request → S → Outcome (Answered Tool) × S
  delete_tool r s =
      respond "tool not found" no_content
        (registry.remove_tool (get "tenantID" r.params) (get "clientID" r.params) s)
