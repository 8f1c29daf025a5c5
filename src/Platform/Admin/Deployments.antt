-- ===== src/Platform/Admin/Deployments.antt =====
-- pkg/platform/admin/registry.go: the handlers of the deployments.
use Prim.Native.String.{◌++◌ as ◌<>◌}
use mindengage_lms.Prelude.{pos, String, none, some, List, Result, ok, err}
use mindengage_lms.Strings.{trim_space}
use mindengage_lms.Platform.Http.{Request, get, Outcome, refused}
use mindengage_lms.Platform.Admin.{
  Deployment, CreateDeploymentReq, DeploymentFilter, Registry, Answered, with_status, no_content,
  respond, respond_list, parse_page, validate_create_deployment_req,
}

unfoldable pub deployment_of : (tenant_id : String) → CreateDeploymentReq → Deployment
deployment_of tenant_id req = record {
  id = trim_space req.id;
  tenant_id = tenant_id;
  client_id = trim_space req.client_id;
  context_id = trim_space req.context_id;
  title = trim_space req.title;
}

module _ {S : Type 0} (registry : Registry S) where
  unfoldable pub create_deployment :
      Request → (body : Result String CreateDeploymentReq) → S → Outcome (Answered Deployment) × S
  create_deployment r body s = elim body [
    | err e ↦ (refused 400 ("invalid JSON: " <> e), s)
    | ok req ↦ elim (validate_create_deployment_req req) [
      | some msg ↦ (refused 400 msg, s)
      | none ↦
          let d = deployment_of (get "tenantID" r.params) req in
          respond "tenant or tool not found" (λ _. with_status 201 d)
            (registry.insert_deployment d s)
    ]
  ]

  unfoldable pub get_deployment : Request → S → Outcome (Answered Deployment) × S
  get_deployment r s =
      respond "deployment not found" (with_status 200)
        (registry.find_deployment (get "tenantID" r.params) (get "id" r.params) s)

  unfoldable pub list_deployments : Request → S → Outcome (Answered (List Deployment)) × S
  list_deployments r s =
      let (offset, limit) = parse_page r.query (pos 0) (pos 100) in
      let filter : DeploymentFilter = record {
        client_id = trim_space (get "client_id" r.query);
        context_id = trim_space (get "context_id" r.query);
      } in
      respond_list (registry.deployments (get "tenantID" r.params) filter offset limit s)

  unfoldable pub delete_deployment : Request → S → Outcome (Answered Deployment) × S
  delete_deployment r s =
      respond "deployment not found" no_content
        (registry.remove_deployment (get "tenantID" r.params) (get "id" r.params) s)
