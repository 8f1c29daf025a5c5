-- ===== src/Tests/Admin.antt =====
-- The registry at a concrete store, a list of tools.
use mindengage_lms.Prelude.{List, [], ◌∷◌, ok, err}
use mindengage_lms.Platform.Http.{Request}
use mindengage_lms.Platform.Admin.{Tool, CreateToolReq, missing, Registry}
use mindengage_lms.Tests.Requests.{request}

abbrev registry : Registry (List Tool)
registry = record {
  insert_tool = λ t s. (ok tt, t ∷ s);
  find_tool = λ tenant id s. (err missing, s);
  tools = λ tenant offset limit s. (ok s, s);
  replace_tool = λ t s. (ok tt, t ∷ []);
  remove_tool = λ tenant id s. (ok tt, []);
  insert_deployment = λ d s. (err missing, s);
  find_deployment = λ tenant id s. (err missing, s);
  deployments = λ tenant filter offset limit s. (ok [], s);
  remove_deployment = λ tenant id s. (err missing, s);
}

abbrev tool_request : Request
tool_request = record request { params = ("tenantID", "acme") ∷ ("clientID", "c1") ∷ [] }

abbrev tool_body : CreateToolReq
tool_body = record {
  client_id = "c1";
  name = " Quiz ";
  jwks_url = "https://quiz.org/jwks";
  redirect_uris = "https://quiz.org/launch" ∷ [];
  allowed_scopes = "score" ∷ " " ∷ [];
  auth_methods = "private_key_jwt" ∷ [];
}

abbrev tool : Tool
tool = record {
  client_id = "c1";
  tenant_id = "acme";
  name = "Quiz";
  jwks_url = "https://quiz.org/jwks";
  redirect_uris = "https://quiz.org/launch" ∷ [];
  allowed_scopes = "score" ∷ [];
  auth_methods = "private_key_jwt" ∷ [];
}
