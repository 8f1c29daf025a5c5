-- ===== src/Platform/Admin.antt =====
-- pkg/platform/admin: the registry of tools and deployments. A validation gives the message, and
-- `none` where the code gives an empty text.
pub mod Tools
pub mod Deployments
pub mod Registered
use mindengage_lms.Prelude.{
  ℕ, ℤ, pos, leb_ℤ, ltb_ℤ, String, Bool, true, false, not, ◌&&◌, ◌||◌, Option, none, some, List, [],
  ◌∷◌, all, GoMap, Result, ok, err, if◌then◌else◌,
}
use mindengage_lms.Strings.{trim_space, is_empty}
use mindengage_lms.Strings.Split.{atoi}
use mindengage_lms.Platform.Http.{Net, get, Outcome, refused, served, is_http_url}

pub record Tool : Type 0 where
  pub client_id : String
  pub tenant_id : String
  pub name : String
  pub jwks_url : String
  pub redirect_uris : List String
  pub allowed_scopes : List String
  pub auth_methods : List String

pub record Deployment : Type 0 where
  pub id : String
  pub tenant_id : String
  pub client_id : String
  pub context_id : String
  pub title : String

pub record CreateToolReq : Type 0 where
  pub client_id : String
  pub name : String
  pub jwks_url : String
  pub redirect_uris : List String
  pub allowed_scopes : List String
  pub auth_methods : List String

pub record CreateDeploymentReq : Type 0 where
  pub id : String
  pub client_id : String
  pub context_id : String
  pub title : String

pub record DeploymentFilter : Type 0 where
  pub client_id : String
  pub context_id : String

-- NotFound, and any other error with its text.
pub data RegistryError : Type 0 where
  missing : RegistryError
  broken : String → RegistryError

-- The interface Store, over its state; the first text is the tenant.
pub record Registry (S : Type 0) : Type 0 where
  pub insert_tool : Tool → S → Result RegistryError (Unit {0}) × S
  pub find_tool : String → (client_id : String) → S → Result RegistryError Tool × S
  pub tools : String → (offset limit : ℤ) → S → Result RegistryError (List Tool) × S
  pub replace_tool : Tool → S → Result RegistryError (Unit {0}) × S
  pub remove_tool : String → (client_id : String) → S → Result RegistryError (Unit {0}) × S
  pub insert_deployment : Deployment → S → Result RegistryError (Unit {0}) × S
  pub find_deployment : String → (id : String) → S → Result RegistryError Deployment × S
  pub deployments :
      String
      → DeploymentFilter
      → (offset limit : ℤ) → S
      → Result RegistryError (List Deployment) × S
  pub remove_deployment : String → (id : String) → S → Result RegistryError (Unit {0}) × S

-- The status and what is written as JSON, `none` for an empty body.
pub record Answered (A : Type 0) : Type 0 where
  pub status : ℕ
  pub body : Option A

abbrev pub with_status : {A : Type 0} → ℕ → A → Answered A
with_status status a = record { status = status; body = some a }

abbrev pub no_content : {A : Type 0} → Unit {0} → Answered A
no_content _ = record { status = 204; body = none }

-- How a handler ends: 404 with its own message, 500 with the error, or its answer.
abbrev pub respond :
    {A B S : Type 0}
    → (not_found : String) → (A → Answered B)
    → Result RegistryError A × S
    → Outcome (Answered B) × S
respond msg f (ok a, s) = (served (f a), s)
respond msg f (err missing, s) = (refused 404 msg, s)
respond msg f (err (broken e), s) = (refused 500 e, s)

-- How a listing ends: a missing tenant has an empty list.
abbrev pub respond_list :
    {A S : Type 0} → Result RegistryError (List A) × S → Outcome (Answered (List A)) × S
respond_list (ok xs, s) = (served (with_status 200 xs), s)
respond_list (err missing, s) = (served (with_status 200 []), s)
respond_list (err (broken e), s) = (refused 500 e, s)

abbrev valid_or : ℤ → (ℤ → Bool) → Option ℤ → ℤ
valid_or d is_valid none = d
valid_or d is_valid (some n) = if is_valid n then n else d

unfoldable pub parse_page : GoMap String → (def_offset def_limit : ℤ) → ℤ × ℤ
unfolding atoi get
parse_page q def_offset def_limit = (
  valid_or def_offset (λ n. leb_ℤ (pos 0) n) (atoi (get "offset" q)),
  valid_or def_limit (λ n. ltb_ℤ (pos 0) n && leb_ℤ n (pos 1000)) (atoi (get "limit" q)),
)

unfoldable pub trim_all : List String → List String
trim_all [] = []
trim_all (x ∷ xs) =
    let rest = trim_all xs in if is_empty (trim_space x) then rest else trim_space x ∷ rest

abbrev pub is_nil : List String → Bool
is_nil [] = true
is_nil (x ∷ xs) = false

unfoldable pub validate_create_tool_req : Net → CreateToolReq → Option String
validate_create_tool_req net req =
    if is_empty (trim_space req.client_id)
    then some "client_id is required"
    else if is_empty (trim_space req.name)
    then some "name is required"
    else if is_empty (trim_space req.jwks_url)
    then some "jwks_url is required"
    else if not (is_http_url net req.jwks_url)
    then some "jwks_url must be http(s) URL"
    else if is_nil req.redirect_uris
    then some "redirect_uris is required"
    else if not (all (is_http_url net) req.redirect_uris)
    then some "redirect_uris must contain only http(s) URLs"
    else if is_nil req.auth_methods
    then some "auth_methods is required (e.g., [\"private_key_jwt\"])"
    else none

unfoldable pub validate_create_deployment_req : CreateDeploymentReq → Option String
validate_create_deployment_req req =
    if is_empty (trim_space req.id)
    then some "id (deployment_id) is required"
    else if is_empty (trim_space req.client_id)
    then some "client_id is required"
    else if is_empty (trim_space req.context_id)
    then some "context_id is required"
    else none
