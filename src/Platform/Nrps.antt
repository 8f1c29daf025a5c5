-- ===== src/Platform/Nrps.antt =====
-- pkg/platform/lti/nrps/routes.go: the members of a context.
pub mod Served
use mindengage_lms.Prelude.{
  ℤ, pos, ltb_ℤ, String, Bool, true, false, not, ◌||◌, Option, none, some, List, [], ◌∷◌, GoMap,
  Result, ok, err, str_eq, if◌then◌else◌,
}
use mindengage_lms.Strings.{Unicode, trim_space, to_lower, is_empty}
use mindengage_lms.Strings.Split.{atoi}
use mindengage_lms.Platform.Http.{Request, get, Outcome, refused, served}
use mindengage_lms.Platform.Ags.{StorageError, not_found, failed}

-- Membership, without the properties that are not serialized.
pub record Membership : Type 0 where
  pub user_id : String
  pub roles : List String
  pub status : String
  pub name : String
  pub given_name : String
  pub family_name : String
  pub middle_name : String
  pub email : String
  pub picture : String
  pub lis_person_sourced_id : String
  pub lti11_legacy_user_id : String

pub record ContextMeta : Type 0 where
  pub id : String
  pub label : String
  pub title : String

-- The interface Storage, whose errors are errNotFound and others; the first two texts are the tenant
-- and the context.
pub record Memberships : Type 0 where
  pub list_memberships :
      String
      → String
      → (role_filter page_token : String) → (limit : ℤ)
      → Result StorageError (List Membership × String)
  pub get_context_meta : String → String → Result StorageError ContextMeta

-- The query of the next page.
pub record NextMembers : Type 0 where
  pub limit : ℤ
  pub page_token : String
  pub role : Option String

-- The container of the answer, but for its id, which is the address of the request; the link of the
-- header and "next" are the same.
pub record Container : Type 0 where
  pub context : ContextMeta
  pub members : List Membership
  pub next : Option NextMembers

abbrev pub membership_uri : List (String × String)
membership_uri =
    ("learner", "http://purl.imsglobal.org/vocab/lis/v2/membership#Learner")
    ∷ ("student", "http://purl.imsglobal.org/vocab/lis/v2/membership#Learner")
    ∷ ("instructor", "http://purl.imsglobal.org/vocab/lis/v2/membership#Instructor")
    ∷ ("teacher", "http://purl.imsglobal.org/vocab/lis/v2/membership#Instructor")
    ∷ ("ta", "http://purl.imsglobal.org/vocab/lis/v2/membership#TeachingAssistant")
    ∷ ("teachingassistant", "http://purl.imsglobal.org/vocab/lis/v2/membership#TeachingAssistant")
    ∷ ("contentdeveloper", "http://purl.imsglobal.org/vocab/lis/v2/membership#ContentDeveloper")
    ∷ ("manager", "http://purl.imsglobal.org/vocab/lis/v2/membership#Manager")
    ∷ ("administrator", "http://purl.imsglobal.org/vocab/lis/v2/membership#Administrator")
    ∷ ("admin", "http://purl.imsglobal.org/vocab/lis/v2/membership#Administrator")
    ∷ []

abbrev uri_or : String → Option String → String
uri_or given none = given
uri_or given (some uri) = uri

abbrev alias : String → List (String × String) → Option String
alias s [] = none
alias s ((name, uri) ∷ rest) = let later = alias s rest in if str_eq s name then some uri else later

-- A role by its URI, for a URI or an alias of it.
unfoldable pub normalize_role : Unicode → String → String
normalize_role u given =
    let s = trim_space (to_lower u given) in
    if is_empty s || str_eq s "any" then "" else uri_or given (alias s membership_uri)

unfoldable pub normalize_roles : Unicode → List String → List String
unfolding normalize_role
normalize_roles u [] = []
normalize_roles u (r ∷ rs) = normalize_role u r ∷ normalize_roles u rs

abbrev int_or : ℤ → Option ℤ → ℤ
int_or def none = def
int_or def (some n) = n

unfoldable pub parse_int : String → ℤ → ℤ
unfolding atoi
parse_int s def = int_or def (atoi s)

unfoldable pub clamp_int : (n min max : ℤ) → ℤ
clamp_int n min max = if ltb_ℤ n min then min else if ltb_ℤ max n then max else n

unfoldable pub empty_as : String → String → String
empty_as s def = if is_empty (trim_space s) then def else trim_space s

unfoldable pub map_members : Unicode → List Membership → List Membership
unfolding normalize_roles empty_as
map_members u [] = []
map_members u (m ∷ ms) =
    record m { status = empty_as m.status "Active"; roles = normalize_roles u m.roles }
    ∷ map_members u ms

abbrev storage_refusal : {A : Type 0} → StorageError → Outcome A
storage_refusal not_found = refused 404 "not found"
storage_refusal (failed e) = refused 500 e

abbrev text_unless_empty : String → Option String
text_unless_empty s = if is_empty s then none else some s

-- The storage and ResolveTenantID are `none` where they are nil.
unfoldable pub get_memberships :
    Unicode
    → Option Memberships
    → Option (Request → Result String String)
    → Request
    → Outcome Container
get_memberships u none resolve r = refused 500 "server not configured"
get_memberships u (some store) none r = refused 500 "server not configured"
get_memberships u (some store) (some resolve) r = elim (resolve r) [
  | err e ↦ refused 400 "could not resolve tenant"
  | ok tenant ↦
      let context_id = get "contextId" r.params in
      let role = normalize_role u (get "role" r.query) in
      let limit = clamp_int (parse_int (get "limit" r.query) (pos 50)) (pos 1) (pos 200) in
      let token = trim_space (get "page_token" r.query) in
      if is_empty (trim_space tenant)
      then refused 400 "could not resolve tenant"
      else if is_empty (trim_space context_id)
      then refused 400 "contextId is required"
      else elim (store.get_context_meta tenant context_id) [
        | err e ↦ storage_refusal e
        | ok meta ↦ elim (store.list_memberships tenant context_id role token limit) [
          | err e ↦ storage_refusal e
          | ok (found, next_token) ↦ served (record {
            context = record meta { id = if is_empty meta.id then context_id else meta.id };
            members = map_members u found;
            next =
                if is_empty next_token
                then none
                else some (record {
                  limit = limit;
                  page_token = next_token;
                  role = text_unless_empty role;
                });
          })
        ]
      ]
]
