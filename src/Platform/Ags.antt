-- ===== src/Platform/Ags.antt =====
-- pkg/platform/lti/ags: the records of the grade services, the interface of their storage, and what
-- the handlers share: tenants, addresses, pages and errors.
pub mod Items
pub mod Scores
pub mod Routes
pub mod Paging
pub mod Stored
pub mod Updated
pub mod Guarded
use Prim.Native.String.{◌++◌ as ◌<>◌}
use mindengage_lms.Prelude.{
  ℕ, suc, ℤ, pos, leb_ℤ, ltb_ℤ, eqb_ℤ, add64, sub64, mul64, String, Bool, true, false, not, ◌&&◌,
  Option, none, some, List, [], ◌∷◌, GoMap, Result, ok, err, if◌then◌else◌,
}
use mindengage_lms.Strings.{trim_space, is_empty, trim_suffix}
use mindengage_lms.Strings.Split.{atoi}
use mindengage_lms.Platform.Http.{Request, Net, get, forwarded_proto, Outcome, refused, served}

pub record LineItem (F : Type 0) : Type 0 where
  pub id : String
  pub context_id : String
  pub resource_link_id : String
  pub resource_id : String
  pub label : String
  pub score_maximum : F
  pub created_at : ℤ
  pub updated_at : ℤ

pub record Score (F : Type 0) : Type 0 where
  pub user_id : String
  pub score_given : Option F
  pub score_maximum : Option F
  pub activity_progress : String
  pub grading_progress : String
  pub timestamp : ℤ
  pub comment : String

-- Result
pub record ScoreResult (F : Type 0) : Type 0 where
  pub id : String
  pub user_id : String
  pub result_score : Option F
  pub result_maximum : Option F
  pub comment : String
  pub timestamp : ℤ

pub record ListFilter : Type 0 where
  pub resource_id : String
  pub resource_link_id : String

-- NotFound, and any other error with its text.
pub data StorageError : Type 0 where
  not_found : StorageError
  failed : String → StorageError

-- The interface Storage, over the state of the storage; the first text is the tenant.
pub record Storage (F S : Type 0) : Type 0 where
  pub create_line_item : String → LineItem F → S → Result StorageError (LineItem F) × S
  pub get_line_item : String → String → S → Result StorageError (LineItem F) × S
  pub update_line_item : String → LineItem F → S → Result StorageError (LineItem F) × S
  pub delete_line_item : String → String → S → Result StorageError (Unit {0}) × S
  pub list_line_items :
      String
      → String
      → ListFilter
      → (offset limit : ℤ) → S
      → Result StorageError (List (LineItem F)) × S
  pub upsert_score : String → String → Score F → S → Result StorageError (ScoreResult F) × S
  pub list_results :
      String
      → String
      → (user_id : String) → (offset limit : ℤ) → S
      → Result StorageError (List (ScoreResult F)) × S

-- Server, at a request: the values of Now and of IDs.NewID, and ResolveTenantID, `none` for nil.
pub record Server (F S : Type 0) : Type 0 where
  pub store : Storage F S
  pub now : ℤ
  pub new_id : String
  pub resolve_tenant_id : Option (Request → Result String String)
  pub external_base_path : String

-- The query of the next page, where there may be one.
pub record NextPage : Type 0 where
  pub limit : ℤ
  pub page : ℤ
  pub user_id : Option String

-- What the handlers answer, with the status 201 for an item that was created.
pub data Reply (F : Type 0) : Type 0 where
  created found_item : LineItem F → Reply F
  items : List (LineItem F) → Option NextPage → Reply F
  results : List (ScoreResult F) → Option NextPage → Reply F
  no_content : Reply F
  accepted : Reply F

-- schemeFromRequest and hostWithoutPort of server.go.
unfoldable pub scheme_from_request : Request → String
unfolding get forwarded_proto
scheme_from_request r =
    let xf = get "X-Forwarded-Proto" r.headers in
    if not (is_empty xf) then forwarded_proto xf else if r.is_tls then "https" else "http"

unfoldable pub host_without_port : Net → String → String
host_without_port net h =
    if is_empty h then "" else elim (net.split_host_port h) [ some host ↦ host | none ↦ h ]

module _ {F S : Type 0} where
  unfoldable pub require_tenant : Server F S → Request → Result String String
  require_tenant server r = elim server.resolve_tenant_id [
    | none ↦ err "tenant resolver not configured"
    | some resolve ↦ resolve r
  ]

  unfoldable pub line_item_url : Net → Server F S → Request → (opaque_id : String) → String
  line_item_url net server r opaque_id =
      (((((scheme_from_request r <> "://") <> host_without_port net r.host)
            <> trim_suffix server.external_base_path "/")
          <> "/api/lti/ags/line_items/")
        <> net.path_escape opaque_id)

  unfoldable pub absolute_line_item_id_from_path : Net → Server F S → Request → String
  unfolding line_item_url get
  absolute_line_item_id_from_path net server r = line_item_url net server r (get "id" r.params)

-- writeStorageErr
unfoldable pub write_storage_err : {F : Type 0} → StorageError → Outcome (Reply F)
write_storage_err not_found = refused 404 "not found"
write_storage_err (failed e) = refused 500 e

-- How each handler ends: the error of the storage, or what it answers with.
abbrev pub answer :
    {F S A : Type 0} → (A → Reply F) → Result StorageError A × S → Outcome (Reply F) × S
answer f (err e, s) = (write_storage_err e, s)
answer f (ok a, s) = (served (f a), s)

abbrev or_default : ℤ → (ℤ → Bool) → Option ℤ → ℤ
or_default d is_valid none = d
or_default d is_valid (some n) = if is_valid n then n else d

unfoldable pub parse_limit_page : GoMap String → (def_limit def_page max_limit : ℤ) → ℤ × ℤ
unfolding atoi get
parse_limit_page q def_limit def_page max_limit = (
  or_default def_limit (λ n. ltb_ℤ (pos 0) n && leb_ℤ n max_limit) (atoi (get "limit" q)),
  or_default def_page (λ n. ltb_ℤ (pos 0) n) (atoi (get "page" q)),
)

-- The offset of a page.
unfoldable pub offset_of : (limit page : ℤ) → ℤ
offset_of limit page = mul64 (sub64 page (pos 1)) limit

abbrev pub count : {A : Type 0} → List A → ℕ
count [] = 0
count (x ∷ xs) = suc (count xs)

-- The link to the next page, where the page is full.
unfoldable pub next_page :
    {A : Type 0} → List A → (limit page : ℤ) → Option String → Option NextPage
next_page xs limit page user_id =
    if eqb_ℤ (pos (count xs)) limit
    then some (record { limit = limit; page = add64 page (pos 1); user_id = user_id })
    else none

unfoldable pub default_if_empty : String → String → String
default_if_empty s d = if is_empty (trim_space s) then d else trim_space s
