-- ===== src/Platform/DeepLinking.antt =====
-- pkg/platform/lti/deeplinking/response.go: the content items of a deep linking response. The claims of a
-- token hold the dynamic values that encoding/json makes.
pub mod Response
pub mod Start
use mindengage_lms.Prelude.{
  ℕ, String, Bool, true, false, not, ◌&&◌, Option, none, some, List, [], ◌∷◌, GoMap, Result, ok,
  err, ◌>>=◌, ◌>>◌, fail_if, str_eq, if◌then◌else◌,
}
use mindengage_lms.Strings.{trim_space, is_empty}
use mindengage_lms.Strings.Split.{split_on}
use mindengage_lms.Float.{Float64, zero_f}
use mindengage_lms.Exam.Models.{
  Value, null, num, str, arr, obj, Values, nil, cons, Fields, end, field,
}

pub record LineItemHint (F : Type 0) : Type 0 where
  pub label : String
  pub score_maximum : F
  pub resource_id : String

-- ContentItem; a nil map is `none`.
pub record ContentItem (F : Type 0) : Type 0 where
  pub item_type : String
  pub title : String
  pub url : String
  pub resource_link_id : String
  pub custom : Option (GoMap String)
  pub line_item : Option (LineItemHint F)

unfoldable pub first_non_empty : List String → String
unfolding trim_space
first_non_empty [] = ""
first_non_empty (v ∷ vs) =
    let rest = first_non_empty vs in if not (is_empty (trim_space v)) then v else rest

module _ {F : Type 0} where
  unfoldable pub as_string : Value F → String
  as_string (str s) = s
  as_string (arr (cons v vs)) = as_string v
  as_string _ = ""

  -- `m[key]`, nil where it is missing
  unfoldable pub get_nested : Fields F → String → Value F
  get_nested end key = null
  get_nested (field k v m) key = let rest = get_nested m key in if str_eq k key then v else rest

  abbrev texts_in : Fields F → GoMap String
  texts_in end = []
  texts_in (field k v m) =
      let rest = texts_in m in if is_empty (as_string v) then rest else (k, as_string v) ∷ rest

  unfoldable pub to_string_map : Value F → Option (GoMap String)
  unfolding as_string
  to_string_map (obj m) = some (texts_in m)
  to_string_map _ = none

module _ {F : Type 0} ⦃fl : Float64 F⦄ where
  abbrev float_or_zero : Option F → F
  float_or_zero none = zero_f
  float_or_zero (some f) = f

  unfoldable pub to_float : Value F → F
  to_float (num f) = f
  to_float (str s) = if is_empty s then zero_f else float_or_zero (fl.parse s)
  to_float _ = zero_f

  abbrev line_item_of : Value F → Option (LineItemHint F)
  line_item_of (obj li) = some (record {
    label = as_string (get_nested li "label");
    score_maximum = to_float (get_nested li "scoreMaximum");
    resource_id = as_string (get_nested li "resourceId");
  })
  line_item_of _ = none

  unfoldable pub content_item : Fields F → ContentItem F
  unfolding as_string get_nested to_string_map to_float
  content_item m = record {
    item_type = as_string (get_nested m "type");
    title = as_string (get_nested m "title");
    url = as_string (get_nested m "url");
    resource_link_id = as_string (get_nested m "resourceLinkId");
    custom = to_string_map (get_nested m "custom");
    line_item = line_item_of (get_nested m "lineItem");
  }

  abbrev pub is_resource_link : ContentItem F → Bool
  is_resource_link it = str_eq it.item_type "ltiResourceLink"

  -- The loop over the elements of the claim.
  unfoldable pub parse_items : Values F → Result String (List (ContentItem F))
  parse_items nil = ok []
  parse_items (cons (obj m) vs) = do
    fail_if (is_resource_link (content_item m) && is_empty (content_item m).url)
        "ltiResourceLink requires url"
    items ← parse_items vs
    ok (content_item m ∷ items)
  parse_items (cons v vs) = err "content item must be an object"

  unfoldable pub parse_content_items : Value F → Result String (List (ContentItem F))
  parse_content_items (arr vs) = parse_items vs
  parse_content_items v = err "content_items must be an array"

-- base64.RawURLEncoding, base64.URLEncoding.WithPadding(base64.NoPadding), and json.Unmarshal into a map.
pub record ClaimsCodec (F : Type 0) : Type 0 where
  pub raw_url : String → Result String (List ℕ)
  pub url_without_padding : String → Result String (List ℕ)
  pub unmarshal : List ℕ → Result String (Fields F)

abbrev or_else : Result String (List ℕ) → Result String (List ℕ) → Result String (List ℕ)
or_else (ok payload) second = ok payload
or_else (err e) second = second

module _ {F : Type 0} where
  abbrev claims_of_parts : ClaimsCodec F → List String → Result String (Fields F)
  claims_of_parts codec [] = err "invalid JWT format"
  claims_of_parts codec (header ∷ []) = err "invalid JWT format"
  claims_of_parts codec (header ∷ payload ∷ rest) =
      or_else (codec.raw_url payload) (codec.url_without_padding payload) >>= codec.unmarshal

  unfoldable pub unverified_claims : ClaimsCodec F → (jwt : String) → Result String (Fields F)
  unfolding split_on
  unverified_claims codec jwt = claims_of_parts codec (split_on 0x2e jwt)
