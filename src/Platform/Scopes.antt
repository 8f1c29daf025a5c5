-- ===== src/Platform/Scopes.antt =====
-- pkg/platform/lti/middleware/scopes.go: the scopes of a request, and the routes that need them.
use mindengage_lms.Prelude.{
  String, Bool, true, ◌&&◌, ◌||◌, Option, none, some, List, [], ◌∷◌, any, str_eq, if◌then◌else◌,
}
use mindengage_lms.Strings.{Unicode, trim_space, is_empty, has_suffix, trim_suffix, equal_fold}
use mindengage_lms.Strings.Split.{fields, before_first, after_first, before_last}
use mindengage_lms.Platform.Http.{Request, refused, Handler, get}

-- A set of texts, as the list of its members.
unfoldable pub has_member : List String → String → Bool
has_member set s = any (λ t. str_eq t s) set

unfoldable pub add_member : String → List String → List String
unfolding has_member
add_member s set = if has_member set s then set else s ∷ set

-- toSet
unfoldable pub to_set : List String → List String
unfolding add_member
to_set [] = []
to_set (s ∷ ss) = add_member s (to_set ss)

-- uniqueScopes; Go gives the members in any order.
unfoldable pub unique_scopes : List String → List String
unfolding add_member
unique_scopes [] = []
unique_scopes (s ∷ ss) =
    let rest = unique_scopes ss in
    let t = trim_space s in if is_empty t then rest else add_member t rest

-- The claims "scope" and "scp" of a token's payload, where they are of the right type; the elements
-- of "scp" that are no texts are `none`.
pub record PayloadScopes : Type 0 where
  pub scope : Option String
  pub scp : Option (List (Option String))

unfoldable pub texts_of : List (Option String) → List String
texts_of [] = []
texts_of (none ∷ vs) = texts_of vs
texts_of (some s ∷ vs) = s ∷ texts_of vs

unfoldable pub scopes_of_payload : PayloadScopes → List String
unfolding unique_scopes texts_of
scopes_of_payload p = elim p.scope [
  | some s ↦
      if is_empty (trim_space s)
      then elim p.scp [ none ↦ [] | some arr ↦ unique_scopes (texts_of arr) ]
      else unique_scopes (fields s)
  | none ↦ elim p.scp [ none ↦ [] | some arr ↦ unique_scopes (texts_of arr) ]
]

-- The text between the first and the last dot, where the first is not at the start.
unfoldable pub jwt_payload : String → Option String
jwt_payload jwt =
    if is_empty (before_first 0x2e jwt)
    then none
    else elim (after_first 0x2e jwt) [ none ↦ none | some rest ↦ before_last 0x2e rest ]

-- `decode` is what base64 and encoding/json read from a payload, `none` where one returns an error.
unfoldable pub parse_scopes_from_jwt :
    (decode : String → Option PayloadScopes) → String → List String
unfolding jwt_payload
parse_scopes_from_jwt decode jwt = elim (jwt_payload jwt) [
  | none ↦ []
  | some b64 ↦ elim (decode b64) [ none ↦ [] | some p ↦ scopes_of_payload p ]
]

unfoldable pub bearer_token : Unicode → String → String
bearer_token u authorization = elim (fields authorization) [
  | a ∷ b ∷ [] ↦ if equal_fold u a "Bearer" then b else ""
  | _ ↦ ""
]

unfoldable pub have_scopes_set :
    Unicode → (decode : String → Option PayloadScopes) → Request → List String
have_scopes_set u decode r = elim r.scopes [
  | some ss ↦ to_set ss
  | none ↦
      let tok = trim_space (bearer_token u (get "Authorization" r.headers)) in
      if is_empty tok then [] else to_set (parse_scopes_from_jwt decode tok)
]

-- A needed scope is held, or it is the read-only one of line items and the writing one is held.
unfoldable pub satisfies : (have : List String) → (need : String) → Bool
unfolding has_member
satisfies have need =
    has_member have need
    || has_suffix need "/lineitem.readonly" && has_member have (trim_suffix need ".readonly")

unfoldable pub satisfies_all : (have required : List String) → Bool
satisfies_all have [] = true
satisfies_all have (need ∷ required) = satisfies have need && satisfies_all have required

-- WithScopesCtx and SetScopesOnContext
unfoldable pub set_scopes_on_context : Request → List String → Request
set_scopes_on_context r scopes = record r { scopes = some (unique_scopes scopes) }

module _ {S A : Type 0} where
  unfoldable pub with_scopes_ctx : List String → Handler S A → Handler S A
  unfolding set_scopes_on_context
  with_scopes_ctx scopes next r s = next (set_scopes_on_context r scopes) s

  unfoldable pub require_scopes :
      Unicode → (decode : String → Option PayloadScopes) → List String → Handler S A → Handler S A
  require_scopes u decode required next r s =
      if satisfies_all (have_scopes_set u decode r) (unique_scopes required)
      then next r s
      else (refused 403 "insufficient_scope", s)
