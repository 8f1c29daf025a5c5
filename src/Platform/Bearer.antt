-- ===== src/Platform/Bearer.antt =====
-- pkg/platform/lti/middleware/authn.go: bearer tokens, the claims in the context, and scopes.
pub mod Admits
use Prim.Native.Char.{Char, code}
use Prim.Native.String.{◌++◌ as ◌<>◌}
use mindengage_lms.Prelude.{
  ℕ, ◌==◌, ℤ, ltb_ℤ, String, Bool, true, false, not, ◌&&◌, ◌||◌, Option, none, some, List, [], ◌∷◌,
  any, all, GoMap, lookup, Result, ok, err, str_eq, if◌then◌else◌,
}
use mindengage_lms.Strings.{Unicode, trim_space, to_lower, is_empty}
use mindengage_lms.Strings.Split.{join}
use mindengage_lms.Platform.Http.{Request, AccessClaims, Outcome, refused, challenged, Handler, get}

-- TokenVerifier.VerifyAccessToken, at the time of the request.
abbrev pub Verifier : Type 0
Verifier = String → Result String AccessClaims

-- AuthOptions
pub record AuthOptions : Type 0 where
  pub realm : String
  pub enforce_tenant_match : Bool
  pub resolve_tenant_id : Option (Request → Result String String)

-- What follows a prefix, which is compared without case; the prefixes of the program are ASCII, so
-- that its byte offsets are those of characters.
unfoldable pub strip_prefix_fold : Unicode → (prefix hdr : String) → Option String
strip_prefix_fold u String.[] s = some s
strip_prefix_fold u (String.◌∷◌ c p) String.[] = none
strip_prefix_fold u (String.◌∷◌ c p) (String.◌∷◌ d s) =
    let rest = strip_prefix_fold u p s in if code (u.fold c) == code (u.fold d) then rest else none

abbrev not_empty : String → Option String
not_empty s = if is_empty s then none else some s

unfoldable pub extract_bearer : Unicode → String → Option String
unfolding strip_prefix_fold trim_space
extract_bearer u hdr = elim (strip_prefix_fold u "bearer " hdr) [
  | none ↦ none
  | some rest ↦ not_empty (trim_space rest)
]

-- The sanitizer for header values.
unfoldable pub escape : String → String
escape String.[] = ""
escape (String.◌∷◌ c s) =
    let rest = escape s in
    if code c == 0x22
    then "'" <> rest
    else if code c == 0x0a
    then " " <> rest
    else String.◌∷◌ c rest

unfoldable pub tenant_equal : Unicode → String → String → Bool
tenant_equal u a b = str_eq (trim_space (to_lower u a)) (trim_space (to_lower u b))

abbrev pub realm_or_default : String → String
realm_or_default realm = if is_empty realm then "protected" else realm

module _ {A : Type 0} where
  unfoldable pub unauthorized : (realm error description : String) → Outcome A
  unfolding escape
  unauthorized realm error desc = challenged (escape realm) (escape error) (escape desc)

  unfoldable pub forbidden : String → Outcome A
  forbidden msg = refused 403 ("forbidden: " <> msg)

  -- The tenant alignment: the refusal, if there is one.
  unfoldable pub check_tenant : Unicode → AuthOptions → Request → AccessClaims → Option (Outcome A)
  check_tenant u opts r claims =
      if not opts.enforce_tenant_match then none else elim opts.resolve_tenant_id [
        | none ↦ none
        | some resolve ↦ elim (resolve r) [
          | err e ↦ some (
              unauthorized (realm_or_default opts.realm) "invalid_request"
                "unable to resolve tenant")
          | ok tenant ↦
              if is_empty (trim_space tenant)
              then some (
                  unauthorized (realm_or_default opts.realm) "invalid_request"
                    "unable to resolve tenant")
              else if tenant_equal u tenant claims.tenant_id
              then none
              else some (forbidden "tenant mismatch")
        ]
      ]

module _ {S A : Type 0} where
  unfoldable pub bearer_auth_with_options :
      Unicode → Verifier → AuthOptions → Handler S A → Handler S A
  bearer_auth_with_options u verify opts next r s =
      elim (extract_bearer u (get "Authorization" r.headers)) [
        | none ↦
            (unauthorized (realm_or_default opts.realm) "invalid_request" "missing bearer token", s)
        | some raw ↦ elim (verify raw) [
          | err e ↦ (unauthorized (realm_or_default opts.realm) "invalid_token" e, s)
          | ok claims ↦ elim (check_tenant u opts r claims) [
            | some refusal ↦ (refusal, s)
            | none ↦ next (record r { claims = some claims }) s
          ]
        ]
      ]

  unfoldable pub bearer_auth : Unicode → Verifier → Handler S A → Handler S A
  unfolding bearer_auth_with_options
  bearer_auth u verify =
      bearer_auth_with_options u verify
        (record { realm = ""; enforce_tenant_match = false; resolve_tenant_id = none })

-- The set hset of the trimmed texts, and membership in it.
unfoldable pub has_scope : List String → String → Bool
has_scope have s = any (λ h. str_eq (trim_space h) (trim_space s)) have

unfoldable pub has_all_scopes : (have need : List String) → Bool
unfolding has_scope
has_all_scopes have need = all (has_scope have) need

unfoldable pub has_any_scope : (have any_of : List String) → Bool
unfolding has_scope
has_any_scope have any_of = any (has_scope have) any_of

unfoldable pub missing_scopes : (have need : List String) → List String
unfolding has_scope
missing_scopes have [] = []
missing_scopes have (s ∷ ss) =
    let rest = missing_scopes have ss in if has_scope have s then rest else s ∷ rest

unfoldable pub norm_scopes : List String → List String
norm_scopes [] = []
norm_scopes (x ∷ xs) =
    let rest = norm_scopes xs in if is_empty (trim_space x) then rest else trim_space x ∷ rest

module _ {S A : Type 0} where
  unfoldable pub require_all_scopes : List String → Handler S A → Handler S A
  unfolding forbidden
  require_all_scopes required next r s =
      let need = norm_scopes required in
      elim r.claims [
        | none ↦ (forbidden "missing auth context", s)
        | some cl ↦ if has_all_scopes cl.scopes need then next r s else (
          forbidden ("missing required scopes: " <> join " " (missing_scopes cl.scopes need)),
          s,
        )
      ]

  unfoldable pub require_any_scope : List String → Handler S A → Handler S A
  unfolding forbidden
  require_any_scope any_of next r s =
      let one_of = norm_scopes any_of in
      elim r.claims [
        | none ↦ (forbidden "missing auth context", s)
        | some cl ↦
            if has_any_scope cl.scopes one_of
            then next r s
            else (forbidden ("requires one of scopes: " <> join " " one_of), s)
      ]

-- TenantID and ClientID of the claims in the context.
unfoldable pub tenant_id : Request → String
tenant_id r = elim r.claims [ none ↦ "" | some c ↦ c.tenant_id ]

unfoldable pub client_id : Request → String
client_id r = elim r.claims [ none ↦ "" | some c ↦ c.client_id ]

-- StaticTokenVerifier.VerifyAccessToken at a time; a nil verifier or map is `none`.
unfoldable pub verify_static : ℤ → Option (GoMap AccessClaims) → Verifier
verify_static now none raw = err "invalid token"
verify_static now (some tokens) raw = elim (lookup raw tokens) [
  | none ↦ err "invalid token"
  | some claims ↦ elim claims.expires_at [
    | none ↦ ok claims
    | some t ↦ if ltb_ℤ t now then err "invalid token" else ok claims
  ]
]
