-- ===== src/Platform/Tenancy.antt =====
-- pkg/platform/lti/middleware/tenancy.go: the tenant of a request in its context.
pub mod Isolation
use mindengage_lms.Prelude.{
  String, Bool, true, false, Option, none, some, Result, ok, err, if◌then◌else◌,
}
use mindengage_lms.Strings.{trim_space, is_empty}
use mindengage_lms.Platform.Http.{Request, TenantInfo, Outcome, refused, Handler}

-- The interface tenants.Resolver.
abbrev pub Resolver : Type 0 → Type 0
Resolver E = Request → Result E (String × String)

module _ {S A : Type 0} where
  unfoldable pub unresolved : (optional : Bool) → Handler S A → Handler S A
  unresolved true next r s = next r s
  unresolved false next r s = (refused 400 "bad request: could not resolve tenant", s)

  unfoldable pub tenancy : {E : Type 0} → Resolver E → (optional : Bool) → Handler S A → Handler S A
  unfolding unresolved
  tenancy res optional next r s = elim (res r) [
    | err e ↦ unresolved optional next r s
    | ok (id, issuer) ↦
        if is_empty (trim_space id)
        then unresolved optional next r s
        else next (record r { tenant = some (record { id = id; issuer = issuer }) }) s
  ]

-- TenancyInfo is the field `tenant` of the request.
unfoldable pub tenant_id_from_request : Request → String
tenant_id_from_request r = elim r.tenant [ none ↦ "" | some ti ↦ ti.id ]

unfoldable pub issuer_from_request : Request → String
issuer_from_request r = elim r.tenant [ none ↦ "" | some ti ↦ ti.issuer ]

unfoldable pub resolve_tenant_id_from_context : Request → Result String String
resolve_tenant_id_from_context r = elim r.tenant [
  | none ↦ err "tenant not resolved in context"
  | some ti ↦ if is_empty (trim_space ti.id) then err "tenant not resolved in context" else ok ti.id
]
