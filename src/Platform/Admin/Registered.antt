-- ===== src/Platform/Admin/Registered.antt =====
-- pkg/platform/admin/registry.go: what is written to the registry.
use mindengage_lms.Prelude.{
  String, true, false, ◌≡◌, ap, inl, inr, none, all, Result, ok, err, Result-cases, Option-cases,
  arith,
}
use mindengage_lms.Strings.{trim_space, is_empty}
use mindengage_lms.Platform.Http.{Request, Net, get, served, is_http_url}
use mindengage_lms.Platform.Admin.{
  Tool, CreateToolReq, RegistryError, missing, broken, Registry, Answered, with_status, respond,
  is_nil, validate_create_tool_req,
}
use mindengage_lms.Platform.Admin.Tools.{tool_of, create_tool}

-- What a request must have to be registered under a client id.
pub record IsValid (net : Net) (client_id : String) (req : CreateToolReq) : Type 0 where
  pub has_client : is_empty (trim_space client_id) ≡ false
  pub has_name : is_empty (trim_space req.name) ≡ false
  pub has_jwks : is_empty (trim_space req.jwks_url) ≡ false
  pub http_jwks : is_http_url net req.jwks_url ≡ true
  pub has_redirects : is_nil req.redirect_uris ≡ false
  pub http_redirects : all (is_http_url net) req.redirect_uris ≡ true
  pub has_methods : is_nil req.auth_methods ≡ false

module _ (net : Net) where
  validate_create_tool_req-IsValid :
      (req : CreateToolReq)
      → validate_create_tool_req net req ≡ none
      → IsValid net req.client_id req
  unfolding validate_create_tool_req
  validate_create_tool_req-IsValid req h = record {
    has_client = ground arith;
    has_name = ground arith;
    has_jwks = ground arith;
    http_jwks = ground arith;
    has_redirects = ground arith;
    http_redirects = ground arith;
    has_methods = ground arith;
  }

module _ {S : Type 0} where
  respond-served :
      {A B : Type 0} (msg : String) (f : A → Answered B) (m : Result RegistryError A × S)
      {b : Answered B} {s' : S}
      → respond msg f m ≡ (served b, s')
      → (a : A) × (m ≡ (ok a, s')) × (b ≡ f a)
  respond-served msg f (ok a, s) h = (a, ap (λ p. (ok a, p.1)) h, cc h)
  respond-served msg f (err missing, s) h = absurd (cc (ap (λ p. p.0) h))
  respond-served msg f (err (broken e), s) h = absurd (cc (ap (λ p. p.0) h))

module _ {S : Type 0} (net : Net) (registry : Registry S) where
  -- A POST that is answered has inserted one tool into the registry, in the tenant of its path: that of
  -- its body, with all texts trimmed, whose client id, name, keys and redirects are given and whose
  -- addresses are of HTTP; and it answers 201 with this tool.
  pub create_tool-IsValid :
      (r : Request) (body : Result String CreateToolReq) (s s' : S) (answer : Answered Tool)
      → create_tool net registry r body s ≡ (served answer, s')
      → (req : CreateToolReq) × (body ≡ ok req)
        × IsValid net req.client_id req
        × (let t = tool_of (get "tenantID" r.params) (trim_space req.client_id) req in
            (registry.insert_tool t s ≡ (ok tt, s')) × (answer ≡ with_status 201 t))
  unfolding create_tool
  create_tool-IsValid r body s s' answer h = elim (Result-cases body) [
    | inr (e, b) ↦ absurd (cc (ap (λ p. p.0) (rw (create_tool, b) at h)))
    | inl (req, b) ↦ elim (Option-cases (validate_create_tool_req net req)) [
      | inr (msg, v) ↦ absurd (cc (ap (λ p. p.0) (rw (create_tool, b, v) at h)))
      | inl v ↦
          let (_, i, a) = respond-served "tenant not found" _ _ (rw (create_tool, b, v) at h) in
          (req, b, validate_create_tool_req-IsValid net req v, (i, a))
    ]
  ]
