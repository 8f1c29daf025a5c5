-- ===== src/Platform/Authorize/Posts.antt =====
-- pkg/platform/lti/authorize.go: to which address the endpoint posts, and what.
use mindengage_lms.Prelude.{
  ℕ, ℤ, add_ℤ, String, Bool, true, false, not, ◌≡◌, refl, inl, inr, some, List, [], ◌∷◌, get_elem?,
  Result, ok, err, ok_inj, required, >>=-eq-ok, or_fail, or_fail-eq-ok, fail_if-eq-ok,
  required-eq-ok, Bool-cases, str_eq, str_eq→eq, ◌||◌, subst,
}
use mindengage_lms.Strings.{Unicode, trim_space, is_empty}
use mindengage_lms.Platform.Http.{Request, Net, get, is_http_url}
use mindengage_lms.Platform.Authorize.{
  refuse, LtiTool, LaunchInfo, LaunchClaims, AuthorizeServer, FormPost, eq_fold, redirect_allowed,
}
use mindengage_lms.Platform.Authorize.Handler.{
  Asked, is_failed, text_of, launch_time, token_ttl, base_claims, deep_link_claims,
  resource_link_claims, launch_claims, read_asked, resolved, authorize_handler,
}

-- A text found by `any` stands in the list.
redirect_allowed-eq-true :
    (uri : String) (allowed : List String)
    → redirect_allowed uri allowed ≡ true
    → (i : ℕ) × (a : String) × (get_elem? allowed i ≡ some a) × (trim_space a ≡ uri)
unfolding redirect_allowed
redirect_allowed-eq-true uri [] h = cc
redirect_allowed-eq-true uri (a ∷ allowed) h = elim (Bool-cases (str_eq (trim_space a) uri)) [
  | inl e ↦ (0, a, refl, str_eq→eq (trim_space a) uri e)
  | inr e ↦
      let (i, b, p, q) = redirect_allowed-eq-true uri allowed (rw (redirect_allowed, e) at h) in
      (ℕ.suc i, b, p, q)
]

not-eq-false : (b : Bool) → not b ≡ false → b ≡ true
not-eq-false true h = refl
not-eq-false false h = cc

text_of_lem :
    (m : Result String String) (b : Bool)
    → (is_failed m || b) ≡ false
    → (m ≡ ok (text_of m)) × (b ≡ false)
text_of_lem (ok t) b h = (refl, h)
text_of_lem (err e) b h = cc

resolved-eq-ok : {li : LaunchInfo} (m : Result String LaunchInfo) → resolved m ≡ ok li → m ≡ ok li
resolved-eq-ok (ok x) h = cc
resolved-eq-ok (err e) h = cc

-- The claims that both messages share.
pub record IsBased (server : AuthorizeServer) (issuer : String) (asked : Asked) (now : ℤ)
    (claims : LaunchClaims) : Type 0 where
  pub iss : claims.iss ≡ issuer
  pub aud : claims.aud ≡ asked.client_id
  pub azp : claims.azp ≡ asked.client_id
  pub nonce : claims.nonce ≡ asked.nonce
  pub iat : claims.iat ≡ now
  pub exp : claims.exp ≡ add_ℤ now (token_ttl server)
  pub target : claims.target_link_uri ≡ asked.redirect_uri

launch_claims-IsBased :
    (server : AuthorizeServer) (iss : String) (asked : Asked) (li : LaunchInfo) (now : ℤ)
    → IsBased server iss asked now (launch_claims server iss asked li now)
unfolding launch_claims deep_link_claims resource_link_claims base_claims
launch_claims-IsBased server iss asked li now = elim (Bool-cases li.deep_linking) [
  | inl e ↦ rw e (record {
    iss = refl;
    aud = refl;
    azp = refl;
    nonce = refl;
    iat = refl;
    exp = refl;
    target = refl;
  })
  | inr e ↦ rw e (record {
    iss = refl;
    aud = refl;
    azp = refl;
    nonce = refl;
    iat = refl;
    exp = refl;
    target = refl;
  })
]

module _ (net : Net) (u : Unicode) (server : AuthorizeServer) where
  -- The request names a client, an address and a nonce.
  pub record IsAsked (r : Request) (asked : Asked) : Type 0 where
    pub client_id : asked.client_id ≡ trim_space (get "client_id" r.query)
    pub redirect_uri : asked.redirect_uri ≡ trim_space (get "redirect_uri" r.query)
    pub is_http : is_http_url net asked.redirect_uri ≡ true
    pub nonce : asked.nonce ≡ trim_space (get "nonce" r.query)
    pub has_client : is_empty asked.client_id ≡ false
    pub has_nonce : is_empty asked.nonce ≡ false
    pub state : asked.state ≡ trim_space (get "state" r.query)

  read_asked-IsAsked :
      (r : Request) {asked : Asked} → read_asked net u server r ≡ ok asked → IsAsked r asked
  unfolding read_asked
  read_asked-IsAsked r {asked} h =
      let (_, h1) =
        fail_if-eq-ok (not (eq_fold u (get "response_type" r.query) "id_token")) _ _ h in
      let (_, h2) =
        fail_if-eq-ok (not (eq_fold u (get "response_mode" r.query) "form_post")) _ _ h1 in
      let (c, h3) = fail_if-eq-ok (is_empty (trim_space (get "client_id" r.query))) _ _ h2 in
      let (p, h4) =
        fail_if-eq-ok (not (is_http_url net (trim_space (get "redirect_uri" r.query)))) _ _ h3 in
      let (n, h5) = fail_if-eq-ok (is_empty (trim_space (get "nonce" r.query))) _ _ h4 in
      subst (IsAsked r) (ok_inj h5) (record {
        client_id = refl;
        redirect_uri = refl;
        is_http = not-eq-false _ p;
        nonce = refl;
        has_client = c;
        has_nonce = n;
        state = refl;
      })

  -- What stands behind a form: the parts of the server that were asked, and what they said.
  pub record IsLaunch (wall : ℤ) (r : Request) (post : FormPost) : Type 0 where
    pub asked : Asked
    pub request : IsAsked r asked
    pub tenant : String
    pub by_tenant :
        (resolve : Request → Result String String) × (server.resolve_tenant_id ≡ some resolve)
        × (resolve r ≡ ok tenant)
        × (is_empty (trim_space tenant) ≡ false)
    pub by_tool :
        (look : String → String → Result String LtiTool) × (tool : LtiTool) × (server.registry
          ≡ some look)
        × (look tenant asked.client_id ≡ ok tool)
        × (i : ℕ) × (a : String) × (get_elem? tool.redirect_uris i ≡ some a)
        × (trim_space a ≡ post.action)
    pub info : LaunchInfo
    pub by_launch :
        (resolve : String → String → String → String → Result String LaunchInfo) × (server.launches
          ≡ some resolve)
        × (resolve tenant asked.client_id asked.login_hint asked.message_hint ≡ ok info)
    pub iss : String
    pub by_issuer :
        (issuer_for : String → Result String String) × (server.issuers ≡ some issuer_for)
        × (issuer_for tenant ≡ ok iss)
        × (is_http_url net iss ≡ true)
    pub claims : LaunchClaims
    pub is_based : IsBased server iss asked (launch_time server wall) claims
    pub by_signer :
        (sign : String → LaunchClaims → Result String String) × (server.signer ≡ some sign)
        × (sign tenant claims ≡ ok post.id_token)
    pub action : post.action ≡ asked.redirect_uri
    pub state : post.state ≡ asked.state

  -- A form is posted only to an address that is registered, but for its outer spaces, for the tool of
  -- the tenant of the request and of the client it names; its token is what the signer of that tenant
  -- made of claims with the issuer of the tenant, the client as audience, the nonce of the request, the
  -- time of the launch and the expiry one time to live later.
  pub authorize_handler-IsLaunch :
      (wall : ℤ) (r : Request) {post : FormPost}
      → authorize_handler net u server wall r ≡ ok post
      → IsLaunch wall r post
  unfolding authorize_handler
  authorize_handler-IsLaunch wall r {post} h =
      let not_configured = refuse 500 "server not configured" in
      let (issuer_for, a, h1) = >>=-eq-ok (required server.issuers not_configured) _ h in
      let (look, b, h2) = >>=-eq-ok (required server.registry not_configured) _ h1 in
      let (resolve, c, h3) = >>=-eq-ok (required server.launches not_configured) _ h2 in
      let (sign, d, h4) = >>=-eq-ok (required server.signer not_configured) _ h3 in
      let (tenant_of, e, h5) = >>=-eq-ok (required server.resolve_tenant_id not_configured) _ h4 in
      let tenant = text_of (tenant_of r) in
      let (t, h6) =
        fail_if-eq-ok (is_failed (tenant_of r) || is_empty (trim_space tenant)) _ _ h5 in
      let (asked, q, h7) = >>=-eq-ok (read_asked net u server r) _ h6 in
      let (tool, l, h8) =
        >>=-eq-ok (or_fail (look tenant asked.client_id) (refuse 401 "unknown tool/client")) _ h7 in
      let (p, h9) =
        fail_if-eq-ok (not (redirect_allowed asked.redirect_uri tool.redirect_uris)) _ _ h8 in
      let launch = resolve tenant asked.client_id asked.login_hint asked.message_hint in
      let (li, m, h10) = >>=-eq-ok (resolved launch) _ h9 in
      let iss = text_of (issuer_for tenant) in
      let (n, h11) =
        fail_if-eq-ok (is_failed (issuer_for tenant) || not (is_http_url net iss)) _ _ h10 in
      let now = launch_time server wall in
      let signed = sign tenant (launch_claims server iss asked li now) in
      let (jwt, s, h12) = >>=-eq-ok (or_fail signed (refuse 500 "signing failed")) _ h11 in
      subst (IsLaunch wall r) (ok_inj h12) (record {
        asked = asked;
        request = read_asked-IsAsked r q;
        tenant = tenant;
        by_tenant =
            let (x, y) = text_of_lem (tenant_of r) _ t in (tenant_of, required-eq-ok _ _ e, x, y);
        by_tool =
            let (i, uri, at, same) =
              redirect_allowed-eq-true asked.redirect_uri tool.redirect_uris (not-eq-false _ p) in
            (
              look,
              tool,
              required-eq-ok _ _ b,
              or_fail-eq-ok (look tenant asked.client_id) _ l,
              i,
              uri,
              at,
              same,
            );
        info = li;
        by_launch = (resolve, required-eq-ok _ _ c, resolved-eq-ok launch m);
        iss = iss;
        by_issuer =
            let (x, y) = text_of_lem (issuer_for tenant) _ n in
            (issuer_for, required-eq-ok _ _ a, x, not-eq-false _ y);
        claims = launch_claims server iss asked li now;
        is_based = launch_claims-IsBased server iss asked li now;
        by_signer = (sign, required-eq-ok _ _ d, or_fail-eq-ok signed _ s);
        action = refl;
        state = refl;
      })
