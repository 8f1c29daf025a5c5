-- ===== src/Platform/Nrps/Served.antt =====
-- pkg/platform/lti/nrps/routes.go: what a request for members asks of the storage.
use mindengage_lms.Prelude.{
  ℤ, pos, ◌≤ℤ◌, ltb_ℤ, String, false, ◌≡◌, refl, sym, ap, inl, inr, some, List, [], Result, ok,
  Result-cases, Bool-cases, arith,
}
use mindengage_lms.Strings.{Unicode, trim_space, is_empty}
use mindengage_lms.Platform.Http.{Request, get, Outcome, refused, challenged, served}
use mindengage_lms.Platform.Bearer.Admits.{is_refusal, IsRefusal}
use mindengage_lms.Platform.Ags.{StorageError, not_found, failed}
use mindengage_lms.Platform.Nrps.{
  Membership, Memberships, Container, normalize_role, parse_int, clamp_int, map_members,
  storage_refusal, get_memberships,
}

-- A clamped number is within its bounds.
clamp_int_lem :
    (n min max : ℤ) → min ≤ℤ max → (min ≤ℤ clamp_int n min max) × (clamp_int n min max ≤ℤ max)
unfolding clamp_int
clamp_int_lem n min max h = elim (Bool-cases (ltb_ℤ n min)) [
  | inl a ↦ rw a (omega arith, h)
  | inr a ↦ elim (Bool-cases (ltb_ℤ max n)) [
    | inl b ↦ rw (a, b) (h, omega arith)
    | inr b ↦ rw (a, b) (ground arith, ground arith)
  ]
]

-- The members that were served are a page of at most 200 of those of the context in the tenant.
pub record IsPage (u : Unicode) (store : Memberships) (r : Request) (tenant : String)
    (c : Container) : Type 0 where
  pub limit : ℤ
  pub at_least : pos 1 ≤ℤ limit
  pub at_most : limit ≤ℤ pos 200
  pub listed :
      (found : List Membership) × (next : String) × (store.list_memberships tenant
          (get "contextId" r.params)
          (normalize_role u (get "role" r.query))
          (trim_space (get "page_token" r.query))
          limit
        ≡ ok (found, next))
      × (c.members ≡ map_members u found)

abbrev members_of : Outcome Container → List Membership
members_of (served c) = c.members
members_of (refused status msg) = []
members_of (challenged realm code description) = []

refusal : {o : Outcome Container} {c : Container} → IsRefusal o → o ≡ served c → ⊥
refusal r h = cc (ap is_refusal h, r)

storage_refusal-IsRefusal : (e : StorageError) → IsRefusal (storage_refusal {A = Container} e)
storage_refusal-IsRefusal not_found = refl
storage_refusal-IsRefusal (failed e) = refl

-- A request for members that is served is of the tenant that was resolved, which is not blank, and of a
-- context that its path names; the storage was asked for the role of the query, by its URI, and for 1
-- to 200 members, whatever limit the query has.
pub get_memberships-IsPage :
    (u : Unicode) (store : Memberships) (resolve : Request → Result String String) (r : Request)
    (c : Container)
    → get_memberships u (some store) (some resolve) r ≡ served c
    → (tenant : String) × (resolve r ≡ ok tenant)
      × (is_empty (trim_space tenant) ≡ false)
      × (is_empty (trim_space (get "contextId" r.params)) ≡ false)
      × IsPage u store r tenant c
unfolding get_memberships
get_memberships-IsPage u store resolve r c h = elim (Result-cases (resolve r)) [
  | inr (e, t) ↦ absurd (cc (rw (get_memberships, t) at h))
  | inl (tenant, t) ↦ elim (Bool-cases (is_empty (trim_space tenant))) [
    | inl a ↦ absurd (cc (rw (get_memberships, t, a) at h))
    | inr a ↦
        let context_id = get "contextId" r.params in
        elim (Bool-cases (is_empty (trim_space context_id))) [
          | inl b ↦ absurd (cc (rw (get_memberships, t, a, b) at h))
          | inr b ↦ elim (Result-cases (store.get_context_meta tenant context_id)) [
            | inr (e, m) ↦
                absurd
                  (refusal (storage_refusal-IsRefusal e) (rw (get_memberships, t, a, b, m) at h))
            | inl (meta, m) ↦
                let limit =
                  clamp_int (parse_int (get "limit" r.query) (pos 50)) (pos 1) (pos 200) in
                let (low, high) =
                  clamp_int_lem (parse_int (get "limit" r.query) (pos 50)) (pos 1) (pos 200)
                    (omega arith) in
                elim (Result-cases (
                  store.list_memberships tenant context_id (normalize_role u (get "role" r.query))
                    (trim_space (get "page_token" r.query)) limit)) [
                      | inr (e, l) ↦ absurd (
                          refusal (storage_refusal-IsRefusal e)
                            (rw (get_memberships, t, a, b, m, l) at h))
                      | inl ((found, next), l) ↦ (
                        tenant,
                        t,
                        a,
                        b,
                        record {
                          limit = limit;
                          at_least = low;
                          at_most = high;
                          listed = (
                            found,
                            next,
                            l,
                            sym (ap members_of (rw (get_memberships, t, a, b, m, l) at h)),
                          );
                        },
                      )
                    ]
          ]
        ]
  ]
]
