-- ===== src/Tests/Nrps.antt =====
-- The members of a concrete context.
use mindengage_lms.Prelude.{String, false, ◌≡◌, refl, none, [], ◌∷◌, Result, ok, str_eq, lookup}
use mindengage_lms.Strings.{is_space, trim_left, trim_right, trim_space, to_lower, is_empty}
use mindengage_lms.Platform.Http.{Request, get}
use mindengage_lms.Platform.Nrps.{
  Membership, Memberships, Container, normalize_role, normalize_roles, empty_as, map_members,
  get_memberships,
}
use mindengage_lms.Platform.Nrps.Served.{IsPage, get_memberships-IsPage}
use mindengage_lms.Tests.Setup.{plain_unicode}
use mindengage_lms.Tests.Requests.{request}

abbrev ada : Membership
ada = record {
  user_id = "u1";
  roles = "student" ∷ [];
  status = "";
  name = "Ada";
  given_name = "Ada";
  family_name = "";
  middle_name = "";
  email = "";
  picture = "";
  lis_person_sourced_id = "";
  lti11_legacy_user_id = "";
}

abbrev one_member : Memberships
one_member = record {
  list_memberships = λ tenant context role token limit. ok (ada ∷ [], "");
  get_context_meta = λ tenant context. ok (record { id = ""; label = ""; title = "" });
}

abbrev members_request : Request
members_request = record request {
  params = ("contextId", "k1") ∷ [];
  query = ("limit", "1000") ∷ ("role", "learner") ∷ [];
}

abbrev container : Container
container = record {
  context = record { id = "k1"; label = ""; title = "" };
  members =
      record ada {
        status = "Active";
        roles = "http://purl.imsglobal.org/vocab/lis/v2/membership#Learner" ∷ [];
      }
      ∷ [];
  next = none;
}

get_memberships-IsPage_example :
    (tenant : String) × (◌≡◌ {A = Result String String} (ok "acme") (ok tenant))
    × (is_empty (trim_space tenant) ≡ false)
    × (is_empty (trim_space (get "contextId" members_request.params)) ≡ false)
    × IsPage plain_unicode one_member members_request tenant container
unfolding get_memberships map_members normalize_roles normalize_role empty_as get lookup str_eq
    is_space trim_left trim_right trim_space to_lower
get_memberships-IsPage_example =
    get_memberships-IsPage plain_unicode one_member (λ r. ok "acme") members_request container refl
