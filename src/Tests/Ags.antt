-- ===== src/Tests/Ags.antt =====
-- The grade services at a concrete storage, a list of line items.
use mindengage_lms.Prelude.{
  take, drop, ℕ, ℤ, pos, leb, String, false, ◌≡◌, refl, Option, none, some, List, [], ◌∷◌, Result,
  ok, err, lookup, str_eq, str_eq_refl, if◌then◌else◌, arith,
}
use mindengage_lms.Strings.{is_space, trim_left, trim_right, trim_space, trim_suffix}
use mindengage_lms.Platform.Http.{Request, get, served, forwarded_proto}
use mindengage_lms.Platform.Scopes.{PayloadScopes}
use mindengage_lms.Platform.Ags.{
  LineItem, StorageError, not_found, Storage, Server, found_item, require_tenant, line_item_url,
  scheme_from_request, host_without_port, absolute_line_item_id_from_path,
}
use mindengage_lms.Platform.Ags.Items.{
  NewItem, ItemChange, item_to_create, post_line_item, get_line_item, put_line_item, change_item,
}
use mindengage_lms.Platform.Ags.Scores.{Layouts}
use mindengage_lms.Platform.Ags.Paging.{follow, follow_lem}
use mindengage_lms.Platform.Ags.Stored.{KeepsCreated, post_line_item-get_line_item}
use mindengage_lms.Platform.Ags.Updated.{IsChange, put_line_item-IsChange}
use mindengage_lms.Platform.Ags.Guarded.{AllGuarded, serve_lem}
use mindengage_lms.Tests.Setup.{thousandths, plain_unicode}
use mindengage_lms.Tests.Requests.{plain_net, request}

-- The newest item with an id.
abbrev find : String → List (LineItem ℕ) → Result StorageError (LineItem ℕ)
find id [] = err not_found
find id (item ∷ rest) = let later = find id rest in if str_eq item.id id then ok item else later

abbrev listed : Storage ℕ (List (LineItem ℕ))
listed = record {
  create_line_item = λ tenant item s. (ok item, item ∷ s);
  get_line_item = λ tenant id s. (find id s, s);
  update_line_item = λ tenant item s. (ok item, item ∷ s);
  delete_line_item = λ tenant id s. (ok tt, []);
  list_line_items = λ tenant context filter offset limit s. (ok s, s);
  upsert_score = λ tenant id score s. (err not_found, s);
  list_results = λ tenant id user offset limit s. (ok [], s);
}

abbrev grade_server : Server ℕ (List (LineItem ℕ))
grade_server = record {
  store = listed;
  now = pos 1000;
  new_id = "i1";
  resolve_tenant_id = some (λ r. ok "acme");
  external_base_path = "";
}

abbrev post_request : Request
post_request = record request { params = ("contextId", "k1") ∷ [] }

abbrev item_request : Request
item_request = record request { method = "GET"; params = ("id", "i1") ∷ [] }

abbrev new_item : NewItem ℕ
new_item = record {
  label = " Quiz ";
  score_maximum = 1000;
  resource_id = "";
  resource_link_id = "";
}

abbrev quiz : LineItem ℕ
quiz = record {
  id = "https://lms.org/api/lti/ags/line_items/i1";
  context_id = "k1";
  resource_link_id = "";
  resource_id = "";
  label = "Quiz";
  score_maximum = 1000;
  created_at = pos 1000;
  updated_at = pos 1000;
}

listed-KeepsCreated : KeepsCreated listed
listed-KeepsCreated tenant item item' s s' h =
    let kept : find item.id (item ∷ s) ≡ ok item = rw (str_eq_refl item.id) refl in cc (kept, h)

post_line_item-get_line_item_example :
    get_line_item plain_net grade_server item_request (quiz ∷ [])
    ≡ (served (found_item quiz), quiz ∷ [])
unfolding post_line_item item_to_create require_tenant line_item_url scheme_from_request
    host_without_port get forwarded_proto lookup str_eq is_space trim_left trim_right trim_space
    trim_suffix
post_line_item-get_line_item_example =
    post_line_item-get_line_item plain_net grade_server post_request item_request (ok new_item) []
      (quiz ∷ []) quiz listed-KeepsCreated refl refl refl refl refl

abbrev relabel : ItemChange ℕ
relabel = record {
  label = some "Test";
  score_maximum = none;
  resource_id = none;
  resource_link_id = none;
}

abbrev test_item : LineItem ℕ
test_item = record quiz { label = "Test" }

put_line_item-IsChange_example :
    (tenant : String) × (change : ItemChange ℕ) × (old new : LineItem ℕ) × (between : List
      (LineItem ℕ))
    × (require_tenant grade_server item_request ≡ ok tenant)
    × (◌≡◌ {A = Result String (ItemChange ℕ)} (ok relabel) (ok change))
    × (listed.get_line_item tenant
          (absolute_line_item_id_from_path plain_net grade_server item_request)
          (quiz ∷ [])
        ≡ (ok old, between))
    × IsChange (λ m. leb m 0 ≡ false) (pos 1000) change old new
    × (listed.update_line_item tenant new between ≡ (ok test_item, test_item ∷ quiz ∷ []))
unfolding put_line_item change_item require_tenant absolute_line_item_id_from_path line_item_url
    scheme_from_request host_without_port get forwarded_proto lookup str_eq is_space trim_left
    trim_right trim_space trim_suffix
put_line_item-IsChange_example =
    put_line_item-IsChange plain_net grade_server item_request (ok relabel) (quiz ∷ [])
      (test_item ∷ quiz ∷ []) test_item refl

abbrev window : (offset limit : ℤ) → List ℕ
window (pos o) (pos l) = take l (drop o (1 ∷ 2 ∷ 3 ∷ []))
window offset limit = []

follow_example : follow window 4 (pos 2) (pos 1) ≡ some (1 ∷ 2 ∷ 3 ∷ [])
follow_example = follow_lem window (1 ∷ 2 ∷ 3 ∷ []) 2 (λ o l. refl) (omega arith) (ground arith)

abbrev no_layouts : Layouts
no_layouts = record { rfc3339_nano = λ s. none; rfc3339 = λ s. none }

abbrev no_scopes : String → Option PayloadScopes
no_scopes s = none

serve_lem_example :
    AllGuarded plain_net plain_unicode no_layouts no_scopes grade_server item_request (quiz ∷ [])
serve_lem_example =
    serve_lem plain_net plain_unicode no_layouts no_scopes grade_server item_request (quiz ∷ [])
