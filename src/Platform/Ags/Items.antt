-- ===== src/Platform/Ags/Items.antt =====
-- pkg/platform/lti/ags/server.go: the handlers of the line items.
use Prim.Native.String.{◌++◌ as ◌<>◌}
use mindengage_lms.Prelude.{
  pos, String, Bool, false, Option, none, some, Result, ok, err, if◌then◌else◌,
}
use mindengage_lms.Strings.{trim_space, is_empty}
use mindengage_lms.Float.{Float64, zero_f}
use mindengage_lms.Platform.Http.{Request, Net, get, Outcome, refused}
use mindengage_lms.Platform.Ags.{
  LineItem, ListFilter, Server, Reply, created, found_item, items, no_content, require_tenant,
  line_item_url, absolute_line_item_id_from_path, write_storage_err, answer, parse_limit_page,
  offset_of, next_page,
}

-- What encoding/json reads from the body of a new item; the fields that the handler ignores are left
-- out.
pub record NewItem (F : Type 0) : Type 0 where
  pub label : String
  pub score_maximum : F
  pub resource_id : String
  pub resource_link_id : String

-- The body of a change, its missing fields `none`.
pub record ItemChange (F : Type 0) : Type 0 where
  pub label : Option String
  pub score_maximum : Option F
  pub resource_id : Option String
  pub resource_link_id : Option String

abbrev pub changed : Option String → String → String
changed none old = old
changed (some new) old = trim_space new

abbrev pub or_old : {F : Type 0} → Option F → F → F
or_old none old = old
or_old (some new) old = new

module _ {F S : Type 0} ⦃fl : Float64 F⦄ (net : Net) (server : Server F S) where
  unfoldable pub item_to_create : Request → (context_id : String) → NewItem F → LineItem F
  item_to_create r context_id new = record {
    id = line_item_url net server r server.new_id;
    context_id = context_id;
    resource_link_id = trim_space new.resource_link_id;
    resource_id = trim_space new.resource_id;
    label = trim_space new.label;
    score_maximum = new.score_maximum;
    created_at = server.now;
    updated_at = server.now;
  }

  unfoldable pub post_line_item : Request → Result String (NewItem F) → S → Outcome (Reply F) × S
  post_line_item r body s = elim (require_tenant server r) [
    | err e ↦ (refused 400 e, s)
    | ok tenant ↦
        if is_empty (get "contextId" r.params)
        then (refused 400 "contextId is required", s)
        else elim body [
          | err e ↦ (refused 400 ("invalid JSON: " <> e), s)
          | ok new ↦
              if is_empty (trim_space new.label)
              then (refused 400 "label is required", s)
              else if fl.le new.score_maximum zero_f
              then (refused 400 "scoreMaximum must be > 0", s)
              else answer created (
                  server.store.create_line_item tenant
                    (item_to_create r (get "contextId" r.params) new) s)
        ]
  ]

  unfoldable pub get_line_items : Request → S → Outcome (Reply F) × S
  get_line_items r s = elim (require_tenant server r) [
    | err e ↦ (refused 400 e, s)
    | ok tenant ↦
        let context_id = get "contextId" r.params in
        let filter : ListFilter = record {
          resource_id = trim_space (get "resource_id" r.query);
          resource_link_id = trim_space (get "resource_link_id" r.query);
        } in
        let (limit, page) = parse_limit_page r.query (pos 50) (pos 1) (pos 100) in
        if is_empty context_id
        then (refused 400 "contextId is required", s)
        else answer (λ found. items found (next_page found limit page none))
            (server.store.list_line_items tenant context_id filter (offset_of limit page) limit s)
  ]

  unfoldable pub get_line_item : Request → S → Outcome (Reply F) × S
  get_line_item r s = elim (require_tenant server r) [
    | err e ↦ (refused 400 e, s)
    | ok tenant ↦
        answer found_item
          (server.store.get_line_item tenant (absolute_line_item_id_from_path net server r) s)
  ]

  abbrev pub is_refused_maximum : Option F → Bool
  is_refused_maximum none = false
  is_refused_maximum (some m) = fl.le m zero_f

  unfoldable pub change_item : ItemChange F → LineItem F → LineItem F
  change_item change existing = record existing {
    label = changed change.label existing.label;
    score_maximum = or_old change.score_maximum existing.score_maximum;
    resource_id = changed change.resource_id existing.resource_id;
    resource_link_id = changed change.resource_link_id existing.resource_link_id;
    updated_at = server.now;
  }

  unfoldable pub put_line_item : Request → Result String (ItemChange F) → S → Outcome (Reply F) × S
  put_line_item r body s = elim (require_tenant server r) [
    | err e ↦ (refused 400 e, s)
    | ok tenant ↦ elim body [
      | err e ↦ (refused 400 ("invalid JSON: " <> e), s)
      | ok change ↦
          let (got, s') =
            server.store.get_line_item tenant (absolute_line_item_id_from_path net server r) s in
          elim got [
            | err e ↦ (write_storage_err e, s')
            | ok existing ↦
                if is_refused_maximum change.score_maximum
                then (refused 400 "scoreMaximum must be > 0", s')
                else answer found_item
                    (server.store.update_line_item tenant (change_item change existing) s')
          ]
    ]
  ]

  unfoldable pub delete_line_item : Request → S → Outcome (Reply F) × S
  delete_line_item r s = elim (require_tenant server r) [
    | err e ↦ (refused 400 e, s)
    | ok tenant ↦
        answer (λ _. no_content)
          (server.store.delete_line_item tenant (absolute_line_item_id_from_path net server r) s)
  ]
