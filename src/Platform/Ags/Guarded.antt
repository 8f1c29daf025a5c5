-- ===== src/Platform/Ags/Guarded.antt =====
-- pkg/platform/lti/ags/routes.go with middleware/scopes.go: who can change the storage.
use mindengage_lms.Prelude.{
  String, Bool, true, false, ◌≡◌, refl, ◌∙◌, Result, Option, List, [], ◌∷◌, str_eq, if◌then◌else◌,
  ◌||◌, ◌&&◌,
}
use mindengage_lms.Strings.{
  Unicode, is_space, trim_left, trim_right, trim_space, has_suffix, trim_suffix,
}
use mindengage_lms.Float.{Float64}
use mindengage_lms.Platform.Http.{Request, Net, Outcome, refused}
use mindengage_lms.Platform.Scopes.{
  PayloadScopes, has_member, add_member, unique_scopes, have_scopes_set, satisfies, satisfies_all,
  require_scopes,
}
use mindengage_lms.Platform.Ags.{Server, Reply}
use mindengage_lms.Platform.Ags.Items.{
  NewItem, ItemChange, get_line_items, get_line_item, delete_line_item, post_line_item,
  put_line_item,
}
use mindengage_lms.Platform.Ags.Scores.{Layouts, ScoreBody, get_results, post_score}
use mindengage_lms.Platform.Ags.Routes.{
  Route, list_items, read_item, remove_item, list_results, create_item, change_item, put_score,
  scope_of, serve, handler_of,
}

abbrev pub lineitem_scope : String
lineitem_scope = "https://purl.imsglobal.org/spec/lti-ags/scope/lineitem"

-- The routes that read line items.
abbrev pub reads_items : {F : Type 0} → Route F → Bool
reads_items list_items = true
reads_items read_item = true
reads_items list_results = false
reads_items remove_item = false
reads_items (create_item _) = false
reads_items (change_item _) = false
reads_items (put_score _) = false

-- Who holds the scope of a route may call it, and who may write line items may read them.
abbrev pub may_call : {F : Type 0} → List String → Route F → Bool
may_call have route =
    has_member have (scope_of route) || reads_items route && has_member have lineitem_scope

and_true : (b : Bool) → b && true ≡ b
and_true true = refl
and_true false = refl

satisfies_all_lem :
    {F : Type 0} (have : List String) (route : Route F)
    → satisfies_all have (unique_scopes (scope_of route ∷ [])) ≡ may_call have route
unfolding satisfies_all satisfies unique_scopes add_member has_member scope_of str_eq is_space
    trim_left trim_right trim_space has_suffix trim_suffix
satisfies_all_lem have list_items = and_true _
satisfies_all_lem have read_item = and_true _
satisfies_all_lem have list_results = and_true _
satisfies_all_lem have remove_item = and_true _
satisfies_all_lem have (create_item b) = and_true _
satisfies_all_lem have (change_item b) = and_true _
satisfies_all_lem have (put_score b) = and_true _

module _ {F S : Type 0} ⦃fl : Float64 F⦄ (net : Net) (u : Unicode) (layouts : Layouts)
    (decode : String → Option PayloadScopes) (server : Server F S) where
  serve-may_call :
      (route : Route F) (r : Request) (s : S)
      → serve net u layouts decode server route r s ≡ (
          if may_call (have_scopes_set u decode r) route
          then handler_of net u layouts decode server route r s
          else (refused 403 "insufficient_scope", s))
  unfolding serve require_scopes
  serve-may_call route r s = rw (satisfies_all_lem (have_scopes_set u decode r) route) refl

  abbrev pub holds : Request → String → Bool
  holds r scope = has_member (have_scopes_set u decode r) scope

  -- What a route does with a request: the handler's run where a scope is held, else the refusal.
  abbrev pub guarded : Bool → S → Outcome (Reply F) × S → Outcome (Reply F) × S
  guarded may s run = if may then run else (refused 403 "insufficient_scope", s)

  abbrev pub served_route : Route F → Request → S → Outcome (Reply F) × S
  served_route route r s = serve net u layouts decode server route r s

  -- The scope and the handler of each route.
  pub record AllGuarded (r : Request) (s : S) : Type 0 where
    pub lists :
        served_route list_items r s
        ≡ guarded
            (holds r "https://purl.imsglobal.org/spec/lti-ags/scope/lineitem.readonly"
              || holds r "https://purl.imsglobal.org/spec/lti-ags/scope/lineitem")
            s
            (get_line_items net server r s)
    pub reads :
        served_route read_item r s
        ≡ guarded
            (holds r "https://purl.imsglobal.org/spec/lti-ags/scope/lineitem.readonly"
              || holds r "https://purl.imsglobal.org/spec/lti-ags/scope/lineitem")
            s
            (get_line_item net server r s)
    pub removes :
        served_route remove_item r s
        ≡ guarded
            (holds r "https://purl.imsglobal.org/spec/lti-ags/scope/lineitem")
            s
            (delete_line_item net server r s)
    pub results :
        served_route list_results r s
        ≡ guarded
            (holds r "https://purl.imsglobal.org/spec/lti-ags/scope/result.readonly")
            s
            (get_results net layouts server r s)
    pub creates :
        (body : Result String (NewItem F))
        → served_route (create_item body) r s
          ≡ guarded
              (holds r "https://purl.imsglobal.org/spec/lti-ags/scope/lineitem")
              s
              (post_line_item net server r body s)
    pub changes :
        (body : Result String (ItemChange F))
        → served_route (change_item body) r s
          ≡ guarded
              (holds r "https://purl.imsglobal.org/spec/lti-ags/scope/lineitem")
              s
              (put_line_item net server r body s)
    pub scores :
        (body : Result String (ScoreBody F))
        → served_route (put_score body) r s
          ≡ guarded
              (holds r "https://purl.imsglobal.org/spec/lti-ags/scope/score")
              s
              (post_score net layouts server r body s)

  or_false :
      (b : Bool) (s : S) (run : Outcome (Reply F) × S)
      → guarded (b || false) s run ≡ guarded b s run
  or_false true s run = refl
  or_false false s run = refl

  serve-only :
      (route : Route F) (r : Request) (s : S)
      → reads_items route ≡ false
      → served_route route r s
        ≡ guarded (holds r (scope_of route)) s (handler_of net u layouts decode server route r s)
  serve-only route r s h =
      serve-may_call route r s
      ∙ rw h
          (or_false (holds r (scope_of route)) s (handler_of net u layouts decode server route r s))

  -- Each route hands a request to its handler exactly where the request holds the scope of the route,
  -- or for the two routes that read line items also that to write them; else the request is refused with
  -- 403 and the storage is as before. Deleting, creating and changing line items asks for the scope of
  -- line items, results for that to read results, and scores for that of scores.
  pub serve_lem : (r : Request) (s : S) → AllGuarded r s
  unfolding handler_of scope_of
  serve_lem r s = record {
    lists = serve-may_call list_items r s;
    reads = serve-may_call read_item r s;
    removes = serve-only remove_item r s refl;
    results = serve-only list_results r s refl;
    creates = λ body. serve-only (create_item body) r s refl;
    changes = λ body. serve-only (change_item body) r s refl;
    scores = λ body. serve-only (put_score body) r s refl;
  }
