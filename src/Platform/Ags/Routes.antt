-- ===== src/Platform/Ags/Routes.antt =====
-- pkg/platform/lti/ags/routes.go: the routes, and the scope that each needs.
use mindengage_lms.Prelude.{String, [], ◌∷◌, Option, Result}
use mindengage_lms.Strings.{Unicode}
use mindengage_lms.Float.{Float64}
use mindengage_lms.Platform.Http.{Net, Handler}
use mindengage_lms.Platform.Scopes.{PayloadScopes, require_scopes}
use mindengage_lms.Platform.Ags.{Server, Reply}
use mindengage_lms.Platform.Ags.Items.{
  NewItem, ItemChange, get_line_items, post_line_item, get_line_item, put_line_item,
  delete_line_item,
}
use mindengage_lms.Platform.Ags.Scores.{ScoreBody, Layouts, post_score, get_results}

-- A route that was matched, with what encoding/json reads from the body.
pub data Route (F : Type 0) : Type 0 where
  list_items read_item remove_item list_results : Route F
  create_item : Result String (NewItem F) → Route F
  change_item : Result String (ItemChange F) → Route F
  put_score : Result String (ScoreBody F) → Route F

unfoldable pub scope_of : {F : Type 0} → Route F → String
scope_of list_items = "https://purl.imsglobal.org/spec/lti-ags/scope/lineitem.readonly"
scope_of read_item = "https://purl.imsglobal.org/spec/lti-ags/scope/lineitem.readonly"
scope_of remove_item = "https://purl.imsglobal.org/spec/lti-ags/scope/lineitem"
scope_of list_results = "https://purl.imsglobal.org/spec/lti-ags/scope/result.readonly"
scope_of (create_item _) = "https://purl.imsglobal.org/spec/lti-ags/scope/lineitem"
scope_of (change_item _) = "https://purl.imsglobal.org/spec/lti-ags/scope/lineitem"
scope_of (put_score _) = "https://purl.imsglobal.org/spec/lti-ags/scope/score"

module _ {F S : Type 0} ⦃fl : Float64 F⦄ (net : Net) (u : Unicode) (layouts : Layouts)
    (decode : String → Option PayloadScopes) (server : Server F S) where
  unfoldable pub handler_of : Route F → Handler S (Reply F)
  handler_of list_items r s = get_line_items net server r s
  handler_of read_item r s = get_line_item net server r s
  handler_of remove_item r s = delete_line_item net server r s
  handler_of list_results r s = get_results net layouts server r s
  handler_of (create_item body) r s = post_line_item net server r body s
  handler_of (change_item body) r s = put_line_item net server r body s
  handler_of (put_score body) r s = post_score net layouts server r body s

  unfoldable pub serve : Route F → Handler S (Reply F)
  unfolding handler_of scope_of
  serve route = require_scopes u decode (scope_of route ∷ []) (handler_of route)
