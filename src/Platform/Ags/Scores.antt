-- ===== src/Platform/Ags/Scores.antt =====
-- pkg/platform/lti/ags/server.go: the handlers of scores and results.
use Prim.Native.String.{◌++◌ as ◌<>◌}
use mindengage_lms.Prelude.{ℤ, pos, String, Option, none, some, Result, ok, err, if◌then◌else◌}
use mindengage_lms.Strings.{trim_space, is_empty}
use mindengage_lms.Platform.Http.{Request, Net, get, Outcome, refused}
use mindengage_lms.Platform.Ags.{
  Score, Server, Reply, results, accepted, require_tenant, absolute_line_item_id_from_path, answer,
  parse_limit_page, offset_of, next_page, default_if_empty,
}

-- The body of a score.
pub record ScoreBody (F : Type 0) : Type 0 where
  pub user_id : String
  pub score_given : Option F
  pub score_maximum : Option F
  pub activity_progress : String
  pub grading_progress : String
  pub comment : String
  pub timestamp : String

-- time.Parse with the layouts RFC3339Nano and RFC3339.
pub record Layouts : Type 0 where
  pub rfc3339_nano : String → Option ℤ
  pub rfc3339 : String → Option ℤ

-- The time of a score: that of the server where the body has none.
unfoldable pub timestamp_of : Layouts → (now : ℤ) → String → Option ℤ
timestamp_of layouts now text =
    if is_empty text
    then some now
    else elim (layouts.rfc3339_nano text) [ some t ↦ some t | none ↦ layouts.rfc3339 text ]

unfoldable pub score_of : {F : Type 0} → ScoreBody F → ℤ → Score F
score_of body ts = record {
  user_id = trim_space body.user_id;
  score_given = body.score_given;
  score_maximum = body.score_maximum;
  activity_progress = default_if_empty body.activity_progress "Completed";
  grading_progress = default_if_empty body.grading_progress "FullyGraded";
  timestamp = ts;
  comment = body.comment;
}

abbrev if_any : String → Option String
if_any s = if is_empty s then none else some s

module _ {F S : Type 0} (net : Net) (layouts : Layouts) (server : Server F S) where
  unfoldable pub post_score : Request → Result String (ScoreBody F) → S → Outcome (Reply F) × S
  post_score r body s = elim (require_tenant server r) [
    | err e ↦ (refused 400 e, s)
    | ok tenant ↦ elim body [
      | err e ↦ (refused 400 ("invalid JSON: " <> e), s)
      | ok b ↦
          if is_empty (trim_space b.user_id)
          then (refused 400 "userId is required", s)
          else elim (timestamp_of layouts server.now b.timestamp) [
            | none ↦ (refused 400 "invalid timestamp", s)
            | some ts ↦
                answer (λ _. accepted)
                  (server.store.upsert_score tenant (absolute_line_item_id_from_path net server r)
                    (score_of b ts) s)
          ]
    ]
  ]

  unfoldable pub get_results : Request → S → Outcome (Reply F) × S
  get_results r s = elim (require_tenant server r) [
    | err e ↦ (refused 400 e, s)
    | ok tenant ↦
        let user_id = trim_space (get "user_id" r.query) in
        let (limit, page) = parse_limit_page r.query (pos 50) (pos 1) (pos 100) in
        answer (λ found. results found (next_page found limit page (if_any user_id)))
          (server.store.list_results tenant (absolute_line_item_id_from_path net server r) user_id
            (offset_of limit page) limit s)
  ]
