-- ===== src/Tests/Gradebook.antt =====
-- The transfer of a score at concrete tables.
use mindengage_lms.Prelude.{ℕ, pos, ◌+◌, refl, some, [], ◌∷◌, ok, lookup, str_eq}
use mindengage_lms.Gradebook.{GradedAttempt, Placement, AgsClient}
use mindengage_lms.Gradebook.Rows.{Tables, sync_failed, get_graded_attempt}
use mindengage_lms.Gradebook.Sync.{sync_attempt}
use mindengage_lms.Gradebook.Status.{Ended, retries_of, sync_attempt-Ended}

abbrev graded : GradedAttempt ℕ
graded = record {
  id = "a1";
  exam_id = "e1";
  user_id = "u1";
  score = 3000;
  submitted_at = some (pos 1100);
  platform_issuer = "p1";
  deployment_id = "d1";
  context_id = "k1";
  resource_link_id = "r1";
}

abbrev placement : Placement
placement = record { issuer = "p1"; deployment = "d1"; context = "k1"; resource_link = "r1" }

-- One failed transfer of the attempt so far.
abbrev tables : Tables ℕ
tables = record {
  exams = ("e1", record { id = "e1"; title = "Mathematics"; max_pts = 5000 }) ∷ [];
  attempts = ("a1", graded) ∷ [];
  links =
      (record { placement = placement; line_items_url = "https://p1/items"; scopes = [] }, pos 0)
      ∷ [];
  line_items = [];
  next_id = 1;
  user_map = (("p1", "u1"), "s1") ∷ [];
  statuses = ("a1", record { status = sync_failed; retries = 1; last_error = some "timeout" }) ∷ [];
}

-- A platform that counts the scores it gets.
abbrev counting : AgsClient ℕ ℕ
counting = record {
  list_remote_items = λ url query n. (ok [], n);
  create_remote_item = λ url item n. (
    ok (record {
      id = "https://p1/items/1";
      label = item.label;
      resource_id = item.resource_id;
      resource_link_id = item.resource_link_id;
      score_maximum = item.score_maximum;
    }),
    n,
  );
  send_score = λ url score n. (ok tt, n + 1);
}

sync_attempt-Ended_example :
    Ended counting "a1"
      (retries_of (lookup "a1" tables.statuses))
      (sync_attempt counting (pos 1200) "a1" tables 0)
unfolding get_graded_attempt lookup str_eq
sync_attempt-Ended_example =
    sync_attempt-Ended counting (pos 1200) (pos 1100) "a1" tables 0 graded refl refl
