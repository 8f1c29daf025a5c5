-- ===== src/Exam/ManualGrade/Effect.antt =====
-- internal/exam/store_sql.go: what ApplyManualGrades does to the items and to the attempt.
use mindengage_lms.Prelude.{
  ℤ, String, ◌≡◌, ◌≢◌, refl, ◌∙◌, Option, none, some, List, [], ◌∷◌, GoMap, lookup, str_eq_cases,
  arith,
}
use mindengage_lms.Float.{Float64}
use mindengage_lms.Exam.Models.{AttemptRow, ItemRow, Db}
use mindengage_lms.Exam.Store.{find_attempt, find_item, items_of}
use mindengage_lms.Exam.Submit.{auto_total, manual_total}
use mindengage_lms.Exam.ManualGrade.{ManualGradeInput, grade_item, grade_items}

-- What becomes of an item: the update for its question, if there is one.
abbrev pub regraded :
    {F : Type 0} → ℤ → String → Option (ManualGradeInput F) → ItemRow F → ItemRow F
regraded now by none it = it
regraded now by (some u) it = record it {
  manual_points = u.manual_points;
  comment = some u.comment;
  graded_by = some by;
  graded_at = some now;
}

abbrev pub regraded_item :
    {F : Type 0}
    → ℤ
    → String
    → Option (ManualGradeInput F)
    → Option (ItemRow F)
    → Option (ItemRow F)
regraded_item now by u none = none
regraded_item now by u (some it) = some (regraded now by u it)

module _ {F : Type 0} where
  -- The items of other attempts.
  items_of-grade_item :
      (now : ℤ) (id k : String) (u : ManualGradeInput F) (by j : String) (items : List (ItemRow F))
      → id ≢ j
      → items_of j (grade_item now id k u by items) ≡ items_of j items
  unfolding items_of grade_item
  items_of-grade_item now id k u by j [] ne = refl
  items_of-grade_item now id k u by j (it ∷ items) ne = ground (
    arith,
    ne,
    str_eq_cases it.attempt_id id,
    str_eq_cases it.attempt_id j,
    items_of-grade_item now id k u by j items ne,
  )

  pub items_of-grade_items :
      (now : ℤ) (id by j : String) (updates : GoMap (ManualGradeInput F)) (items : List (ItemRow F))
      → id ≢ j
      → items_of j (grade_items now id by updates items) ≡ items_of j items
  unfolding grade_items
  items_of-grade_items now id by j [] items ne = refl
  items_of-grade_items now id by j ((k, u) ∷ updates) items ne =
      items_of-grade_items now id by j updates (grade_item now id k u by items) ne
      ∙ items_of-grade_item now id k u by j items ne

module _ {F : Type 0} ⦃fl : Float64 F⦄ where
  -- What manual grades that are not final do to the store: their items, the attempt, and the rest.
  pub record ManuallyGraded (now : ℤ) (id by : String) (updates : GoMap (ManualGradeInput F))
      (r : AttemptRow F) (db db' : Db F) : Type 0 where
    pub items :
        (q : String)
        → find_item id q db'.items
          ≡ regraded_item now by (lookup q updates) (find_item id q db.items)
    pub other_items : (j : String) → id ≢ j → items_of j db'.items ≡ items_of j db.items
    pub stored :
        find_attempt id db'.attempts
        ≡ some (record r {
          auto_score = auto_total id db.items;
          manual_score = manual_total id db'.items;
          score = fl.add (auto_total id db.items) (manual_total id db'.items);
        })
    pub others : (j : String) → id ≢ j → find_attempt j db'.attempts ≡ find_attempt j db.attempts
    pub exams : db'.exams ≡ db.exams
    pub events : db'.events ≡ db.events
