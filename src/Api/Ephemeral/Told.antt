-- ===== src/Api/Ephemeral/Told.antt =====
-- internal/api/http/offerings_link.go: what the loop over the questions tells of them and counts, against
-- descriptions of both.
use mindengage_lms.Prelude.{
  ℕ, ◌+◌, ℤ, String, Bool, true, false, ◌&&◌, ◌≡◌, refl, ap, ◌∙◌, inl, inr, Option, none, some,
  List, [], ◌∷◌, ◌++◌, All, lookup, Result, ok, err, Option-cases, str_eq, str_eq_refl,
  str_eq_cases, if◌then◌else◌, arith,
}
use mindengage_lms.Strings.{Unicode}
use mindengage_lms.Float.{Float64, zero_f}
use mindengage_lms.Grading.Types.{
  Q, Grade, GradeResult, GradeError, response_must_be_string, response_must_be_strings,
  response_must_be_bytes_or_path, Feedback,
}
use mindengage_lms.Exam.Models.{Question, Value, null, Responses}
use mindengage_lms.Api.Normalize.{Texts, normalize_for_type, bucket_keys}
use mindengage_lms.Api.Ephemeral.{
  ItemResult, EphemeralGradeResp, StatRow, is_counter, bump_ephemeral, bump_keys, is_full, add_item,
  item_result, result_of, response_to, norm_response, grade_question, counters_of, grade_loop,
}

swap : (a b c : ℕ) → a + (b + c) ≡ b + a + c
swap a b c = omega arith

-- How often a text is among some.
abbrev pub occurrences : String → List String → ℕ
occurrences k [] = 0
occurrences k (j ∷ js) = (if str_eq j k then 1 else 0) + occurrences k js

module _ {F : Type 0} ⦃fl : Float64 F⦄ where
  -- The count of a counter; one without a row has counted nothing.
  abbrev pub count_of : (off qid bucket : String) → List (StatRow F) → ℕ
  count_of off qid bucket [] = 0
  count_of off qid bucket (row ∷ rows) =
      if is_counter off qid bucket row then row.count else count_of off qid bucket rows

  -- One bump adds one to its own counter, and nothing to any other.
  count_of-bump_ephemeral :
      (now : ℤ) (off qid k j bucket : String) (correct : Bool) (auto max : F)
      (rows : List (StatRow F))
      → count_of off j bucket (bump_ephemeral now off qid k correct auto max rows)
        ≡ (if str_eq qid j && str_eq k bucket then 1 else 0) + count_of off j bucket rows
  unfolding bump_ephemeral
  count_of-bump_ephemeral now off qid k j bucket correct auto max [] =
      ground (str_eq_refl off, arith)
  count_of-bump_ephemeral now off qid k j bucket correct auto max (row ∷ rows) = ground (
    count_of-bump_ephemeral now off qid k j bucket correct auto max rows,
    str_eq_cases row.question_id qid,
    str_eq_cases row.question_id j,
    str_eq_cases qid j,
    str_eq_cases row.bucket k,
    str_eq_cases row.bucket bucket,
    str_eq_cases k bucket,
    arith,
  )

  count_of-bump_keys :
      (now : ℤ) (off qid j bucket : String) (correct : Bool) (auto max : F) (ks : List String)
      (rows : List (StatRow F))
      → count_of off j bucket (bump_keys now off qid correct auto max ks rows)
        ≡ (if str_eq qid j then occurrences bucket ks else 0) + count_of off j bucket rows
  unfolding bump_keys
  count_of-bump_keys now off qid j bucket correct auto max [] rows = ground arith
  count_of-bump_keys now off qid j bucket correct auto max (k ∷ ks) rows = ground (
    count_of-bump_keys now off qid j bucket correct auto max ks
        (bump_ephemeral now off qid k correct auto max rows),
    count_of-bump_ephemeral now off qid k j bucket correct auto max rows,
    arith,
  )

  -- The sum of some points, from a first number.
  abbrev pub sum_points : F → List (ItemResult F) → F
  sum_points total [] = total
  sum_points total (item ∷ items) = sum_points (fl.add total item.points) items

  abbrev pub sum_max : F → List (ItemResult F) → F
  sum_max total [] = total
  sum_max total (item ∷ items) = sum_max (fl.add total item.points_max) items

  -- What is told of a graded response, none of it but the need of a review beside an error.
  abbrev pub points_told : Result GradeError (GradeResult F) → F
  points_told (ok res) = res.auto_points
  points_told (err e) = zero_f

  abbrev pub review_told : Result GradeError (GradeResult F) → Bool
  review_told (ok res) = res.needs_manual
  review_told (err response_must_be_bytes_or_path) = true
  review_told (err response_must_be_string) = false
  review_told (err response_must_be_strings) = false

  abbrev pub feedback_told : Result GradeError (GradeResult F) → List Feedback
  feedback_told (ok res) = res.feedback
  feedback_told (err e) = []

  abbrev pub item_told :
      (show_answers : Bool) → Question F → Result GradeError (GradeResult F) → ItemResult F
  item_told show_answers q m = record {
    question_id = q.id;
    points = points_told m;
    points_max = q.points;
    needs_manual = review_told m;
    feedback = feedback_told m;
    correct = fl.lt zero_f q.points && fl.le q.points (points_told m);
    correct_answer = if show_answers then q.answer_key else [];
  }

  abbrev pub asked : Question F → Q F
  asked q = record { q_type = q.q_type; points = q.points; answer_key = q.answer_key }

  item_result-eq-item_told :
      (show_answers : Bool) (q : Question F) (m : Result GradeError (GradeResult F))
      → item_result show_answers q (result_of (asked q) m) ≡ item_told show_answers q m
  unfolding item_result result_of
  item_result-eq-item_told show_answers q (ok res) = refl
  item_result-eq-item_told show_answers q (err response_must_be_bytes_or_path) = refl
  item_result-eq-item_told show_answers q (err response_must_be_string) = refl
  item_result-eq-item_told show_answers q (err response_must_be_strings) = refl

  abbrev pub value_or_null : Option (Value F) → Value F
  value_or_null none = null
  value_or_null (some v) = v

  response_to-eq-value_or_null :
      (responses : Responses F) (id : String)
      → response_to responses id ≡ value_or_null (lookup id responses)
  response_to-eq-value_or_null responses id = elim (Option-cases (lookup id responses)) [
    | inl e ↦ rw (response_to, e) refl
    | inr (v, e) ↦ rw (response_to, e) refl
  ]

  append_assoc :
      (xs : List (ItemResult F)) (y : ItemResult F) (ys : List (ItemResult F))
      → (xs ++ y ∷ []) ++ ys ≡ xs ++ y ∷ ys
  append_assoc [] y ys = refl
  append_assoc (x ∷ xs) y ys = ap (λ zs. x ∷ zs) (append_assoc xs y ys)

  append_nil : (xs : List (ItemResult F)) → xs ≡ xs ++ []
  append_nil [] = refl
  append_nil (x ∷ xs) = ap (λ zs. x ∷ zs) (append_nil xs)

module _ {F : Type 0} ⦃fl : Float64 F⦄ (u : Unicode) (texts : Texts F) (grade : Grade F)
    (show_answers : Bool) (responses : Responses F) where
  -- The item of each question, in the order of the exam.
  abbrev pub items_for : List (Question F) → List (ItemResult F)
  items_for [] = []
  items_for (q ∷ qs) =
      item_result show_answers q (grade_question u texts grade responses q) ∷ items_for qs

  -- How much the responses add to the counter of a bucket of a question: each question of that id adds
  -- one for all responses, and one for each time that its response falls into the bucket.
  abbrev pub added : (qid bucket : String) → List (Question F) → ℕ
  added qid bucket [] = 0
  added qid bucket (q ∷ qs) =
      (if str_eq q.id qid then occurrences bucket (counters_of u texts grade responses q) else 0)
      + added qid bucket qs

  -- The response to a question, null where there is none, as its type of question expects it.
  abbrev pub normalized : Question F → Value F
  normalized q = normalize_for_type u texts q.q_type (value_or_null (lookup q.id responses))

  -- The items: the normalized responses, graded.
  abbrev pub items_told : List (Question F) → List (ItemResult F)
  items_told [] = []
  items_told (q ∷ qs) = item_told show_answers q (grade (asked q) (normalized q)) ∷ items_told qs

  pub items_for-eq-items_told : (qs : List (Question F)) → items_for qs ≡ items_told qs
  unfolding grade_question norm_response
  items_for-eq-items_told [] = refl
  items_for-eq-items_told (q ∷ qs) =
      let v = response_to responses q.id in
      ap (λ items. item_result show_answers q (grade_question u texts grade responses q) ∷ items)
        (items_for-eq-items_told qs)
      ∙ ap (λ item. item ∷ items_told qs)
          (item_result-eq-item_told show_answers q
              (grade (asked q) (normalize_for_type u texts q.q_type v))
            ∙ ap
                (λ w.
                  item_told show_answers q
                    (grade (asked q) (normalize_for_type u texts q.q_type w)))
                (response_to-eq-value_or_null responses q.id))

  -- How much the responses add to the counter of a bucket of a question: each question of that id adds
  -- one for the bucket of all responses, and one for each bucket of its normalized response.
  abbrev pub counted : (qid bucket : String) → List (Question F) → ℕ
  counted qid bucket [] = 0
  counted qid bucket (q ∷ qs) =
      (if str_eq q.id qid
        then (if str_eq "*" bucket then 1 else 0)
          + occurrences bucket (bucket_keys u q.q_type (normalized q))
        else 0)
      + counted qid bucket qs

  pub added-eq-counted :
      (qid bucket : String) (qs : List (Question F)) → added qid bucket qs ≡ counted qid bucket qs
  unfolding counters_of norm_response
  added-eq-counted qid bucket [] = refl
  added-eq-counted qid bucket (q ∷ qs) =
      ap
        (λ n.
          (if str_eq q.id qid
            then occurrences bucket (counters_of u texts grade responses q)
            else 0)
          + n)
        (added-eq-counted qid bucket qs)
      ∙ ap
          (λ w.
            (if str_eq q.id qid
              then (if str_eq "*" bucket then 1 else 0)
                + occurrences bucket
                    (bucket_keys u q.q_type (normalize_for_type u texts q.q_type w))
              else 0)
            + counted qid bucket qs)
          (response_to-eq-value_or_null responses q.id)

  pub grade_loop-count :
      (now : ℤ) (off j bucket : String) (qs : List (Question F)) (out : EphemeralGradeResp F)
      (rows : List (StatRow F))
      → count_of off j bucket
          (grade_loop u texts grade now off show_answers responses qs out rows).1
        ≡ added j bucket qs + count_of off j bucket rows
  unfolding grade_loop
  grade_loop-count now off j bucket [] out rows = omega arith
  grade_loop-count now off j bucket (q ∷ qs) out rows =
      let res = grade_question u texts grade responses q in
      let ks = counters_of u texts grade responses q in
      grade_loop-count now off j bucket qs (add_item out (item_result show_answers q res))
        (bump_keys now off q.id (is_full q res) res.auto_points q.points ks rows)
      ∙ (ap (λ n. added j bucket qs + n)
            (count_of-bump_keys now off q.id j bucket (is_full q res) res.auto_points q.points ks
              rows)
          ∙ swap (added j bucket qs) (if str_eq q.id j then occurrences bucket ks else 0)
              (count_of off j bucket rows))

  pub grade_loop-items :
      (now : ℤ) (off : String) (qs : List (Question F)) (out : EphemeralGradeResp F)
      (rows : List (StatRow F))
      → (grade_loop u texts grade now off show_answers responses qs out rows).0 ≡ record {
        score = sum_points out.score (items_for qs);
        score_max = sum_max out.score_max (items_for qs);
        items = out.items ++ items_for qs;
      }
  unfolding grade_loop item_result
  grade_loop-items now off [] out rows =
      ap (λ items. record out { items = items }) (append_nil out.items)
  grade_loop-items now off (q ∷ qs) out rows =
      let res = grade_question u texts grade responses q in
      let item = item_result show_answers q res in
      let rows' =
        bump_keys now off q.id (is_full q res) res.auto_points q.points
          (counters_of u texts grade responses q) rows in
      grade_loop-items now off qs (add_item out item) rows'
      ∙ ap
          (λ items. record {
            score = sum_points (fl.add out.score item.points) (items_for qs);
            score_max = sum_max (fl.add out.score_max item.points_max) (items_for qs);
            items = items;
          })
          (append_assoc out.items item (items_for qs))

  pub items_for-hidden :
      (qs : List (Question F))
      → show_answers ≡ false
      → All (λ (item : ItemResult F). item.correct_answer ≡ []) (items_for qs)
  unfolding item_result
  items_for-hidden [] h = tt
  items_for-hidden (q ∷ qs) h = (rw h refl, items_for-hidden qs h)
