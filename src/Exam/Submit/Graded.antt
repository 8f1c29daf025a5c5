-- ===== src/Exam/Submit/Graded.antt =====
-- The grading loop of Submit of internal/exam/store_sql.go: the item of each question.
use mindengage_lms.Prelude.{
  String, ◌≡◌, refl, ◌∙◌, Option, none, some, List, [], ◌∷◌, arith, str_eq, str_eq_cases,
  str_eq_refl, if◌then◌else◌, subst, lookup, Result, ok, err, Option-cases, inl, inr,
}
use mindengage_lms.Float.{Float64, zero_f}
use mindengage_lms.Grading.Types.{Q, Grade, GradeResult, GradeError}
use mindengage_lms.Exam.Models.{Question, ItemRow, Responses, Value}
use mindengage_lms.Exam.Store.{find_item}
use mindengage_lms.Exam.Attempts.{Env}
use mindengage_lms.Exam.Submit.{
  new_item, upsert_item, points_of, auto_points, grade_questions, needs_manual_for_type,
}
use mindengage_lms.Exam.Submit.Items.{Fresh, DistinctIds}

-- The manual points that an item had.
abbrev pub manual_of : {F : Type 0} ⦃fl : Float64 F⦄ → Option (ItemRow F) → F
manual_of none = zero_f
manual_of (some it) = it.manual_points

module _ {F : Type 0} ⦃fl : Float64 F⦄ where
  abbrev pub points_in : Result GradeError (GradeResult F) → F
  points_in (ok res) = res.auto_points
  points_in (err e) = zero_f

  abbrev pub earned_by : Grade F → Question F → Option (Value F) → F
  earned_by grade q none = zero_f
  earned_by grade q (some v) =
      points_in
        (grade (record { q_type = q.q_type; points = q.points; answer_key = q.answer_key }) v)

  -- What a question earns: the points of its graded response, none without one.
  abbrev pub earned : Grade F → Question F → Responses F → F
  earned grade q responses = earned_by grade q (lookup q.id responses)

  points_of-eq-points_in : (m : Result GradeError (GradeResult F)) → points_of m ≡ points_in m
  unfolding points_of
  points_of-eq-points_in (ok res) = refl
  points_of-eq-points_in (err e) = refl

  pub auto_points-eq-earned :
      (grade : Grade F) (q : Question F) (responses : Responses F)
      → auto_points grade q responses ≡ earned grade q responses
  unfolding auto_points
  auto_points-eq-earned grade q responses = elim (Option-cases (lookup q.id responses)) [
    | inl e ↦ rw (auto_points, e) refl
    | inr (v, e) ↦
        let asked : Q F = record {
          q_type = q.q_type;
          points = q.points;
          answer_key = q.answer_key;
        } in
        rw (auto_points, e) (points_of-eq-points_in (grade asked v))
  ]

  -- What the upsert makes of an old row.
  abbrev merged : ItemRow F → Option (ItemRow F) → ItemRow F
  merged new none = new
  merged new (some it) = record it {
    q_type = new.q_type;
    points_max = new.points_max;
    auto_points = new.auto_points;
    needs_manual = new.needs_manual;
    response_json = new.response_json;
  }

  find_item-upsert_item :
      (new : ItemRow F) (qid : String) (items : List (ItemRow F))
      → find_item new.attempt_id qid (upsert_item new items) ≡ (
          if str_eq new.question_id qid
          then some (merged new (find_item new.attempt_id qid items))
          else find_item new.attempt_id qid items)
  unfolding find_item upsert_item
  find_item-upsert_item new qid [] = ground (arith, str_eq_refl new.attempt_id)
  find_item-upsert_item new qid (it ∷ items) = ground (
    arith,
    str_eq_refl new.attempt_id,
    str_eq_cases it.question_id new.question_id,
    str_eq_cases it.question_id qid,
    str_eq_cases new.question_id qid,
    find_item-upsert_item new qid items,
  )

  -- The item of a question after grading, over the one before.
  pub record ItemFor (env : Env F) (q : Question F) (responses : Responses F)
      (old : Option (ItemRow F)) (it : ItemRow F) : Type 0 where
    pub auto : it.auto_points ≡ earned env.grade q responses
    pub max : it.points_max ≡ q.points
    pub manual : it.manual_points ≡ manual_of old
    pub review : it.needs_manual ≡ needs_manual_for_type env.unicode q.q_type q.answer_key

  module _ (env : Env F) (id : String) (responses : Responses F) where
    grade_questions-Fresh :
        (qid : String) (qs : List (Question F)) (total : F) (items : List (ItemRow F))
        → Fresh qid qs
        → find_item id qid (grade_questions env id responses qs total items).1
          ≡ find_item id qid items
    unfolding grade_questions
    grade_questions-Fresh qid [] total items f = refl
    grade_questions-Fresh qid (q ∷ qs) total items f =
        grade_questions-Fresh qid qs _ _ f.1
        ∙ ground (
          arith,
          find_item-upsert_item (new_item env id q responses) qid items,
          str_eq_cases q.id qid,
          f.0,
        )

    -- Each question has its item.
    abbrev pub AllItems : List (Question F) → List (ItemRow F) → List (ItemRow F) → Type 0
    AllItems [] items items' = Unit
    AllItems (q ∷ qs) items items' =
        ((it : ItemRow F) × (find_item id q.id items' ≡ some it)
          × ItemFor env q responses (find_item id q.id items) it)
        × AllItems qs items items'

    AllItems-shift :
        (q : Question F) (qs : List (Question F)) (items items' : List (ItemRow F))
        → Fresh q.id qs
        → AllItems qs (upsert_item (new_item env id q responses) items) items'
        → AllItems qs items items'
    unfolding new_item
    AllItems-shift q [] items items' f h = tt
    AllItems-shift q (p ∷ qs) items items' f h =
        let e : find_item id p.id (upsert_item (new_item env id q responses) items)
            ≡ find_item id p.id items =
          ground (
            arith,
            find_item-upsert_item (new_item env id q responses) p.id items,
            str_eq_cases q.id p.id,
            f.0,
          ) in
        (
          (h.0.0, h.0.1, subst (λ o. ItemFor env p responses o h.0.0) e h.0.2),
          AllItems-shift q qs items items' f.1 h.1,
        )

    pub grade_questions-AllItems :
        (qs : List (Question F)) (total : F) (items : List (ItemRow F))
        → DistinctIds qs
        → AllItems qs items (grade_questions env id responses qs total items).1
    unfolding grade_questions
    grade_questions-AllItems [] total items d = tt
    grade_questions-AllItems (q ∷ qs) total items d = (
      (
        merged (new_item env id q responses) (find_item id q.id items),
        grade_questions-Fresh q.id qs _ _ d.0
            ∙ ground (
              arith,
              find_item-upsert_item (new_item env id q responses) q.id items,
              str_eq_refl q.id,
            ),
        item_for (find_item id q.id items),
      ),
      AllItems-shift q qs items _ d.0 (grade_questions-AllItems qs _ _ d.1),
    )
      where
        item_for :
            (o : Option (ItemRow F))
            → ItemFor env q responses o (merged (new_item env id q responses) o)
        item_for none = record {
          auto = auto_points-eq-earned env.grade q responses;
          max = refl;
          manual = refl;
          review = refl;
        }
        item_for (some it) = record {
          auto = auto_points-eq-earned env.grade q responses;
          max = refl;
          manual = refl;
          review = refl;
        }
