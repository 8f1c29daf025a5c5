-- ===== src/Exam/Submit/Items.antt =====
-- The upserts of Submit of internal/exam/store_sql.go: grading again changes nothing.
use mindengage_lms.Prelude.{
  String, ◌≡◌, ◌≢◌, refl, List, [], ◌∷◌, arith, str_eq_cases, str_eq_refl, Bool-cases, inl, inr,
}
use mindengage_lms.Float.{Float64}
use mindengage_lms.Exam.Models.{Question, ItemRow, Responses}
use mindengage_lms.Exam.Store.{is_item}
use mindengage_lms.Exam.Attempts.{Env}
use mindengage_lms.Exam.Submit.{new_item, upsert_item, grade_questions}

module _ {F : Type 0} ⦃fl : Float64 F⦄ where
  -- The upsert of `new` would change nothing.
  abbrev Settled : ItemRow F → List (ItemRow F) → Type 0
  Settled new items = upsert_item new items ≡ items

  upsert_item-Settled :
      (new : ItemRow F) (items : List (ItemRow F)) → Settled new (upsert_item new items)
  unfolding upsert_item
  upsert_item-Settled new [] =
      ground (arith, str_eq_refl new.attempt_id, str_eq_refl new.question_id)
  upsert_item-Settled new (it ∷ items) = ground (arith, upsert_item-Settled new items)

  cons_tail : {x y : ItemRow F} {xs ys : List (ItemRow F)} → x ∷ xs ≡ y ∷ ys → xs ≡ ys
  cons_tail h = cc

  upsert_item-keeps_Settled :
      (a b : ItemRow F) (items : List (ItemRow F))
      → a.question_id ≢ b.question_id
      → Settled a items
      → Settled a (upsert_item b items)
  unfolding upsert_item
  upsert_item-keeps_Settled a b [] n h = cc
  upsert_item-keeps_Settled a b (it ∷ items) n h =
      elim (Bool-cases (is_item a.attempt_id a.question_id it)) [
        | inl p ↦ ground (
          arith,
          str_eq_cases it.question_id a.question_id,
          str_eq_cases it.question_id b.question_id,
        )
        | inr p ↦
            (let tail : Settled a items = cons_tail (rw p at h) in
              ground (arith, upsert_item-keeps_Settled a b items n tail))
      ]

-- The ids of the questions are distinct.
abbrev pub Fresh : {F : Type 0} → String → List (Question F) → Type 0
Fresh id [] = Unit
Fresh id (q ∷ qs) = (id ≢ q.id) × Fresh id qs

abbrev pub DistinctIds : {F : Type 0} → List (Question F) → Type 0
DistinctIds [] = Unit
DistinctIds (q ∷ qs) = Fresh q.id qs × DistinctIds qs

module _ {F : Type 0} ⦃fl : Float64 F⦄ (env : Env F) (id : String) (responses : Responses F) where
  abbrev items_after : List (Question F) → F → List (ItemRow F) → List (ItemRow F)
  items_after qs total items = (grade_questions env id responses qs total items).1

  grade_questions-keeps_Settled :
      (q : Question F) (qs : List (Question F)) (total : F) (items : List (ItemRow F))
      → Fresh q.id qs
      → Settled (new_item env id q responses) items
      → Settled (new_item env id q responses) (items_after qs total items)
  unfolding grade_questions
  grade_questions-keeps_Settled q [] total items f h = h
  grade_questions-keeps_Settled q (p ∷ qs) total items f h =
      grade_questions-keeps_Settled q qs _ _ f.1 (
        upsert_item-keeps_Settled (new_item env id q responses) (new_item env id p responses) items
          f.0 h)

  abbrev AllSettled : List (Question F) → List (ItemRow F) → Type 0
  AllSettled [] items = Unit
  AllSettled (q ∷ qs) items = Settled (new_item env id q responses) items × AllSettled qs items

  grade_questions-AllSettled :
      (qs : List (Question F)) (total : F) (items : List (ItemRow F))
      → DistinctIds qs
      → AllSettled qs (items_after qs total items)
  unfolding grade_questions
  grade_questions-AllSettled [] total items d = tt
  grade_questions-AllSettled (q ∷ qs) total items d = (
    grade_questions-keeps_Settled q qs _ _ d.0
        (upsert_item-Settled (new_item env id q responses) items),
    grade_questions-AllSettled qs _ _ d.1,
  )

  -- Over settled items the loop changes none, and its total does not depend on them.
  grade_questions_settled :
      (qs : List (Question F)) (total : F) (items items' : List (ItemRow F))
      → AllSettled qs items
      → grade_questions env id responses qs total items
        ≡ ((grade_questions env id responses qs total items').0, items)
  unfolding grade_questions
  grade_questions_settled [] total items items' h = refl
  grade_questions_settled (q ∷ qs) total items items' h =
      rw h.0 (grade_questions_settled qs _ items _ h.1)

  -- Grading the questions again, over the items that the first grading left, gives the same total
  -- and the same items. The questions have distinct ids.
  pub grade_questions_idem :
      (qs : List (Question F)) (total : F) (items : List (ItemRow F))
      → DistinctIds qs
      → grade_questions env id responses qs total (items_after qs total items)
        ≡ grade_questions env id responses qs total items
  grade_questions_idem qs total items d =
      grade_questions_settled qs total _ items (grade_questions-AllSettled qs total items d)
