-- ===== src/Api/Ephemeral/Counted.antt =====
-- internal/api/http/offerings_link.go: what is graded by a link, and what is counted.
use mindengage_lms.Prelude.{
  ℕ, ◌+◌, ℤ, String, Bool, true, false, not, ◌||◌, ◌≡◌, refl, ap, ◌∙◌, sym, subst, inl, inr, Option,
  none, some, List, [], All, Result, ok, err, Option-cases, Bool-cases, str_eq, str_eq→eq,
  if◌then◌else◌,
}
use mindengage_lms.Strings.{Unicode, trim_space, is_empty}
use mindengage_lms.Float.{Float64, zero_f}
use mindengage_lms.Grading.Types.{Grade}
use mindengage_lms.Exam.Models.{Question, Exam, Responses, Db, StoreError}
use mindengage_lms.Exam.Store.{get_exam_admin}
use mindengage_lms.Platform.Http.{Request, get, Outcome, refused, served}
use mindengage_lms.Api.Catalog.{OfferingRow, Catalog}
use mindengage_lms.Api.Ephemeral.Told.{
  items_told, counted, count_of, sum_points, sum_max, grade_loop-count, grade_loop-items,
  items_for-hidden, items_for-eq-items_told, added-eq-counted,
}
use mindengage_lms.Api.Normalize.{Texts}
use mindengage_lms.Api.Ephemeral.{
  ItemResult, EphemeralGradeResp, StatRow, grade_loop, stored_token, find_offering, link_refusal,
  is_early, is_late, open_offering, graded_exam, graded_body, no_items, grade_ephemeral,
}

both : (a b : Bool) → not a || not b ≡ false → (a ≡ true) × (b ≡ true)
both true true h = (refl, refl)
both true false h = cc
both false b h = cc

-- The link of an offering is open: it is visible by link, the token is its own, and the time is neither
-- before its start nor after its end.
pub record IsOpen (now : ℤ) (token : String) (o : OfferingRow) : Type 0 where
  pub visible : o.visibility ≡ "link"
  pub own_token : stored_token o ≡ token
  pub started : is_early now o.start_at ≡ false
  pub not_ended : is_late now o.end_at ≡ false

link_refusal-IsOpen :
    (now : ℤ) (token : String) (o : OfferingRow)
    → link_refusal now token o ≡ none
    → IsOpen now token o
unfolding link_refusal
link_refusal-IsOpen now token o h =
    let closed = not (str_eq o.visibility "link") || not (str_eq (stored_token o) token) in
    elim (Bool-cases closed) [
      | inl e ↦ absurd (cc (rw (link_refusal, e) at h))
      | inr e ↦ elim (Bool-cases (is_early now o.start_at)) [
        | inl f ↦ absurd (cc (rw (link_refusal, e, f) at h))
        | inr f ↦ elim (Bool-cases (is_late now o.end_at)) [
          | inl g ↦ absurd (cc (rw (link_refusal, e, f, g) at h))
          | inr g ↦
              let (v, t) = both _ _ e in
              record {
                visible = str_eq→eq o.visibility "link" v;
                own_token = str_eq→eq (stored_token o) token t;
                started = f;
                not_ended = g;
              }
        ]
      ]
    ]

or-eq-false : (a b : Bool) → a || b ≡ false → (a ≡ false) × (b ≡ false)
or-eq-false false b h = (refl, h)
or-eq-false true b h = cc

module _ {F : Type 0} where
  -- A guard that was passed, where an answer is given.
  passed :
      (b : Bool) (status : ℕ) (message : String)
      (k : Outcome (EphemeralGradeResp F) × List (StatRow F)) (out : EphemeralGradeResp F)
      (rows rows' : List (StatRow F))
      → (if b then (refused status message, rows) else k) ≡ (served out, rows')
      → (b ≡ false) × (k ≡ (served out, rows'))
  passed true status message k out rows rows' h = absurd (cc (ap (λ p. p.0) h))
  passed false status message k out rows rows' h = (refl, h)

  served_inj :
      {out out' : EphemeralGradeResp F} {rows rows' : List (StatRow F)}
      → ◌≡◌ {A = Outcome (EphemeralGradeResp F) × List (StatRow F)}
          (served out, rows)
          (served out', rows')
      → (out ≡ out') × (rows ≡ rows')
  served_inj h = (inside (ap (λ p. p.0) h), ap (λ p. p.1) h)
    where
      inside :
          {out out' : EphemeralGradeResp F}
          → ◌≡◌ {A = Outcome (EphemeralGradeResp F)} (served out) (served out')
          → out ≡ out'
      inside h = cc

module _ {F : Type 0} ⦃fl : Float64 F⦄ (u : Unicode) (texts : Texts F) (grade : Grade F) where
  graded_body-eq-served :
      (now : ℤ) (off : String) (show_answers : Bool) (qs : List (Question F))
      (body : Option (Responses F)) (rows rows' : List (StatRow F)) {out : EphemeralGradeResp F}
      → graded_body u texts grade now off show_answers qs body rows ≡ (served out, rows')
      → (responses : Responses F) × (body ≡ some responses)
        × ((grade_loop u texts grade now off show_answers responses qs no_items rows).0 ≡ out)
        × ((grade_loop u texts grade now off show_answers responses qs no_items rows).1 ≡ rows')
  graded_body-eq-served now off show_answers qs none rows rows' h = absurd (cc (ap (λ p. p.0) h))
  graded_body-eq-served now off show_answers qs (some responses) rows rows' h =
      let (p, q) = served_inj h in (responses, refl, p, q)

  graded_exam-eq-served :
      (now : ℤ) (off : String) (show_answers : Bool) (m : Result StoreError (Exam F))
      (body : Option (Responses F)) (rows rows' : List (StatRow F)) {out : EphemeralGradeResp F}
      → graded_exam u texts grade now off show_answers m body rows ≡ (served out, rows')
      → (ex : Exam F) × (m ≡ ok ex)
        × (graded_body u texts grade now off show_answers ex.questions body rows
            ≡ (served out, rows'))
  graded_exam-eq-served now off show_answers (ok ex) body rows rows' h = (ex, refl, h)
  graded_exam-eq-served now off show_answers (err e) body rows rows' h =
      absurd (cc (ap (λ p. p.0) h))

  open_offering-eq-served :
      (now : ℤ) (off token : String) (show_answers : Bool) (db : Db F) (found : Option OfferingRow)
      (body : Option (Responses F)) (rows rows' : List (StatRow F)) {out : EphemeralGradeResp F}
      → open_offering u texts grade now off token show_answers db found body rows
        ≡ (served out, rows')
      → (o : OfferingRow) × (found ≡ some o)
        × IsOpen now token o
        × (ex : Exam F) × (get_exam_admin o.exam_id db ≡ ok ex)
        × (graded_body u texts grade now off show_answers ex.questions body rows
            ≡ (served out, rows'))
  open_offering-eq-served now off token show_answers db none body rows rows' h =
      absurd (cc (ap (λ p. p.0) h))
  open_offering-eq-served now off token show_answers db (some o) body rows rows' {out} h =
      elim (Option-cases (link_refusal now token o)) [
        | inr (message, e) ↦ absurd (cc (ap (λ p. p.0) (rw (open_offering, e) at h)))
        | inl e ↦
            let (ex, p, q) =
              graded_exam-eq-served now off show_answers (get_exam_admin o.exam_id db) body rows
                rows' (rw (open_offering, e) at h) in
            (o, refl, link_refusal-IsOpen now token o e, ex, p, q)
      ]

module _ {F : Type 0} ⦃fl : Float64 F⦄ (u : Unicode) (texts : Texts F) (grade : Grade F) (now : ℤ)
    (r : Request) (db : Catalog F) where
  -- What stands behind a graded answer.
  pub record IsGraded (body : Option (Responses F)) (rows : List (StatRow F))
      (out : EphemeralGradeResp F) (rows' : List (StatRow F)) : Type 0 where
    pub offering : OfferingRow
    pub found : find_offering (get "offeringID" r.params) db.offerings ≡ some offering
    pub is_open : IsOpen now (trim_space (get "access_token" r.query)) offering
    pub has_token : is_empty (trim_space (get "access_token" r.query)) ≡ false
    pub exam : Exam F
    pub is_exam : get_exam_admin offering.exam_id db.store ≡ ok exam
    pub responses : Responses F
    pub is_body : body ≡ some responses
    pub items :
        out.items
        ≡ items_told u texts grade
            (str_eq (get "show_answers" r.query) "1")
            responses
            exam.questions
    pub score : out.score ≡ sum_points zero_f out.items
    pub score_max : out.score_max ≡ sum_max zero_f out.items
    pub hidden :
        str_eq (get "show_answers" r.query) "1" ≡ false
        → All (λ (item : ItemResult F). item.correct_answer ≡ []) out.items
    pub counted :
        (qid bucket : String)
        → count_of (get "offeringID" r.params) qid bucket rows'
          ≡ counted u texts grade
              (str_eq (get "show_answers" r.query) "1")
              responses
              qid
              bucket
              exam.questions
            + count_of (get "offeringID" r.params) qid bucket rows

  -- An answer is given only through the open link of the offering, whose token the request has. It has
  -- one item for each question of the exam, in order, with the grading of the normalized response (no
  -- points on an error), the sums of their points, and no correct answers unless the request asks for
  -- them. Each counter of the offering grows by one for each question of its id if it counts all
  -- responses, and by one for each time that the normalized response falls into its bucket.
  pub grade_ephemeral-IsGraded :
      (body : Option (Responses F)) (rows rows' : List (StatRow F)) {out : EphemeralGradeResp F}
      → grade_ephemeral u texts grade now r body db rows ≡ (served out, rows')
      → IsGraded body rows out rows'
  unfolding grade_ephemeral
  grade_ephemeral-IsGraded body rows rows' {out} h =
      let off = get "offeringID" r.params in
      let token = trim_space (get "access_token" r.query) in
      let show_answers = str_eq (get "show_answers" r.query) "1" in
      let (e, h1) = passed (is_empty off || is_empty token) 400 "bad request" _ _ rows rows' h in
      let (o, f, is_open, ex, is_exam, h3) =
        open_offering-eq-served u texts grade now off token show_answers db.store
          (find_offering off db.offerings) body rows rows' h1 in
      let (responses, is_body, out_is, rows_are) =
        graded_body-eq-served u texts grade now off show_answers ex.questions body rows rows' h3 in
      let items =
        grade_loop-items u texts grade show_answers responses now off ex.questions no_items rows in
      let same : out ≡ _ = sym out_is ∙ items in
      let told = items_for-eq-items_told u texts grade show_answers responses ex.questions in
      record {
        offering = o;
        found = f;
        is_open = is_open;
        has_token = (or-eq-false (is_empty off) (is_empty token) e).1;
        exam = ex;
        is_exam = is_exam;
        responses = responses;
        is_body = is_body;
        items = ap (λ x. x.items) same ∙ told;
        score =
            ap (λ x. x.score) same ∙ ap (λ xs. sum_points zero_f xs) (sym (ap (λ x. x.items) same));
        score_max =
            ap (λ x. x.score_max) same
            ∙ ap (λ xs. sum_max zero_f xs) (sym (ap (λ x. x.items) same));
        hidden = λ h.
            subst (All (λ (item : ItemResult F). item.correct_answer ≡ []))
              (sym (ap (λ x. x.items) same))
              (items_for-hidden u texts grade show_answers responses ex.questions h);
        counted = λ qid bucket.
            ap (λ xs. count_of off qid bucket xs) (sym rows_are)
            ∙ (grade_loop-count u texts grade show_answers responses now off qid bucket ex.questions
                  no_items rows
                ∙ ap (λ n. n + count_of off qid bucket rows)
                    (added-eq-counted u texts grade show_answers responses qid bucket
                      ex.questions));
      }
