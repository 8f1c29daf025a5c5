-- ===== src/Exam/Advance/Plan.antt =====
-- AdvanceModule of internal/exam/store_sql.go: the choice of the next module, and that the two
-- index expressions of the method stay in range.
use mindengage_lms.Prelude.{
  ℕ, suc, ◌+◌, ◌<◌, ℤ, pos, ltb_ℤ, String, false, ◌≡◌, ◌≢◌, refl, ap, sym, ◌∙◌, some, List, [], ◌∷◌,
  map, arith, leb, ◌==◌, ◌||◌, if◌then◌else◌, Option, Option-cases, Result-cases, Bool-cases, not,
  ◌&&◌, ◌⊎◌, length, get_elem?, get_elem?-in_range, get_elem?-out_of_range, length-map, inl, inr,
  ok, err, >>=-eq-ok, >>=-eq-err, fail_if-eq-ok, fail_if-eq-err, required, required-eq-ok,
  required-eq-err, ok_inj, subst,
}
use mindengage_lms.Strings.{trim_space, is_empty}
use mindengage_lms.Float.{Float64}
use mindengage_lms.Exam.Models.{
  Exam, AttemptRow, Db, StoreError, attempt_not_found, no_rows, bad_questions, no_modules,
  already_at_last_module, index_out_of_range,
}
use mindengage_lms.Exam.Policy.{
  ModuleInfo, extract_modules, extract_module_ids, extract_module_times, module_window_for,
}
use mindengage_lms.Exam.Routing.{Router, router_for_profile}
use mindengage_lms.Exam.Store.{find_exam, find_attempt, get_exam_admin}
use mindengage_lms.Exam.Attempts.{Env, or_limit, module_times}
use mindengage_lms.Exam.Advance.{
  NextModule, current_module, router_attempt, route, next_module, choose_next, advance_plan,
}

or_limit-length :
    (limit : ℤ) (ms : List ModuleInfo)
    → (length (map (λ (m : ModuleInfo). m.module_id) ms) == 0) ≡ false
    → length (or_limit limit (map (λ (m : ModuleInfo). m.time_limit_sec) ms))
      ≡ length (map (λ (m : ModuleInfo). m.module_id) ms)
or_limit-length limit [] h = cc
or_limit-length limit (m ∷ ms) h = ap suc (length-map _ ms ∙ sym (length-map _ ms))

module _ {F : Type 0} where
  -- Where the policy has modules, their times are as many as their ids.
  module_times-length :
      (ex : Exam F)
      → (length (extract_module_ids ex.policy_raw) == 0) ≡ false
      → length (module_times ex) ≡ length (extract_module_ids ex.policy_raw)
  unfolding module_times extract_module_ids extract_module_times
  module_times-length ex h = or_limit-length ex.time_limit_sec (extract_modules ex.policy_raw) h

  get_exam_admin-ne :
      (id : String) (db : Db F) {e : StoreError}
      → get_exam_admin id db ≡ err e
      → e ≢ index_out_of_range
  unfolding get_exam_admin
  get_exam_admin-ne id db h = elim (>>=-eq-err (required (find_exam id db.exams) no_rows) _ h) [
    | inl p ↦ λ q. cc ((required-eq-err (find_exam id db.exams) no_rows p).1)
    | inr (r, p, q) ↦ elim (>>=-eq-err (required r.questions_json bad_questions) _ q) [
      | inl s ↦ λ t. cc ((required-eq-err r.questions_json bad_questions s).1)
      | inr (qs, _, s) ↦ cc
    ]
  ]

module _ {F : Type 0} ⦃fl : Float64 F⦄ (env : Env F) where
  -- A module id is the answer of the exam's router, which is given the attempt and its points, or else
  -- the placeholder that the policy has at the index.
  abbrev pub IsRouted : AttemptRow F → Exam F → (current : String) → Option String → String → Type 0
  IsRouted r ex current placeholder c =
      (placeholder ≡ some c)
      ⊎ ((router : Router F) × (perf : F) × (reply : String) × (router_for_profile ex.profile
              env.routers
            ≡ some router)
          × (router ex (router_attempt r current) (record { raw_points = perf }) ≡ ok reply)
          × (c ≡ trim_space reply)
          × (is_empty c ≡ false))

  route-IsRouted :
      (r : AttemptRow F) (ex : Exam F) (current : String) (perf : F) (m : String)
      → IsRouted r ex current (some m) (route env r ex current perf m)
  unfolding route
  route-IsRouted r ex current perf m =
      elim (Option-cases (router_for_profile ex.profile env.routers)) [
        | inl e ↦
            let same : route env r ex current perf m ≡ m = rw (route, e) refl in
            inl (ap some (sym same))
        | inr (router, e) ↦
            elim (Result-cases
              (router ex (router_attempt r current) (record { raw_points = perf }))) [
                | inr (d, f) ↦
                    let same : route env r ex current perf m ≡ m = rw (route, e, f) refl in
                    inl (ap some (sym same))
                | inl (reply, f) ↦ elim (Bool-cases (is_empty (trim_space reply))) [
                  | inl g ↦
                      let same : route env r ex current perf m ≡ m = rw (route, e, f, g) refl in
                      inl (ap some (sym same))
                  | inr g ↦
                      let same : route env r ex current perf m ≡ trim_space reply =
                        rw (route, e, f, g) refl in
                      inr (
                        router,
                        perf,
                        reply,
                        e,
                        f,
                        same,
                        subst (λ c. is_empty c ≡ false) (sym same) g,
                      )
                ]
              ]
      ]

  -- The first index of the module's questions, 0 where it has none.
  abbrev pub start_of : Exam F → String → ℤ
  start_of ex m =
      if not (is_empty m) && (module_window_for ex m).has_any
      then pos (module_window_for ex m).first_idx
      else pos 0

  -- What choose_next has found at the next index.
  abbrev pub Chosen :
      AttemptRow F → Exam F → List ℤ → List String → ℕ × String → NextModule → Type 0
  Chosen r ex modules ids cur n =
      (t : ℤ) × IsRouted r ex cur.1 (get_elem? ids n.next_idx) n.module_id
      × (n.cursor ≡ start_of ex n.module_id)
      × (n.next_idx ≡ cur.0 + 1)
      × (n.next_idx < length ids)
      × (get_elem? modules n.next_idx ≡ some t)
      × (n.seconds ≡ (if ltb_ℤ (pos 0) t then t else pos 0))

  pub choose_next-Chosen :
      (r : AttemptRow F) (ex : Exam F) (modules : List ℤ) (ids : List String) (cur : ℕ × String)
      {n : NextModule}
      → choose_next env r ex modules ids cur ≡ ok n
      → Chosen r ex modules ids cur n
  unfolding choose_next next_module
  choose_next-Chosen r ex modules ids cur h =
      let (_, h1) = fail_if-eq-ok (length modules == 0 || length ids == 0) no_modules _ h in
      let (_, h2) = fail_if-eq-ok (leb (length modules) (cur.0 + 1)) already_at_last_module _ h1 in
      let (m, u, h3) = >>=-eq-ok (required (get_elem? ids (cur.0 + 1)) index_out_of_range) _ h2 in
      let (secs, v, h4) =
        >>=-eq-ok (required (get_elem? modules (cur.0 + 1)) index_out_of_range) _ h3 in
      subst (Chosen r ex modules ids cur) (ok_inj h4) (
        secs,
        subst (λ o. IsRouted r ex cur.1 o (next_module env r ex ids cur m secs).module_id)
            (sym (required-eq-ok _ _ u)) (route-IsRouted r ex cur.1 _ m),
        refl,
        refl,
        get_elem?-in_range ids _ (required-eq-ok _ _ u),
        required-eq-ok _ _ v,
        refl,
      )

  choose_next_in_bounds :
      (r : AttemptRow F) (ex : Exam F) (modules : List ℤ) (ids : List String) (cur : ℕ × String)
      → ((length ids == 0) ≡ false → length modules ≡ length ids)
      → choose_next env r ex modules ids cur ≢ err index_out_of_range
  unfolding choose_next
  choose_next_in_bounds r ex modules ids cur same h =
      elim (fail_if-eq-err (length modules == 0 || length ids == 0) no_modules _ h) [
        | inl p ↦ cc
        | inr (nonempty, h1) ↦
            elim (fail_if-eq-err (leb (length modules) (cur.0 + 1)) already_at_last_module _ h1) [
              | inl p ↦ cc
              | inr (in_range, h2) ↦
                  elim (>>=-eq-err (required (get_elem? ids (cur.0 + 1)) index_out_of_range) _ h2) [
                    | inl p ↦ ground (
                      arith,
                      same,
                      get_elem?-out_of_range ids (cur.0 + 1) (required-eq-err _ _ p).0,
                    )
                    | inr (m, _, h3) ↦
                        elim (>>=-eq-err
                          (required (get_elem? modules (cur.0 + 1)) index_out_of_range) _ h3) [
                            | inl p ↦ ground (
                              arith,
                              get_elem?-out_of_range modules (cur.0 + 1) (required-eq-err _ _ p).0,
                            )
                            | inr (secs, _, h4) ↦ cc
                          ]
                  ]
            ]
      ]

  pub advance_plan-found :
      (id : String) (db : Db F) {n : NextModule}
      → advance_plan env id db ≡ ok n
      → (r : AttemptRow F) × (ex : Exam F) × (find_attempt id db.attempts ≡ some r)
        × (get_exam_admin r.exam_id db ≡ ok ex)
        × Chosen r ex
            (module_times ex)
            (extract_module_ids ex.policy_raw)
            (current_module r ex (extract_module_ids ex.policy_raw))
            n
  unfolding advance_plan
  advance_plan-found id db h =
      let (r, p, h') = >>=-eq-ok (required (find_attempt id db.attempts) attempt_not_found) _ h in
      let (ex, q, h'') = >>=-eq-ok (get_exam_admin r.exam_id db) _ h' in
      (r, ex, required-eq-ok _ _ p, q, choose_next-Chosen r ex _ _ _ h'')

  pub advance_plan_in_bounds :
      (id : String) (db : Db F) → advance_plan env id db ≢ err index_out_of_range
  unfolding advance_plan
  advance_plan_in_bounds id db h =
      elim (>>=-eq-err (required (find_attempt id db.attempts) attempt_not_found) _ h) [
        | inl p ↦ cc ((required-eq-err (find_attempt id db.attempts) attempt_not_found p).1)
        | inr (r, _, h') ↦ elim (>>=-eq-err (get_exam_admin r.exam_id db) _ h') [
          | inl p ↦ get_exam_admin-ne r.exam_id db p refl
          | inr (ex, _, h'') ↦ choose_next_in_bounds r ex _ _ _ (module_times-length ex) h''
        ]
      ]
