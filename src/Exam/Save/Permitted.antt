-- ===== src/Exam/Save/Permitted.antt =====
-- SaveResponses of internal/exam/store_sql.go with allowedQIDsForModuleID: what a locked module permits.
use mindengage_lms.Prelude.{
  pos, String, true, false, ◌≡◌, ◌≢◌, ◌↔◌, ◌⊎◌, refl, sym, ◌∙◌, inl, inr, subst, Option, none, some,
  List, [], ◌∷◌, GoMap, str_eq_cases, Bool-cases,
}
use mindengage_lms.Strings.{trim_space, is_empty}
use mindengage_lms.Exam.Models.{Question, Exam, AttemptRow, Responses}
use mindengage_lms.Exam.Policy.{
  extract_module_ids, at_index, qids_in_module, nil_if_empty, allowed_qids_for_module_id,
}
use mindengage_lms.Exam.Store.{coalesce}
use mindengage_lms.Exam.Save.{active_module_id}

-- The texts of a list.
abbrev pub Among : String → List String → Type 0
Among k [] = ⊥
Among k (x ∷ xs) = (x ≡ k) ⊎ Among k xs

abbrev pub KeysIn : {V : Type 0} → Option (List String) → GoMap V → Type 0
KeysIn none resp = Unit
KeysIn (some qids) [] = Unit
KeysIn (some qids) ((k, v) ∷ resp) = Among k qids × KeysIn (some qids) resp

pub and_iff : {A B C D : Type 0} → A ↔ B → C ↔ D → (A × C) ↔ (B × D)
and_iff p q = (λ h. (p.0 h.0, q.0 h.1), λ h. (p.1 h.0, q.1 h.1))

pub iff_trans : {A B C : Type 0} → A ↔ B → B ↔ C → A ↔ C
iff_trans p q = (λ h. q.0 (p.0 h), λ h. p.1 (q.1 h))

module _ {F : Type 0} where
  -- The module that an attempt is in: its concrete one or, where that is blank, the one that the policy
  -- has at its index.
  abbrev pub IsActive : AttemptRow F → Exam F → String → Type 0
  IsActive r ex m =
      ((is_empty (trim_space (coalesce r.current_module_id "")) ≡ false)
        × (m ≡ trim_space (coalesce r.current_module_id "")))
      ⊎ ((is_empty (trim_space (coalesce r.current_module_id "")) ≡ true)
          × (m
              ≡ trim_space
                  (coalesce (at_index (extract_module_ids ex.policy_raw) (pos r.module_index)) "")))

  -- A question of the module has the id.
  abbrev pub IsInside : (m k : String) → List (Question F) → Type 0
  IsInside m k [] = ⊥
  IsInside m k (q ∷ qs) = ((trim_space q.module_id ≡ m) × (q.id ≡ k)) ⊎ IsInside m k qs

  -- No question is of the module.
  abbrev pub IsUnused : (m : String) → List (Question F) → Type 0
  IsUnused m [] = Unit
  IsUnused m (q ∷ qs) = (trim_space q.module_id ≢ m) × IsUnused m qs

  abbrev pub KeysInside : {V : Type 0} → (m : String) → List (Question F) → GoMap V → Type 0
  KeysInside m qs [] = Unit
  KeysInside m qs ((k, v) ∷ resp) = IsInside m k qs × KeysInside m qs resp

  -- What a module permits: everything where it is blank or has no question, else the ids of its
  -- questions.
  abbrev pub IsPermitted : {V : Type 0} → (m : String) → List (Question F) → GoMap V → Type 0
  IsPermitted m qs resp = (is_empty m ≡ true) ⊎ (IsUnused m qs ⊎ KeysInside m qs resp)

  active_module_id-IsActive :
      (r : AttemptRow F) (ex : Exam F) → IsActive r ex (active_module_id r ex)
  unfolding active_module_id
  active_module_id-IsActive r ex =
      let target = trim_space (coalesce r.current_module_id "") in
      elim (Bool-cases (is_empty target)) [
        | inl e ↦
            let same : active_module_id r ex ≡ _ = rw (active_module_id, e) refl in inr (e, same)
        | inr e ↦
            let same : active_module_id r ex ≡ _ = rw (active_module_id, e) refl in inl (e, same)
      ]

  pub IsActive-eq :
      (r : AttemptRow F) (ex : Exam F) (m : String) → IsActive r ex m → active_module_id r ex ≡ m
  unfolding active_module_id
  IsActive-eq r ex m (inl (e, p)) =
      let same : active_module_id r ex ≡ _ = rw (active_module_id, e) refl in same ∙ sym p
  IsActive-eq r ex m (inr (e, p)) =
      let same : active_module_id r ex ≡ _ = rw (active_module_id, e) refl in same ∙ sym p

  Among-qids_in_module :
      (m k : String) (qs : List (Question F)) → Among k (qids_in_module m qs) ↔ IsInside m k qs
  unfolding qids_in_module
  Among-qids_in_module m k [] = (λ h. h, λ h. h)
  Among-qids_in_module m k (q ∷ qs) =
      let rest = Among-qids_in_module m k qs in
      elim (str_eq_cases (trim_space q.module_id) m) [
        | inl (e, p) ↦
            rw (qids_in_module, e)
              (
                λ h. elim h [ inl a ↦ inl (p, a) | inr b ↦ inr (rest.0 b) ],
                λ h. elim h [ inl a ↦ inl a.1 | inr b ↦ inr (rest.1 b) ],
              )
        | inr (e, ne) ↦
            rw (qids_in_module, e)
              (λ h. inr (rest.0 h), λ h. elim h [ inl a ↦ absurd (ne a.0) | inr b ↦ rest.1 b ])
      ]

  qids_in_module-eq-nil :
      (m : String) (qs : List (Question F)) → (qids_in_module m qs ≡ []) ↔ IsUnused m qs
  unfolding qids_in_module
  qids_in_module-eq-nil m [] = (λ h. tt, λ h. refl)
  qids_in_module-eq-nil m (q ∷ qs) =
      let rest = qids_in_module-eq-nil m qs in
      elim (str_eq_cases (trim_space q.module_id) m) [
        | inl (e, p) ↦ rw (qids_in_module, e) (λ h. cc h, λ h. absurd (h.0 p))
        | inr (e, ne) ↦ rw (qids_in_module, e) (λ h. (ne, rest.0 h), λ h. rest.1 h.1)
      ]

  KeysIn-qids_in_module :
      {V : Type 0} (m : String) (qs : List (Question F)) (resp : GoMap V)
      → KeysIn (some (qids_in_module m qs)) resp ↔ KeysInside m qs resp
  KeysIn-qids_in_module m qs [] = (λ h. tt, λ h. tt)
  KeysIn-qids_in_module m qs ((k, v) ∷ resp) =
      and_iff (Among-qids_in_module m k qs) (KeysIn-qids_in_module m qs resp)

  nil_if_empty-IsPermitted :
      {V : Type 0} (m : String) (qs : List (Question F)) (resp : GoMap V) (ids : List String)
      → is_empty m ≡ false
      → qids_in_module m qs ≡ ids
      → KeysIn (nil_if_empty ids) resp ↔ IsPermitted m qs resp
  nil_if_empty-IsPermitted m qs resp [] e h =
      (λ k. inr (inl ((qids_in_module-eq-nil m qs).0 h)), λ k. tt)
  nil_if_empty-IsPermitted m qs resp (x ∷ xs) e h =
      let keys = KeysIn-qids_in_module m qs resp in
      (
        λ k. inr (inr (keys.0 (subst (λ ids. KeysIn (some ids) resp) (sym h) k))),
        λ p. elim p [
          | inl d ↦ absurd (cc (sym d ∙ e))
          | inr rest ↦ elim rest [
            | inl n ↦ absurd (cc (sym ((qids_in_module-eq-nil m qs).1 n) ∙ h))
            | inr k ↦ subst (λ ids. KeysIn (some ids) resp) h (keys.1 k)
          ]
        ],
      )

  allowed-IsPermitted :
      {V : Type 0} (ex : Exam F) (m : String) (resp : GoMap V)
      → KeysIn (allowed_qids_for_module_id ex m) resp ↔ IsPermitted (trim_space m) ex.questions resp
  unfolding allowed_qids_for_module_id
  allowed-IsPermitted ex m resp = elim (Bool-cases (is_empty (trim_space m))) [
    | inl e ↦
        let open_to_all : allowed_qids_for_module_id ex m ≡ none =
          rw (allowed_qids_for_module_id, e) refl in
        (λ k. inl e, λ k. subst (λ ids. KeysIn ids resp) (sym open_to_all) tt)
    | inr e ↦
        let ids = qids_in_module (trim_space m) ex.questions in
        let same : allowed_qids_for_module_id ex m ≡ nil_if_empty ids =
          rw (allowed_qids_for_module_id, e) refl in
        let permitted = nil_if_empty-IsPermitted (trim_space m) ex.questions resp ids e refl in
        subst (λ a. KeysIn a resp ↔ IsPermitted (trim_space m) ex.questions resp) (sym same)
          permitted
  ]

  -- The allowed questions of the module that an attempt is in.
  pub IsActive-IsPermitted :
      (r : AttemptRow F) (ex : Exam F) (resp : Responses F)
      → KeysIn (allowed_qids_for_module_id ex (active_module_id r ex)) resp
        ↔ ((m : String) → IsActive r ex m → IsPermitted (trim_space m) ex.questions resp)
  IsActive-IsPermitted r ex resp = (
    λ k m a.
        subst (λ m. IsPermitted (trim_space m) ex.questions resp) (IsActive-eq r ex m a)
          ((allowed-IsPermitted ex (active_module_id r ex) resp).0 k),
    λ h.
        (allowed-IsPermitted ex (active_module_id r ex) resp).1
          (h (active_module_id r ex) (active_module_id-IsActive r ex)),
  )
