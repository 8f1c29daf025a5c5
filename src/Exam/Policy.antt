-- ===== src/Exam/Policy.antt =====
-- internal/exam/policy_extract.go and the helpers of internal/exam/store_sql.go that read an exam
-- and its policy: module list, navigation policy, index maps, module windows, allowed questions.
use mindengage_lms.Prelude.{
  ℕ, suc, ℤ, pos, negsuc, String, Bool, true, false, Option, none, some, List, [], ◌∷◌, ◌++◌, map,
  GoMap, lookup, insert, str_eq, ltb, if◌then◌else◌, get_elem?, leb_ℤ, add64,
}
use mindengage_lms.Strings.{trim_space, is_empty}
use mindengage_lms.Exam.Models.{Question, Exam, ModuleDoc, SectionDoc, PolicyRaw}

pub record ModuleInfo : Type 0 where
  pub section_id : String
  pub module_id : String
  pub time_limit_sec : ℤ

module_infos : String → List ModuleDoc → List ModuleInfo
module_infos sec [] = []
module_infos sec (m ∷ ms) =
    record { section_id = sec; module_id = trim_space m.id; time_limit_sec = m.time_limit_sec }
    ∷ module_infos sec ms

flatten_sections : List SectionDoc → List ModuleInfo
unfolding module_infos
flatten_sections [] = []
flatten_sections (s ∷ ss) = module_infos (trim_space s.id) s.modules ++ flatten_sections ss

abbrev modules_of : Option (List SectionDoc) → List ModuleInfo
modules_of none = []
modules_of (some ss) = flatten_sections ss

unfoldable pub extract_modules : PolicyRaw → List ModuleInfo
unfolding flatten_sections
extract_modules none = []
extract_modules (some p) = modules_of p.sections

unfoldable pub extract_module_ids : PolicyRaw → List String
extract_module_ids p = map (λ (m : ModuleInfo). m.module_id) (extract_modules p)

unfoldable pub extract_module_times : PolicyRaw → List ℤ
extract_module_times p = map (λ (m : ModuleInfo). m.time_limit_sec) (extract_modules p)

pub record NavPolicy : Type 0 where
  pub allow_back : Bool
  pub module_locked : Bool

abbrev bool_or : Option Bool → Bool → Bool
bool_or none d = d
bool_or (some b) d = b

unfoldable pub parse_nav_policy : PolicyRaw → NavPolicy
parse_nav_policy none = record { allow_back = true; module_locked = false }
parse_nav_policy (some p) = record {
  allow_back = bool_or p.allow_back true;
  module_locked = bool_or p.module_locked false;
}

-- `start + dur` as a nullable deadline; `none` is NULL.
unfoldable pub nullable_deadline : ℤ → ℤ → Option ℤ
nullable_deadline start dur = if leb_ℤ dur (pos 0) then none else some (add64 start dur)

-- `xs[i]` where a guard has `0 <= i && i < len(xs)`.
unfoldable pub at_index {ℓ} : {A : Type ℓ} → List A → ℤ → Option A
at_index xs (pos i) = get_elem? xs i
at_index xs (negsuc i) = none

-- The window of a module: the indices of its questions, the least and the greatest of them.
pub record ModuleWindow : Type 0 where
  pub indices : List ℕ
  pub first_idx : ℕ
  pub last_idx : ℕ
  pub has_any : Bool

abbrev no_window : ModuleWindow
no_window = record { indices = []; first_idx = 0; last_idx = 0; has_any = false }

-- The body of the loop of moduleWindowFor, at a question of the module.
unfoldable pub widen : ℕ → ModuleWindow → ModuleWindow
widen i w =
    if w.has_any
    then record {
      indices = i ∷ w.indices;
      first_idx = if ltb i w.first_idx then i else w.first_idx;
      last_idx = if ltb w.last_idx i then i else w.last_idx;
      has_any = true;
    }
    else record { indices = i ∷ w.indices; first_idx = i; last_idx = i; has_any = true }

module _ {F : Type 0} where
  -- The maps qidToIdx and qidToMod of buildIndexMaps: a later question with the same id wins.
  unfoldable pub qid_to_idx_from : ℕ → List (Question F) → GoMap ℕ → GoMap ℕ
  qid_to_idx_from i [] m = m
  qid_to_idx_from i (q ∷ qs) m = qid_to_idx_from (suc i) qs (insert q.id i m)

  unfoldable pub qid_to_mod_from : List (Question F) → GoMap String → GoMap String
  qid_to_mod_from [] m = m
  qid_to_mod_from (q ∷ qs) m = qid_to_mod_from qs (insert q.id q.module_id m)

  unfoldable pub qid_to_idx : List (Question F) → GoMap ℕ
  unfolding qid_to_idx_from
  qid_to_idx qs = qid_to_idx_from 0 qs []

  unfoldable pub qid_to_mod : List (Question F) → GoMap String
  unfolding qid_to_mod_from
  qid_to_mod qs = qid_to_mod_from qs []

abbrev widen_at : Option ℕ → ModuleWindow → ModuleWindow
widen_at none w = widen 0 w
widen_at (some i) w = widen i w

-- `for qid, mid := range qidToMod`; an index that is missing reads as 0.
unfoldable pub window_loop : String → GoMap ℕ → GoMap String → ModuleWindow → ModuleWindow
unfolding widen
window_loop module_id idx [] w = w
window_loop module_id idx ((qid, mid) ∷ m) w =
    window_loop module_id idx m (if str_eq mid module_id then widen_at (lookup qid idx) w else w)

module _ {F : Type 0} where
  unfoldable pub module_window_for : Exam F → String → ModuleWindow
  unfolding window_loop
  module_window_for ex module_id =
      window_loop module_id (qid_to_idx ex.questions) (qid_to_mod ex.questions) no_window

  -- The ids of the questions whose module is `module_id`.
  unfoldable pub qids_in_module : String → List (Question F) → List String
  qids_in_module module_id [] = []
  qids_in_module module_id (q ∷ qs) =
      let rest = qids_in_module module_id qs in
      if str_eq (trim_space q.module_id) module_id then q.id ∷ rest else rest

abbrev pub nil_if_empty : List String → Option (List String)
nil_if_empty [] = none
nil_if_empty (q ∷ qs) = some (q ∷ qs)

module _ {F : Type 0} where
  -- `none` is the nil map: no restriction.
  unfoldable pub allowed_qids_for_module_id : Exam F → String → Option (List String)
  unfolding qids_in_module
  allowed_qids_for_module_id ex module_id =
      let target = trim_space module_id in
      if is_empty target then none else nil_if_empty (qids_in_module target ex.questions)

  unfoldable pub allowed_qids_for_module : Exam F → ℤ → Option (List String)
  allowed_qids_for_module ex i = elim (at_index (extract_module_ids ex.policy_raw) i) [
    | none ↦ none
    | some id ↦ allowed_qids_for_module_id ex id
  ]
