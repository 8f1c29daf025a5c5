-- ===== src/Exam/Models.antt =====
-- internal/exam/models.go, and the rows of the tables that internal/exam/store_sql.go keeps.
-- A text column that holds JSON holds what encoding/json reads from it, `none` where it is refused.
-- `F` is float64.
use mindengage_lms.Prelude.{ℕ, ℤ, String, Bool, Option, List, GoMap}

pub record Choice : Type 0 where
  pub id : String
  pub label_html : String

pub record Question (F : Type 0) : Type 0 where
  pub id : String
  pub q_type : String
  pub prompt_html : String
  pub choices : List Choice
  pub answer_key : List String
  pub points : F
  pub section_id : String
  pub module_id : String

-- The dynamic values of `interface{}` that a response payload can be: what encoding/json makes,
-- and the two slices that callers within the program pass.
mutual
  pub data Value (F : Type 0) : Type 0 where
    null : Value F
    bool : Bool → Value F
    num : F → Value F
    str : String → Value F
    arr : Values F → Value F
    obj : Fields F → Value F
    strings : List String → Value F
    bytes : String → Value F

  pub data Values (F : Type 0) : Type 0 where
    nil : Values F
    cons : Value F → Values F → Values F

  pub data Fields (F : Type 0) : Type 0 where
    end : Fields F
    field : String → Value F → Fields F → Fields F

abbrev pub Responses : Type 0 → Type 0
Responses F = GoMap (Value F)

-- One module of a section, and one section, as extractModules reads them.
pub record ModuleDoc : Type 0 where
  pub id : String
  pub time_limit_sec : ℤ

pub record SectionDoc : Type 0 where
  pub id : String
  pub modules : List ModuleDoc

-- A policy text that is not empty: what json.Unmarshal reads from it into the structs of
-- extractModules (`none` if it returns an error) and of parseNavPolicy (whose error is ignored).
pub record PolicyText : Type 0 where
  pub is_blank : Bool
  pub sections : Option (List SectionDoc)
  pub allow_back : Option Bool
  pub module_locked : Option Bool

-- json.RawMessage: `none` is the empty one.
abbrev pub PolicyRaw : Type 0
PolicyRaw = Option PolicyText

pub record Exam (F : Type 0) : Type 0 where
  pub id : String
  pub title : String
  pub time_limit_sec : ℤ
  pub questions : List (Question F)
  pub profile : String
  pub policy_raw : PolicyRaw
  pub created_at : ℤ

pub data Status : Type 0 where
  in_progress submitted : Status

pub record Attempt (F : Type 0) : Type 0 where
  pub id : String
  pub exam_id : String
  pub user_id : String
  pub status : Status
  pub score : F
  pub responses : Responses F
  pub module_index : ℕ
  pub module_started_at : ℤ
  pub module_deadline : ℤ
  pub overall_deadline : ℤ
  pub started_at : ℤ
  pub submitted_at : ℤ
  pub remaining_seconds : ℤ
  pub current_index : ℤ
  pub max_reached_index : ℤ
  pub current_module_id : String

-- The row of an exam in the table exams.
pub record ExamRow (F : Type 0) : Type 0 where
  pub id : String
  pub title : String
  pub time_limit_sec : ℤ
  pub questions_json : Option (List (Question F))
  pub created_at : ℤ
  pub profile : String
  pub policy_json : PolicyRaw

-- A row of the table attempts; `none` in an optional column is NULL.
pub record AttemptRow (F : Type 0) : Type 0 where
  pub id : String
  pub exam_id : String
  pub user_id : String
  pub status : Status
  pub score : F
  pub auto_score : F
  pub manual_score : F
  pub responses_json : Option (Responses F)
  pub started_at : ℤ
  pub submitted_at : ℤ
  pub module_index : ℕ
  pub module_started_at : Option ℤ
  pub module_deadline : Option ℤ
  pub overall_deadline : Option ℤ
  pub current_index : ℤ
  pub max_reached_index : ℤ
  pub current_module_id : Option String
  pub graded_at : Option ℤ

-- A row of the table attempt_items.
pub record ItemRow (F : Type 0) : Type 0 where
  pub attempt_id : String
  pub question_id : String
  pub q_type : String
  pub points_max : F
  pub auto_points : F
  pub manual_points : F
  pub needs_manual : Bool
  pub comment : Option String
  pub response_json : Value F
  pub graded_by : Option String
  pub graded_at : Option ℤ

-- A row of the table event_log.
pub record EventRow : Type 0 where
  pub site_id : String
  pub typ : String
  pub key : String
  pub event_data : String
  pub created_at : ℤ

pub record Db (F : Type 0) : Type 0 where
  pub exams : List (ExamRow F)
  pub attempts : List (AttemptRow F)
  pub items : List (ItemRow F)
  pub events : List EventRow

-- The errors that the store returns.
pub data StoreError : Type 0 where
  exam_not_found attempt_not_found no_rows bad_questions bad_sql duplicate_id : StoreError
  attempt_submitted outside_module backward_nav_blocked edit_back_blocked time_over : StoreError
  no_modules already_at_last_module : StoreError
  -- a Go panic
  index_out_of_range : StoreError
