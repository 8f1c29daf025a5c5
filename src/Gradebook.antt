-- ===== src/Gradebook.antt =====
-- pkg/lti-ags-gradebook: the transfer of scores to the learning platform. The client of its grade
-- services, over HTTP, is a parameter.
pub mod Rows
pub mod Sync
pub mod Status
use mindengage_lms.Prelude.{ℕ, ℤ, String, Option, List, GoMap, Result}

pub record GradedExam (F : Type 0) : Type 0 where
  pub id : String
  pub title : String
  pub max_pts : F

pub record GradedAttempt (F : Type 0) : Type 0 where
  pub id : String
  pub exam_id : String
  pub user_id : String
  pub score : F
  pub submitted_at : Option ℤ
  pub platform_issuer : String
  pub deployment_id : String
  pub context_id : String
  pub resource_link_id : String

-- Where an attempt was launched: the issuer, the deployment, the context and the resource link.
pub record Placement : Type 0 where
  pub issuer : String
  pub deployment : String
  pub context : String
  pub resource_link : String

-- LTILink
pub record Link : Type 0 where
  pub placement : Placement
  pub line_items_url : String
  pub scopes : List String

-- GradebookLineItem
pub record BookItem (F : Type 0) : Type 0 where
  pub id : ℕ
  pub exam_id : String
  pub placement : Placement
  pub label : String
  pub score_max : F
  pub line_item_url : String

-- LineItem, as the platform has it.
pub record RemoteItem (F : Type 0) : Type 0 where
  pub id : String
  pub label : String
  pub resource_id : String
  pub resource_link_id : String
  pub score_maximum : F

-- CreateLineItemReq
pub record ItemRequest (F : Type 0) : Type 0 where
  pub label : String
  pub score_maximum : F
  pub resource_id : String
  pub resource_link_id : String

-- Score
pub record SyncScore (F : Type 0) : Type 0 where
  pub user_id : String
  pub activity_progress : String
  pub grading_progress : String
  pub score_given : F
  pub score_maximum : F
  pub timestamp : ℤ

-- The interface AGSClient, over the state of the platform.
pub record AgsClient (F R : Type 0) : Type 0 where
  pub list_remote_items : String → GoMap String → R → Result String (List (RemoteItem F)) × R
  pub create_remote_item : String → ItemRequest F → R → Result String (RemoteItem F) × R
  pub send_score : String → SyncScore F → R → Result String (Unit {0}) × R
