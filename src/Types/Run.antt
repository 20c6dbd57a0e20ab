-- ===== src/Types/Run.antt =====
-- gui/web/src/types.ts: the options, events and summary of a collection run.
use reqlet.Common.{ℕ, String, Bool, Option, List}
use reqlet.Types.Response.{VariableMutations}

-- The variables of a run have the shape of `VariableMutations`.
pub record RunOptions : Type 0 where
  pub iterations : Option ℕ
  pub delay_ms : Option ℕ
  pub bail : Option Bool
  pub folder : Option String
  pub variables : Option VariableMutations

pub record RunTestResult : Type 0 where
  pub name : String
  pub passed : Bool
  pub error : Option String

pub record RunSummary : Type 0 where
  pub run_id : String
  pub collection_id : String
  pub started_at : String
  pub duration_ms : ℕ
  pub total : ℕ
  pub passed : ℕ
  pub failed : ℕ

pub data RunEventType : Type 0 where
  start request done error : RunEventType

pub record RunEvent : Type 0 where
  pub type : RunEventType
  pub total : Option ℕ
  pub iterations : Option ℕ
  pub iteration : Option ℕ
  pub index : Option ℕ
  pub name : Option String
  pub method : Option String
  pub url : Option String
  pub status : Option ℕ
  pub duration_ms : Option ℕ
  pub tests : Option (List RunTestResult)
  pub passed : Bool
  pub skipped : Option Bool
  pub error : Option String
  pub summary : Option RunSummary
