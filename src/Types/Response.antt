-- ===== src/Types/Response.antt =====
-- gui/web/src/types.ts: what a sent request returns.
use reqlet.Common.{ℕ, String, Bool, Option, List}
use reqlet.Common.Dict.{Dict}

pub record TestResult : Type 0 where
  pub name : String
  pub passed : Bool
  pub error : Option String

pub record VariableMutations : Type 0 where
  pub globals : Option (Dict String)
  pub environment : Option (Dict String)
  pub collection_variables : Option (Dict String)

pub record Timings : Type 0 where
  pub dns : ℕ
  pub tcp : ℕ
  pub tls : ℕ
  pub ttfb : ℕ
  pub download : ℕ
  pub total : ℕ

pub record ResponseData : Type 0 where
  pub status : ℕ
  pub status_text : String
  pub time : ℕ
  pub size : ℕ
  pub headers : Dict String
  pub body : String
  pub content_type : String
  pub timings : Option Timings
  pub test_results : Option (List TestResult)
  pub pre_request_error : Option String
  pub test_error : Option String
  pub mutations : Option VariableMutations
  pub visualizer_html : Option String
