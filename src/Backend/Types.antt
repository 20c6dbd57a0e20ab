-- ===== src/Backend/Types.antt =====
-- gui/web/src/lib/backend.ts: what the page sends to the server and gets back. An optional field is
-- an `Option`; the variables of a request have the shape of `VariableMutations`.
use reqlet.Common.{ℕ, String, Bool, Option, List}
use reqlet.Common.Dict.{Dict}
use reqlet.Types.Auth.{AuthConfig}
use reqlet.Types.Request.{HttpMethod, BodyType, RawContentType, ValueType, HttpVersion}
use reqlet.Types.Response.{Timings, TestResult, VariableMutations}

pub record Header : Type 0 where
  pub key : String
  pub value : String
  pub enabled : Bool

pub record FormPart : Type 0 where
  pub key : String
  pub value : String
  pub enabled : Bool
  pub value_type : Option ValueType
  pub file_name : Option String
  pub file_content : Option String

pub record SendRequest : Type 0 where
  pub method : HttpMethod
  pub url : String
  pub headers : List Header
  pub body_type : BodyType
  pub body_raw : String
  pub body_raw_content_type : RawContentType
  pub body_form_data : List FormPart
  pub body_urlencoded : List Header
  pub body_graphql_query : Option String
  pub body_graphql_variables : Option String
  pub body_binary_content : Option String
  pub body_binary_name : Option String
  pub auth : Option AuthConfig
  pub follow_redirects : Bool
  pub max_redirects : Option ℕ
  pub follow_original_method : Option Bool
  pub follow_auth_header : Option Bool
  pub remove_referer : Option Bool
  pub ssl_verification : Bool
  pub timeout : ℕ
  pub http_version : Option HttpVersion
  pub ignore_proxy : Bool
  pub request_proxy_url : Option String
  pub request_proxy_username : Option String
  pub request_proxy_password : Option String
  pub pre_request_script : Option String
  pub test_script : Option String
  pub variables : Option VariableMutations
  pub request_name : Option String
  pub request_id : Option String

pub record SendResponse : Type 0 where
  pub status : ℕ
  pub status_text : String
  pub time : ℕ
  pub size : ℕ
  pub headers : Dict String
  pub body : String
  pub content_type : String
  pub timings : Option Timings
  pub test_results : Option (List TestResult)
  pub pre_request_error : Option String
  pub test_error : Option String
  pub mutations : Option VariableMutations
  pub visualizer_html : Option String

pub record HistoryEntry : Type 0 where
  pub id : String
  pub timestamp : String
  pub method : String
  pub url : String
  pub status : ℕ
  pub duration_ms : ℕ

pub data ScriptEvent : Type 0 where
  prerequest test : ScriptEvent

pub record ScriptedRequest : Type 0 where
  pub url : String
  pub method : String
  pub headers : Dict String
  pub body : String

pub record ScriptedResponse : Type 0 where
  pub status : String
  pub code : ℕ
  pub response_time : ℕ
  pub response_size : ℕ
  pub headers : Dict String
  pub body : String

pub record RunScriptRequest : Type 0 where
  pub script : String
  pub event : Option ScriptEvent
  pub variables : Option VariableMutations
  pub request : Option ScriptedRequest
  pub response : Option ScriptedResponse

pub record RunScriptResponse : Type 0 where
  pub tests : List TestResult
  pub mutations : Option VariableMutations
  pub error : Option String

pub record VariableEntry : Type 0 where
  pub id : String
  pub key : String
  pub initial_value : String
  pub current_value : String
  pub enabled : Bool

pub record VariablesResponse : Type 0 where
  pub globals : List VariableEntry
  pub environment : List VariableEntry
  pub collection : List VariableEntry

pub record ServerSettings : Type 0 where
  pub proxy_url : String
  pub proxy_username : String
  pub proxy_password : String
  pub no_proxy : String
  pub ssl_verification : Bool
  pub use_system_proxy : Bool
  pub respect_env_proxy : Bool
  pub max_response_size_mb : ℕ
  pub script_timeout_ms : ℕ

-- `Partial<AppSettings>`
pub record ServerSettingsPatch : Type 0 where
  pub proxy_url : Option String
  pub proxy_username : Option String
  pub proxy_password : Option String
  pub no_proxy : Option String
  pub ssl_verification : Option Bool
  pub use_system_proxy : Option Bool
  pub respect_env_proxy : Option Bool
  pub max_response_size_mb : Option ℕ
  pub script_timeout_ms : Option ℕ
