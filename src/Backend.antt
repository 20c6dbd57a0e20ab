-- ===== src/Backend.antt =====
-- gui/web/src/lib/backend.ts: the calls of the server. `fetch` is a parameter of each call: for a
-- request, whether it fails or a reply arrives, the reply's status, and what `json()` makes of its
-- body, read as an error or as a result. The server's results have the type that the call names.
pub mod Types
pub mod Laws
use reqlet.Common.{
  ℕ, ◌+◌, ◌<◌, String, ◌<>◌, Bool, true, false, not, ◌&&◌, Option, none, some, List, [], ◌∷◌, ◌++◌,
  if◌then◌else◌, leb, nat_eq, truthy,
}
use reqlet.Backend.Types.{
  SendRequest, SendResponse, HistoryEntry, RunScriptRequest, RunScriptResponse, VariablesResponse,
  ServerSettings, ServerSettingsPatch,
}
use reqlet.Common.Number.{decimal, encode_uri_component, encode_form}

pub data Verb : Type 0 where
  get post put delete : Verb

-- What `JSON.stringify` is applied to.
pub data Payload : Type 0 where
  of_request : SendRequest → Payload
  of_script : RunScriptRequest → Payload
  of_settings : ServerSettingsPatch → Payload

pub record Call : Type 0 where
  pub verb : Verb
  pub path : String
  pub payload : Option Payload

-- `{ error, code }` of a reply that reports an error; a field may be missing.
pub record ErrorBody : Type 0 where
  pub error : Option String
  pub code : Option String

-- What `json()` gives: a value, or a rejection with a message.
pub data Json (A : Type 0) : Type 0 where
  parsed : A → Json A
  malformed : String → Json A

pub data Answer (A : Type 0) : Type 0 where
  unreachable : String → Answer A
  reply : ℕ → Json ErrorBody → Json A → Answer A

-- What a call throws: a `BackendError` with its code and message, or another error.
pub data Thrown : Type 0 where
  backend_error : String → String → Thrown
  other_error : String → Thrown

pub data Result (A : Type 0) : Type 0 where
  returns : A → Result A
  throws : Thrown → Result A

-- `response.ok`
abbrev pub is_ok : ℕ → Bool
is_ok status = leb 200 status && leb status 299

abbrev pub default_to : String → Option String → String
default_to fallback none = fallback
default_to fallback (some s) = s

-- `throw new BackendError(err.code ?? code, err.error ?? message)`, after `await response.json()`
abbrev pub error_of : String → String → Json ErrorBody → Thrown
error_of code message (parsed err) =
    backend_error (default_to code err.code) (default_to message err.error)
error_of code message (malformed reason) = other_error reason

abbrev pub value_of_json : {A : Type 0} → Json A → Result A
value_of_json (parsed a) = returns a
value_of_json (malformed reason) = throws (other_error reason)

-- `if (!response.ok) { … } return response.json()`
abbrev pub checked : {A : Type 0} → String → String → Answer A → Result A
checked code message (unreachable reason) = throws (other_error reason)
checked code message (reply status err value) =
    if is_ok status then value_of_json value else throws (error_of code message err)

-- An answer of which only the arrival matters.
abbrev pub arrived : {A : Type 0} → Answer A → Result Unit
arrived (unreachable reason) = throws (other_error reason)
arrived (reply status err value) = returns tt

abbrev pub not_implemented : Thrown
not_implemented = backend_error "not_implemented" "Wails bindings not yet implemented"

-- `if (isWailsContext()) throw …`
abbrev pub outside_wails : {A : Type 0} → Bool → Result A → Result A
outside_wails true rest = throws not_implemented
outside_wails false rest = rest

abbrev pub send_call : SendRequest → Call
send_call req = record { verb = post; path = "/api/send"; payload = some (of_request req) }

unfoldable pub send_request :
    Bool → (Call → Answer SendResponse) → SendRequest → Result SendResponse
send_request wails fetch req =
    outside_wails wails (checked "request_failed" "Request failed" (fetch (send_call req)))

abbrev pub history_call : ℕ → ℕ → Call
history_call limit offset = record {
  verb = get;
  path = "/api/history?limit=" <> (decimal limit <> ("&offset=" <> decimal offset));
  payload = none;
}

unfoldable pub list_history :
    Bool → (Call → Answer (List HistoryEntry)) → ℕ → ℕ → Result (List HistoryEntry)
list_history wails fetch limit offset =
    outside_wails wails
      (checked "request_failed" "Request failed" (fetch (history_call limit offset)))

unfoldable pub delete_history_entry : Bool → (Call → Answer Unit) → String → Result Unit
delete_history_entry wails fetch id = outside_wails wails (
    arrived (
      fetch (record {
        verb = delete;
        path = "/api/history/" <> encode_uri_component id;
        payload = none;
      })))

unfoldable pub clear_history : Bool → (Call → Answer Unit) → Result Unit
clear_history wails fetch =
    outside_wails wails
      (arrived (fetch (record { verb = delete; path = "/api/history"; payload = none })))

abbrev pub cancel_call : String → Call
cancel_call id = record {
  verb = delete;
  path = "/api/send/" <> encode_uri_component id;
  payload = none;
}

-- `if (!response.ok && response.status !== 404) { … }`
abbrev pub cancelled : Answer Unit → Result Unit
cancelled (unreachable reason) = throws (other_error reason)
cancelled (reply status err value) =
    if not (is_ok status) && not (nat_eq status 404)
    then throws (error_of "cancel_failed" "Cancel failed" err)
    else returns tt

unfoldable pub cancel_request : Bool → (Call → Answer Unit) → String → Result Unit
cancel_request wails fetch id = outside_wails wails (cancelled (fetch (cancel_call id)))

unfoldable pub run_script :
    Bool → (Call → Answer RunScriptResponse) → RunScriptRequest → Result RunScriptResponse
run_script wails fetch req = outside_wails wails (
    checked "sandbox_failed" "Script execution failed"
      (fetch (record { verb = post; path = "/api/sandbox/run"; payload = some (of_script req) })))

-- `if (id) params.set(name, id)`
abbrev pub query_field : String → Option String → List String
query_field name none = []
query_field name (some id) = if truthy id then (name <> ("=" <> encode_form id)) ∷ [] else []

abbrev pub query_text : List String → String
query_text [] = ""
query_text (f ∷ []) = "?" <> f
query_text (f ∷ g ∷ fs) = "?" <> (f <> ("&" <> g))

unfoldable pub get_variables :
    Bool
    → (Call → Answer VariablesResponse)
    → Option String
    → Option String
    → Result VariablesResponse
get_variables wails fetch collection_id environment_id = outside_wails wails (
    checked "request_failed" "Request failed" (
      fetch (record {
        verb = get;
        path =
            "/api/variables"
            <> query_text (
                query_field "collectionId" collection_id
                ++ query_field "environmentId" environment_id);
        payload = none;
      })))

unfoldable pub get_settings : Bool → (Call → Answer ServerSettings) → Result ServerSettings
get_settings wails fetch = outside_wails wails (
    checked "request_failed" "Request failed"
      (fetch (record { verb = get; path = "/api/settings"; payload = none })))

unfoldable pub put_settings :
    Bool → (Call → Answer ServerSettings) → ServerSettingsPatch → Result ServerSettings
put_settings wails fetch settings = outside_wails wails (
    checked "request_failed" "Request failed" (
      fetch (record { verb = put; path = "/api/settings"; payload = some (of_settings settings) })))
