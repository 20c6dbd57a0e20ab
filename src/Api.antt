-- ===== src/Api.antt =====
-- gui/web/src/lib/api.ts: the calls for collections, environments and runs. `fetch` is a parameter of
-- each call, as it is for those of gui/web/src/lib/backend.ts; an `Error` is its message.
pub mod Files
use reqlet.Common.{◌<◌, String, ◌<>◌, not, Option, none, some, List, if◌then◌else◌, nat_eq}
use reqlet.Types.Collection.{Collection, Environment}
use reqlet.Types.Run.{RunOptions, RunSummary}
use reqlet.Backend.{
  Verb, get, post, put, delete, Json, parsed, malformed, ErrorBody, Answer, unreachable, reply,
  other_error, Result, returns, throws, is_ok, default_to,
}

pub data Payload : Type 0 where
  of_collection : Collection → Payload
  of_environment : Environment → Payload
  of_run_options : RunOptions → Payload

pub record Call : Type 0 where
  pub verb : Verb
  pub path : String
  pub payload : Option Payload

-- The message of a reply that is not a success.
abbrev pub message_of : Json ErrorBody → String
message_of (parsed err) = default_to "Request failed" err.error
message_of (malformed reason) = "Request failed"

abbrev pub some_value : {A : Type 0} → Json A → Result (Option A)
some_value (parsed a) = returns (some a)
some_value (malformed reason) = throws (other_error reason)

-- What `request` does with an answer; nothing is returned for 204.
abbrev pub received : {A : Type 0} → Answer A → Result (Option A)
received (unreachable reason) = throws (other_error reason)
received (reply status err value) =
    if not (is_ok status)
    then throws (other_error (message_of err))
    else if nat_eq status 204
    then returns none
    else some_value value

abbrev pub call : Verb → String → Option Payload → Call
call verb path payload = record { verb = verb; path = "/api" <> path; payload = payload }

unfoldable pub request :
    {A : Type 0} → (Call → Answer A) → Verb → String → Option Payload → Result (Option A)
request fetch verb path payload = received (fetch (call verb path payload))

module _ (fetch : Call → Answer (List Collection)) where
  unfoldable pub list_collections : Result (Option (List Collection))
  unfolding request
  list_collections = request fetch get "/collections" none

module _ (fetch : Call → Answer Collection) where
  unfoldable pub create_collection : Collection → Result (Option Collection)
  unfolding request
  create_collection col = request fetch post "/collections" (some (of_collection col))

  unfoldable pub get_collection : String → Result (Option Collection)
  unfolding request
  get_collection id = request fetch get ("/collections/" <> id) none

  unfoldable pub update_collection : String → Collection → Result (Option Collection)
  unfolding request
  update_collection id col = request fetch put ("/collections/" <> id) (some (of_collection col))

module _ (fetch : Call → Answer Unit) where
  unfoldable pub delete_collection : String → Result (Option Unit)
  unfolding request
  delete_collection id = request fetch delete ("/collections/" <> id) none

  unfoldable pub delete_environment : String → Result (Option Unit)
  unfolding request
  delete_environment id = request fetch delete ("/environments/" <> id) none

module _ (fetch : Call → Answer (List Environment)) where
  unfoldable pub list_environments : Result (Option (List Environment))
  unfolding request
  list_environments = request fetch get "/environments" none

module _ (fetch : Call → Answer Environment) where
  unfoldable pub create_environment : Environment → Result (Option Environment)
  unfolding request
  create_environment env = request fetch post "/environments" (some (of_environment env))

  unfoldable pub get_environment : String → Result (Option Environment)
  unfolding request
  get_environment id = request fetch get ("/environments/" <> id) none

  unfoldable pub update_environment : String → Environment → Result (Option Environment)
  unfolding request
  update_environment id env = request fetch put ("/environments/" <> id) (some (of_environment env))

-- `api.collections.run`, whose result is the id of the run
unfoldable pub run_collection :
    (Call → Answer String) → String → RunOptions → Result (Option String)
unfolding request
run_collection fetch id opts =
    request fetch post ("/collections/" <> (id <> "/run")) (some (of_run_options opts))

unfoldable pub get_run : (Call → Answer RunSummary) → String → Result (Option RunSummary)
unfolding request
get_run fetch run_id = request fetch get ("/runs/" <> run_id) none
