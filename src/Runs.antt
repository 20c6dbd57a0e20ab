-- ===== src/Runs.antt =====
-- gui/web/src/store/runs.ts: the runs of collections that the server reports on. `startedAt` is the
-- text that the clock gives, a parameter.
pub mod Machine
pub mod Consistent
pub mod Stream
pub mod Outcome
pub mod Pane
pub mod Streams
pub mod CutOff
pub mod View
use reqlet.Common.{◌+◌, String, Option, none, some, List, [], ◌∷◌, ◌++◌}
use reqlet.Common.Dict.{Dict, lookup, insert}
use reqlet.Types.Run.{RunEvent, RunSummary}

pub data RunStatus : Type 0 where
  running : RunStatus
  done : RunStatus
  error : RunStatus

pub record RunState : Type 0 where
  pub status : RunStatus
  pub collection_id : String
  pub folder_id : Option String
  pub started_at : String
  pub events : List RunEvent
  pub summary : Option RunSummary
  pub error : Option String

pub record RunsState : Type 0 where
  pub active_run_id : Option String
  pub runs : Dict RunState

abbrev pub no_runs : RunsState
no_runs = record { active_run_id = none; runs = [] }

abbrev pub started : String → String → Option String → RunState
started now collection_id folder_id = record {
  status = running;
  collection_id = collection_id;
  folder_id = folder_id;
  started_at = now;
  events = [];
  summary = none;
  error = none;
}

unfoldable pub start_run : String → RunsState → String → String → Option String → RunsState
start_run now s run_id collection_id folder_id = record {
  active_run_id = some run_id;
  runs = insert run_id (started now collection_id folder_id) s.runs;
}

-- What the other actions share: `if (!entry) return s`, or else the changed entry is set.
abbrev pub change_run : RunsState → String → (RunState → RunState) → RunsState
change_run s run_id change = elim (lookup run_id s.runs) [
  | none ↦ s
  | some entry ↦ record s { runs = insert run_id (change entry) s.runs }
]

abbrev pub with_event : RunEvent → RunState → RunState
with_event event entry = record entry { events = entry.events ++ (event ∷ []) }

abbrev pub with_summary : RunSummary → RunState → RunState
with_summary summary entry = record entry { status = done; summary = some summary }

abbrev pub with_error : String → RunState → RunState
with_error message entry = record entry { status = RunStatus.error; error = some message }

unfoldable pub append_event : RunsState → String → RunEvent → RunsState
append_event s run_id event = change_run s run_id (with_event event)

unfoldable pub finish_run : RunsState → String → RunSummary → RunsState
finish_run s run_id summary = change_run s run_id (with_summary summary)

unfoldable pub fail_run : RunsState → String → String → RunsState
fail_run s run_id message = change_run s run_id (with_error message)

unfoldable pub reset_runs : RunsState → RunsState
reset_runs s = no_runs
