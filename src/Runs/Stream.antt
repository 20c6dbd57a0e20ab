-- ===== src/Runs/Stream.antt =====
-- gui/web/src/lib/api.ts, `api.runs.stream`, and `handleRun` of
-- gui/web/src/components/layout/collection-pane.tsx, which gives it the actions of
-- gui/web/src/store/runs.ts. An `EventSource` delivers nothing once it is closed.
use reqlet.Common.{
  String, Bool, true, false, not, Option, none, some, List, [], ◌∷◌, ◌++◌, if◌then◌else◌,
}
use reqlet.Types.Run.{RunEvent, RunEventType, RunSummary}
use reqlet.Runs.Machine.{Action, append, finish, fail}

pub record Stream : Type 0 where
  pub completed : Bool
  pub closed : Bool

abbrev pub opened : Stream
opened = record { completed = false; closed = false }

pub data Arrival : Type 0 where
  message : RunEvent → Arrival
  failure : Arrival

abbrev is_done : RunEventType → Bool
is_done RunEventType.done = true
is_done RunEventType.start = false
is_done RunEventType.request = false
is_done RunEventType.error = false

-- `evt.type === "done" && evt.summary`
abbrev pub final_summary : RunEvent → Option RunSummary
final_summary evt = if is_done evt.type then evt.summary else none

abbrev pub after_message : String → Stream → RunEvent → Option RunSummary → Stream × List Action
after_message run_id s evt none = (s, append run_id evt ∷ [])
after_message run_id s evt (some summary) =
    (record { completed = true; closed = true }, append run_id evt ∷ finish run_id summary ∷ [])

-- One arrival, and the actions of the callbacks that are called.
unfoldable pub receive : String → Stream → Arrival → Stream × List Action
receive run_id s (message evt) =
    if s.closed then (s, []) else after_message run_id s evt (final_summary evt)
receive run_id s failure = if s.closed then (s, []) else (
  record s { closed = true },
  if not s.completed then fail run_id "SSE connection error" ∷ [] else [],
)

unfoldable pub close : Stream → Stream
close s = record s { closed = true }

-- All arrivals, with the actions on the store in their order.
unfoldable pub receive_all : String → Stream → List Arrival → List Action
unfolding receive
receive_all run_id s [] = []
receive_all run_id s (a ∷ rest) =
    let (next, actions) = receive run_id s a in actions ++ receive_all run_id next rest
