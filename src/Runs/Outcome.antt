-- ===== src/Runs/Outcome.antt =====
-- gui/web/src/lib/api.ts, `api.runs.stream`, with the actions of gui/web/src/store/runs.ts: what the
-- store holds of a run after any arrivals on its stream.
use reqlet.Common.{
  ◌≡◌, refl, ap, ◌∙◌, String, Bool, true, false, Option, none, some, List, [], ◌∷◌, ◌++◌,
  if◌then◌else◌, ◌==◌, ==-refl,
}
use reqlet.Common.Dict.{lookup, lookup-insert}
use mathlib.Core.List.{append_assoc, append-nil}
use reqlet.Types.Run.{RunEvent, RunSummary}
use reqlet.Runs.{RunStatus, done, RunState, RunsState, with_event, with_summary, started, start_run}
use reqlet.Runs.Machine.{finish, changed, steps, perform_all, lookup-perform_all}
use reqlet.Runs.Stream.{
  opened, Arrival, message, failure, final_summary, after_message, receive, receive_all,
}

-- How a stream ends: with a summary, by a failure before one, or not yet.
pub data Outcome : Type 0 where
  pending : Outcome
  completed : RunSummary → Outcome
  broken : Outcome

abbrev pub outcome_of : Option RunSummary → Outcome → Outcome
outcome_of none later = later
outcome_of (some summary) later = completed summary

abbrev pub outcome : List Arrival → Outcome
outcome [] = pending
outcome (failure ∷ rest) = broken
outcome (message evt ∷ rest) = outcome_of (final_summary evt) (outcome rest)

abbrev pub heard_of : Option RunSummary → List RunEvent → List RunEvent
heard_of none later = later
heard_of (some summary) later = []

-- The events before the end, the one with the summary included.
abbrev pub heard : List Arrival → List RunEvent
heard [] = []
heard (failure ∷ rest) = []
heard (message evt ∷ rest) = evt ∷ heard_of (final_summary evt) (heard rest)

abbrev pub concluded : Outcome → RunState → RunState
concluded pending r = r
concluded (completed summary) r = record r { status = done; summary = some summary }
concluded broken r = record r { status = RunStatus.error; error = some "SSE connection error" }

abbrev pub with_events : RunState → List RunEvent → RunState
with_events r events = record r { events = r.events ++ events }

receive_all-closed :
    (id : String) (c : Bool) (arrivals : List Arrival)
    → receive_all id (record { completed = c; closed = true }) arrivals ≡ []
unfolding receive_all receive
receive_all-closed id c [] = refl
receive_all-closed id c (message evt ∷ rest) = receive_all-closed id c rest
receive_all-closed id c (failure ∷ rest) = receive_all-closed id c rest

step_own :
    (id : String) (r : RunState) (change : RunState → RunState)
    → (if id == id then changed change (some r) else some r) ≡ some (change r)
step_own id r change = rw (==-refl id) refl

steps-message :
    (id : String) (r : RunState) (evt : RunEvent) (rest : List Arrival) (final : Option RunSummary)
    → ((q : RunState)
        → steps id (some q) (receive_all id opened rest)
          ≡ some (concluded (outcome rest) (with_events q (heard rest))))
    → steps id (some r) (
        let (next, actions) = after_message id opened evt final in
        actions ++ receive_all id next rest)
      ≡ some (
          concluded
            (outcome_of final (outcome rest))
            (with_events r (evt ∷ heard_of final (heard rest))))
steps-message id r evt rest none ih =
    ap (λ q. steps id q (receive_all id opened rest)) (step_own id r (with_event evt))
    ∙ ih (with_event evt r)
    ∙ rw (append_assoc r.events (evt ∷ []) (heard rest)) refl
steps-message id r evt rest (some summary) ih =
    ap
      (λ q.
        steps id q
          (finish id summary ∷ receive_all id (record { completed = true; closed = true }) rest))
      (step_own id r (with_event evt))
    ∙ ap (λ q. steps id q (receive_all id (record { completed = true; closed = true }) rest))
        (step_own id (with_event evt r) (with_summary summary))
    ∙ rw (receive_all-closed id true rest) refl

steps-receive_all :
    (id : String) (r : RunState) (arrivals : List Arrival)
    → steps id (some r) (receive_all id opened arrivals)
      ≡ some (concluded (outcome arrivals) (with_events r (heard arrivals)))
unfolding receive_all receive
steps-receive_all id r [] = rw (append-nil r.events) refl
steps-receive_all id r (failure ∷ rest) =
    rw (==-refl id, receive_all-closed id false rest, append-nil r.events) refl
steps-receive_all id r (message evt ∷ rest) =
    steps-message id r evt rest (final_summary evt) (λ q. steps-receive_all id q rest)

-- What the store holds of a run after it was started and any arrivals came on its stream: the events
-- up to the end of the stream, and the status that its end gives. The run is done with the summary
-- that came first, or failed if the connection failed before one, or else still running, and
-- nothing that arrives after the end changes it.
pub run_lem :
    (s : RunsState) (now run_id collection_id : String) (folder_id : Option String)
    (arrivals : List Arrival)
    → lookup run_id
        (perform_all
          (start_run now s run_id collection_id folder_id)
          (receive_all run_id opened arrivals)).runs
      ≡ some (
          concluded
            (outcome arrivals)
            (record (started now collection_id folder_id) { events = heard arrivals }))
unfolding start_run
run_lem s now run_id collection_id folder_id arrivals =
    lookup-perform_all (start_run now s run_id collection_id folder_id)
      (receive_all run_id opened arrivals) run_id
    ∙ rw (lookup-insert run_id run_id (started now collection_id folder_id) s.runs, ==-refl run_id)
        (steps-receive_all run_id (started now collection_id folder_id) arrivals)
