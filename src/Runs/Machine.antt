-- ===== src/Runs/Machine.antt =====
-- gui/web/src/store/runs.ts: the actions as data, and the machine of the run of one id.
use reqlet.Common.{
  ◌≡◌, refl, sym, ap, ◌∙◌, inl, inr, String, Option, none, some, List, [], ◌∷◌, if◌then◌else◌, ◌==◌,
  Bool-cases, Option-cases, ==-eq,
}
use reqlet.Common.Dict.{lookup, lookup-insert}
use reqlet.Types.Run.{RunEvent, RunSummary}
use reqlet.Runs.{
  RunState, RunsState, started, change_run, with_event, with_summary, with_error, start_run,
  append_event, finish_run, fail_run, reset_runs,
}

-- One action of the store.
pub data Action : Type 0 where
  start : String → String → String → Option String → Action
  append : String → RunEvent → Action
  finish : String → RunSummary → Action
  fail : String → String → Action
  reset : Action

unfoldable pub perform : RunsState → Action → RunsState
unfolding start_run append_event finish_run fail_run reset_runs
perform s (start now run_id collection_id folder_id) =
    start_run now s run_id collection_id folder_id
perform s (append run_id event) = append_event s run_id event
perform s (finish run_id summary) = finish_run s run_id summary
perform s (fail run_id message) = fail_run s run_id message
perform s reset = reset_runs s

unfoldable pub perform_all : RunsState → List Action → RunsState
unfolding perform
perform_all s [] = s
perform_all s (a ∷ rest) = perform_all (perform s a) rest

abbrev pub changed : (RunState → RunState) → Option RunState → Option RunState
changed change none = none
changed change (some entry) = some (change entry)

-- The machine of the run of one id: no state before a start or after a reset.
abbrev pub step : String → Option RunState → Action → Option RunState
step id run (start now run_id collection_id folder_id) =
    if run_id == id then some (started now collection_id folder_id) else run
step id run (append run_id event) = if run_id == id then changed (with_event event) run else run
step id run (finish run_id summary) =
    if run_id == id then changed (with_summary summary) run else run
step id run (fail run_id message) = if run_id == id then changed (with_error message) run else run
step id run reset = none

abbrev pub steps : String → Option RunState → List Action → Option RunState
steps id run [] = run
steps id run (a ∷ rest) = steps id (step id run a) rest

lookup-change_run :
    (s : RunsState) (run_id id : String) (change : RunState → RunState)
    → lookup id (change_run s run_id change).runs
      ≡ (if run_id == id then changed change (lookup id s.runs) else lookup id s.runs)
lookup-change_run s run_id id change = elim (Option-cases (lookup run_id s.runs)) [
  | inl e ↦
      rw (change_run, e)
        (elim (Bool-cases (run_id == id)) [
          | inl h ↦
              let absent : lookup id s.runs ≡ none =
                ap (λ k. lookup k s.runs) (sym (==-eq run_id id h)) ∙ e in
              rw (h, absent) refl
          | inr h ↦ rw h refl
        ])
  | inr (entry, e) ↦
      rw (change_run, e)
        (lookup-insert run_id id (change entry) s.runs ∙ (elim (Bool-cases (run_id == id)) [
          | inl h ↦
              let present : lookup id s.runs ≡ some entry =
                ap (λ k. lookup k s.runs) (sym (==-eq run_id id h)) ∙ e in
              rw (h, present) refl
          | inr h ↦ rw h refl
        ]))
]

lookup-perform :
    (s : RunsState) (a : Action) (id : String)
    → lookup id (perform s a).runs ≡ step id (lookup id s.runs) a
unfolding perform
lookup-perform s (start now run_id collection_id folder_id) id =
    lookup-insert run_id id (started now collection_id folder_id) s.runs
lookup-perform s (append run_id event) id = lookup-change_run s run_id id (with_event event)
lookup-perform s (finish run_id summary) id = lookup-change_run s run_id id (with_summary summary)
lookup-perform s (fail run_id message) id = lookup-change_run s run_id id (with_error message)
lookup-perform s reset id = refl

-- After any actions, the state of a run is what its own machine makes of them: the store keeps the
-- runs apart, and an action on a run that was not started changes none.
pub lookup-perform_all :
    (s : RunsState) (actions : List Action) (id : String)
    → lookup id (perform_all s actions).runs ≡ steps id (lookup id s.runs) actions
unfolding perform_all
lookup-perform_all s [] id = refl
lookup-perform_all s (a ∷ rest) id =
    lookup-perform_all (perform s a) rest id ∙ ap (λ run. steps id run rest) (lookup-perform s a id)
