-- ===== src/Runs/Pane.antt =====
-- gui/web/src/components/layout/collection-pane.tsx: `handleRun`, its stream and the effect that
-- closes it. The handler is two steps, before and after the server's answer.
use reqlet.Runs.Machine.{Action, perform_all}
use reqlet.Common.{
  ℕ, String, Bool, true, false, Option, none, some, List, [], ◌∷◌, ◌++◌, map, if◌then◌else◌, nat_eq,
  truthy, length,
}
use reqlet.Types.Collection.{Collection, FolderItem}
use reqlet.Types.Tab.{CollectionSubTab}
use reqlet.Types.Run.{RunOptions}
use reqlet.Tabs.State.{TabsState}
use reqlet.Tabs.Actions.{set_tab_collection_sub_tab}
use reqlet.Scope.Merge.{VariableScope}
use reqlet.Send.Request.{scope_variables}
use reqlet.Runs.{RunsState, start_run}
use reqlet.Runs.Stream.{Stream, opened, Arrival, receive, close}

-- A stream that was opened, with the run its callbacks were given; the number tells streams apart.
pub record OpenStream : Type 0 where
  pub number : ℕ
  pub run_id : String
  pub stream : Stream

-- The state that the pane reads and changes, every stream it opened, and the stream that the
-- function in `sseCleanupRef` closes.
pub record RunPane : Type 0 where
  pub tabs : TabsState
  pub runs : RunsState
  pub streams : List OpenStream
  pub cleanup : Option ℕ
  pub is_starting : Bool
  pub toasts : List String

-- What the handler asks the server for, and what it holds until the answer.
pub record Asked : Type 0 where
  pub collection_id : String
  pub folder_id : Option String
  pub options : RunOptions

abbrev pub folder_name : Option FolderItem → Option String → Option String
folder_name none folder = folder
folder_name (some f) folder = some f.name

abbrev pub id_of : Option FolderItem → Option String
id_of none = none
id_of (some f) = some f.id

-- `{ ...runOpts, ...(folder ? { folder: folder.name } : {}), variables }`
abbrev pub asked_options : RunOptions → Option FolderItem → VariableScope → RunOptions
asked_options opts folder scope = record opts {
  folder = folder_name folder opts.folder;
  variables = some (scope_variables scope);
}

-- Up to the call of `api.collections.run`.
unfoldable pub begin_run :
    Option Collection
    → Option FolderItem
    → RunOptions
    → VariableScope
    → RunPane
    → RunPane × Option Asked
unfolding set_tab_collection_sub_tab
begin_run none folder opts scope p = (p, none)
begin_run (some collection) folder opts scope p = if p.is_starting then (p, none) else (
  record p {
    is_starting = true;
    tabs = set_tab_collection_sub_tab p.tabs p.tabs.active_tab_id CollectionSubTab.runs;
  },
  some (record {
    collection_id = collection.id;
    folder_id = id_of folder;
    options = asked_options opts folder scope;
  }),
)

pub data Started : Type 0 where
  runs_as : String → Started
  fails : String → Started

-- `(err as Error).message || "Failed to start run"`
abbrev pub failure_text : String → String
failure_text message = if truthy message then message else "Failed to start run"

abbrev pub close_if : Bool → OpenStream → OpenStream
unfolding close
close_if true o = record o { stream = close o.stream }
close_if false o = o

-- `sseCleanupRef.current?.()`
unfoldable pub close_ref : Option ℕ → List OpenStream → List OpenStream
unfolding close
close_ref none streams = streams
close_ref (some n) streams = map (λ o. close_if (nat_eq o.number n) o) streams

abbrev pub opened_for : ℕ → String → OpenStream
opened_for n run_id = record { number = n; run_id = run_id; stream = opened }

-- From the answer on: the run is started in the store, the stream of an earlier run is closed, and
-- that of the new one is opened.
unfoldable pub end_run : String → Asked → Started → RunPane → RunPane
unfolding start_run close_ref
end_run now asked (runs_as run_id) p = record p {
  runs = start_run now p.runs run_id asked.collection_id asked.folder_id;
  streams = close_ref p.cleanup p.streams ++ (opened_for (length p.streams) run_id ∷ []);
  cleanup = some (length p.streams);
  is_starting = false;
}
end_run now asked (fails message) p = record p {
  toasts = p.toasts ++ (failure_text message ∷ []);
  is_starting = false;
}

-- An arrival on a stream, with the actions of the callbacks for the stream's run.
unfoldable pub hear_one : Bool → Arrival → OpenStream → OpenStream × List Action
unfolding receive
hear_one true a o =
    let (next, actions) = receive o.run_id o.stream a in (record o { stream = next }, actions)
hear_one false a o = (o, [])

unfoldable pub hear : ℕ → Arrival → List OpenStream → List OpenStream × List Action
unfolding hear_one
hear n a [] = ([], [])
hear n a (o ∷ os) =
    let (next, actions) = hear_one (nat_eq o.number n) a o in
    let (rest, more) = hear n a os in (next ∷ rest, actions ++ more)

unfoldable pub arrive : RunPane → ℕ → Arrival → RunPane
unfolding hear perform_all
arrive p n a =
    let (streams, actions) = hear n a p.streams in
    record p { runs = perform_all p.runs actions; streams = streams }

-- The cleanup of the effect, when the pane is taken off the page.
unfoldable pub leave : RunPane → RunPane
unfolding close_ref
leave p = record p { streams = close_ref p.cleanup p.streams }

-- What happens to the pane, in any order: a click on Run, the answer to one, an arrival on any of
-- the streams, and the pane leaving the page.
pub data PaneEvent : Type 0 where
  begins : Option Collection → Option FolderItem → RunOptions → VariableScope → PaneEvent
  ends : String → Asked → Started → PaneEvent
  arrives : ℕ → Arrival → PaneEvent
  leaves : PaneEvent

unfoldable pub pane_event : RunPane → PaneEvent → RunPane
unfolding begin_run end_run arrive leave
pane_event p (begins collection folder opts scope) = (begin_run collection folder opts scope p).0
pane_event p (ends now asked answer) = end_run now asked answer p
pane_event p (arrives n a) = arrive p n a
pane_event p leaves = leave p

unfoldable pub pane_all : RunPane → List PaneEvent → RunPane
unfolding pane_event
pane_all p [] = p
pane_all p (e ∷ rest) = pane_all (pane_event p e) rest
