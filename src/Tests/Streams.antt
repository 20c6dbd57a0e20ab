-- ===== src/Tests/Streams.antt =====
-- Streams of runs and pages of the history: runs of gui/web/src/lib/api.ts, of the collection pane and
-- of the side panel in gui/web/src/components/layout.
use reqlet.SidePanel.History.{HistoryEvent, no_history, reloads, history_event, history_all}
use reqlet.Common.{
  ℕ, zero, suc, ◌+◌, ◌*◌, ◌≡◌, refl, ◌≢◌, String, ◌<>◌, true, Option, none, some, List, [], ◌∷◌,
  ◌++◌, arith, string_dec, leb, ==-ne, length, take,
}
use reqlet.Common.Dict.{lookup}
use reqlet.Types.Run.{RunEvent, RunEventType, RunSummary}
use reqlet.Runs.{no_runs, started, start_run}
use reqlet.Runs.Machine.{perform_all}
use reqlet.Runs.Stream.{opened, Arrival, message, failure, receive_all}
use reqlet.Runs.Outcome.{outcome, heard, concluded, run_lem}
use reqlet.Runs.Pane.{
  RunPane, Asked, runs_as, PaneEvent, ends, arrives, leaves, pane_event, pane_all,
}
use reqlet.Runs.CutOff.{cut_off_run_stays}
use reqlet.Backend.Types.{HistoryEntry}
use reqlet.SidePanel.Pages.{page_of, turn_pages, refetched_page_appends}
use reqlet.Tests.Data.{three_tabs}

abbrev event_of : RunEventType → Option RunSummary → RunEvent
event_of type summary = record {
  type = type;
  total = none;
  iterations = none;
  iteration = none;
  index = none;
  name = some "Get";
  method = some "GET";
  url = none;
  status = some 200;
  duration_ms = some 5;
  tests = none;
  passed = true;
  skipped = none;
  error = none;
  summary = summary;
}

abbrev end_summary : RunSummary
end_summary = record {
  run_id = "run-1";
  collection_id = "c1";
  started_at = "2024";
  duration_ms = 5;
  total = 1;
  passed = 1;
  failed = 0;
}

-- A request, the end, and a failure of the connection after it.
abbrev three_arrivals : List Arrival
three_arrivals =
    message (event_of RunEventType.request none)
    ∷ (message (event_of RunEventType.done (some end_summary)) ∷ (failure ∷ []))

run_lem_example :
    lookup "run-1"
      (perform_all
        (start_run "2024" no_runs "run-1" "c1" none)
        (receive_all "run-1" opened three_arrivals)).runs
    ≡ some (
        concluded
          (outcome three_arrivals)
          (record (started "2024" "c1" none) { events = heard three_arrivals }))
run_lem_example = run_lem no_runs "2024" "run-1" "c1" none three_arrivals

abbrev idle_pane : RunPane
idle_pane = record {
  tabs = three_tabs;
  runs = no_runs;
  streams = [];
  cleanup = none;
  is_starting = true;
  toasts = [];
}

abbrev second_asked : Asked
second_asked = record {
  collection_id = "c2";
  folder_id = none;
  options = record {
    iterations = some 1;
    delay_ms = none;
    bail = none;
    folder = none;
    variables = none;
  };
}

-- The first run is started, and its end comes after the second was started.
abbrev first : List PaneEvent
first = ends "2024" second_asked (runs_as "run-1") ∷ []

abbrev late : List PaneEvent
late = arrives 0 (message (event_of RunEventType.done (some end_summary))) ∷ []

other_run : ◌≢◌ {A = String} "run-2" "run-1"
unfolding string_dec
other_run = ==-ne "run-2" "run-1" refl

cut_off_run_stays_example :
    let before = pane_all idle_pane first in
    let next = pane_event before (ends "2025" second_asked (runs_as "run-2")) in
    (lookup "run-1" (pane_all next late).runs.runs ≡ lookup "run-1" before.runs.runs)
    × (lookup "run-1" (pane_all (pane_event before leaves) late).runs.runs
        ≡ lookup "run-1" before.runs.runs)
cut_off_run_stays_example =
    cut_off_run_stays idle_pane first late "run-1" "run-2" "2025" second_asked refl other_run
      (tt, tt)

abbrev entry_of : String → HistoryEntry
entry_of id = record {
  id = id;
  timestamp = "2024";
  method = "GET";
  url = "http://h";
  status = 200;
  duration_ms = 5;
}

abbrev entries_from : ℕ → String → List HistoryEntry
entries_from zero id = []
entries_from (suc n) id = entry_of id ∷ entries_from n ("1" <> id)

-- Two pages, the second with ten entries.
abbrev sixty_entries : List HistoryEntry
sixty_entries = entries_from 60 ""

-- The second page after one more entry has come.
abbrev second_page : List HistoryEntry
second_page = page_of (entry_of "new" ∷ sixty_entries) 50

refetched_page_appends_example :
    let shown = history_all (history_event no_history reloads) (turn_pages sixty_entries 0 1) in
    (shown.entries ≡ take (1 * 50 + 50) sixty_entries)
    × (shown.has_more ≡ leb (1 * 50 + 50) (length sixty_entries))
    × ((history_event shown (HistoryEvent.arrives second_page)).entries
        ≡ take (1 * 50 + 50) sixty_entries ++ second_page)
    × ((history_all shown (reloads ∷ (HistoryEvent.arrives second_page ∷ []))).entries
        ≡ second_page)
refetched_page_appends_example =
    refetched_page_appends no_history sixty_entries second_page 0 (omega arith)
