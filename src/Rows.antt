-- ===== src/Rows.antt =====
-- gui/web/src/components/layout/collection-pane.tsx: the rows of the table of a run, one for each
-- request with its result in each iteration (`buildRows`).
pub mod Laws
use reqlet.Common.{
  ℕ, ◌<◌, String, ◌<>◌, Bool, Option, none, some, List, [], ◌∷◌, if◌then◌else◌, nat_eq,
}
use reqlet.Common.Dict.{Dict, lookup, insert}
use reqlet.Types.Run.{RunTestResult, RunEvent}

pub record IterResult : Type 0 where
  pub passed : Bool
  pub status : Option ℕ
  pub duration_ms : Option ℕ
  pub error : Option String
  pub tests : List RunTestResult

-- `iterResults` is a map from the iteration, in insertion order.
pub record RequestRowData : Type 0 where
  pub key : String
  pub name : String
  pub method : String
  pub iter_results : List (ℕ × IterResult)

-- `map.set(i, result)`
abbrev pub set_result : ℕ → IterResult → List (ℕ × IterResult) → List (ℕ × IterResult)
set_result i r [] = (i, r) ∷ []
set_result i r ((j, q) ∷ results) =
    let rest = set_result i r results in if nat_eq j i then (j, r) ∷ results else (j, q) ∷ rest

-- `a ?? b`, where b is a text
abbrev pub text_or : Option String → String → String
text_or none b = b
text_or (some a) b = a

abbrev pub number_or : Option ℕ → ℕ → ℕ
number_or none b = b
number_or (some a) b = a

abbrev pub tests_or_none : Option (List RunTestResult) → List RunTestResult
tests_or_none none = []
tests_or_none (some tests) = tests

abbrev pub event_name : RunEvent → String
event_name evt = text_or evt.name (text_or evt.url "")

abbrev pub event_key : RunEvent → String
event_key evt = text_or evt.method "GET" <> ("::" <> event_name evt)

abbrev pub event_result : RunEvent → IterResult
event_result evt = record {
  passed = evt.passed;
  status = evt.status;
  duration_ms = evt.duration_ms;
  error = evt.error;
  tests = tests_or_none evt.tests;
}

-- The row of the event's key, or a new one.
abbrev pub row_of : RunEvent → Option RequestRowData → RequestRowData
row_of evt none = record {
  key = event_key evt;
  name = event_name evt;
  method = text_or evt.method "GET";
  iter_results = [];
}
row_of evt (some row) = row

abbrev pub with_result : RunEvent → RequestRowData → RequestRowData
with_result evt row = record row {
  iter_results = set_result (number_or evt.iteration 0) (event_result evt) row.iter_results;
}

-- One round of the loop.
unfoldable pub add_event : RunEvent → Dict RequestRowData → Dict RequestRowData
add_event evt row_map =
    insert (event_key evt) (with_result evt (row_of evt (lookup (event_key evt) row_map))) row_map

unfoldable pub add_events : List RunEvent → Dict RequestRowData → Dict RequestRowData
unfolding add_event
add_events [] row_map = row_map
add_events (evt ∷ events) row_map = add_events events (add_event evt row_map)

abbrev pub values : Dict RequestRowData → List RequestRowData
values [] = []
values ((k, row) ∷ rows) = row ∷ values rows

unfoldable pub build_rows : List RunEvent → List RequestRowData
unfolding add_events
build_rows events = values (add_events events [])
