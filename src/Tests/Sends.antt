-- ===== src/Tests/Sends.antt =====
-- Sending and editing: runs of gui/web/src/components/layout/request-pane.tsx and lib/backend.ts.
use reqlet.Common.{
  ℕ, ◌≤◌, ◌≡◌, refl, ◌≢◌, ◌⊎◌, ◌↔◌, inl, inr, String, true, false, none, some, List, [], ◌∷◌, ◌++◌,
  arith, string_dec, ==-ne, filter, find, All,
}
use reqlet.Types.Request.{KeyValuePair, RequestState, HttpMethod, default_request}
use reqlet.Types.Tab.{Tab}
use reqlet.Backend.{
  Call, Answer, reply, malformed, returns, throws, other_error, cancel_call, cancel_request,
}
use reqlet.Backend.Laws.{status_of, cancel_request_lem}
use reqlet.Backend.Types.{SendResponse}
use reqlet.Send.{Page, Sent, kept_response, finish_send}
use reqlet.Send.Settled.{finish_send_lem, reopened_tab_keeps_sending}
use reqlet.Tabs.State.{TabsState, new_request_tab, next_id, reopen_last_closed_tab}
use reqlet.Tabs.Actions.{has_id, close_tab}
use reqlet.Tabs.Reopen.{Around}
use reqlet.Tabs.Valid.{Valid}
use reqlet.Fields.PathVariables.{row_of, row_id}
use reqlet.Fields.{
  stored_variables, path_variable_change, params, headers, value, make_kv, url_change, has_query,
}
use reqlet.Fields.InSync.{
  InSync, Edit, changes, adds, types_url, picks_method, edit_all, FitsAll, edit_all-InSync,
}
use reqlet.Fields.PathRows.{IsOwn, path_variable_change_lem}
use reqlet.Query.{parse_query_params, is_sent}
use reqlet.Tests.Data.{demo, uuid}
use reqlet.Tests.Unique.{three_tabs-Valid}

abbrev answer_ok : SendResponse
answer_ok = record {
  status = 200;
  status_text = "OK";
  time = 12;
  size = 2;
  headers = [];
  body = "{}";
  content_type = "application/json";
  timings = none;
  test_results = none;
  pre_request_error = none;
  test_error = none;
  mutations = none;
  visualizer_html = none;
}

abbrev from_second : Sent
from_second = record { active_tab_id = "t-2"; active_environment_id = none; collection_id = none }

abbrev sending_second : Tab
sending_second = record (new_request_tab "t-2") { is_sending = true }

-- The second of three tabs is sending, and the third has been made active since.
abbrev sending_tabs : TabsState
sending_tabs = record {
  tabs = new_request_tab "t-1" ∷ (sending_second ∷ (new_request_tab "t-3" ∷ []));
  active_tab_id = "t-3";
  closed_tabs = [];
}

abbrev sending_page : Page
sending_page = record { tabs = sending_tabs; workspace = demo; toasts = [] }

second_open : find (has_id "t-2") sending_tabs.tabs ≡ some sending_second
unfolding string_dec
second_open = refl

finish_send_lem_example :
    (u : Tab) × (find
        (has_id "t-2")
        (finish_send uuid from_second (returns answer_ok) sending_page).tabs.tabs
      ≡ some u)
    × (u.is_sending ≡ false)
    × (u.response ≡ some (kept_response answer_ok))
    × (u.request ≡ default_request)
    × ((a : String)
        → a ≢ "t-2"
        → find (has_id a) (finish_send uuid from_second (returns answer_ok) sending_page).tabs.tabs
          ≡ find (has_id a) sending_tabs.tabs)
    × ((finish_send uuid from_second (returns answer_ok) sending_page).tabs.active_tab_id ≡ "t-3")
finish_send_lem_example =
    finish_send_lem uuid from_second (returns answer_ok) sending_page sending_second second_open

abbrev before_second : List Tab
before_second = new_request_tab "t-1" ∷ []

abbrev after_second : List Tab
after_second = new_request_tab "t-3" ∷ []

Around-second : Around sending_tabs before_second sending_second after_second
unfolding string_dec
Around-second = record { tabs = refl; not_before = refl; not_after = refl }

abbrev second_closed : TabsState
second_closed = record {
  tabs = before_second ++ after_second;
  active_tab_id = "t-3";
  closed_tabs = sending_second ∷ [];
}

sending_tabs-Valid : Valid sending_tabs
unfolding string_dec
sending_tabs-Valid = record {
  unique = three_tabs-Valid.unique;
  active = inr (omega arith);
  bounded = omega arith;
}

closes_second : close_tab sending_tabs "t-2" ≡ some second_closed
unfolding close_tab string_dec
closes_second = refl

abbrev reopened_page : Page
reopened_page = record {
  tabs = reopen_last_closed_tab "abcdefgh-1" second_closed;
  workspace = demo;
  toasts = [];
}

reopened_tab_keeps_sending_example :
    (u : Tab) × (find
        (has_id (next_id "abcdefgh-1"))
        (finish_send uuid from_second (throws (other_error "down")) reopened_page).tabs.tabs
      ≡ some u)
    × (u.is_sending ≡ true)
    × ((finish_send uuid from_second (throws (other_error "down")) reopened_page).tabs.active_tab_id
        ≡ next_id "abcdefgh-1")
unfolding string_dec next_id
reopened_tab_keeps_sending_example =
    reopened_tab_keeps_sending "abcdefgh-1" uuid sending_tabs second_closed before_second
      after_second sending_second from_second (throws (other_error "down")) demo [] Around-second
      sending_tabs-Valid refl refl closes_second (==-ne _ _ refl) refl

abbrev one_pair : KeyValuePair
one_pair = record { id = "p1"; enabled = true; key = "q"; value = "1"; description = "" }

abbrev queried : RequestState
queried = record default_request { url = "http://h/?q=1"; params = one_pair ∷ [] }

queried-InSync : InSync queried
unfolding parse_query_params
queried-InSync u = refl

abbrev four_edits : List Edit
four_edits =
    types_url uuid "http://h/?a=1&b=2"
    ∷ (adds params "p2" ∷ (changes headers "h1" (value "x") ∷ (picks_method HttpMethod.post ∷ [])))

four_edits-FitsAll : FitsAll queried four_edits
unfolding parse_query_params
four_edits-FitsAll = ((refl, inl refl), (tt, (tt, (tt, tt))))

edit_all-InSync_example :
    let r = edit_all queried four_edits in
    InSync r
    × (InSync (url_change uuid "http://h/" r)
        ↔ ((has_query "http://h/" ≡ true) ⊎ (filter is_sent r.params ≡ [])))
unfolding parse_query_params
edit_all-InSync_example =
    edit_all-InSync queried four_edits uuid "http://h/" queried-InSync four_edits-FitsAll refl

abbrev with_variable : RequestState
with_variable = record default_request {
  url = "http://h/:id/:x";
  path_variables = some (record (make_kv "id") { key = "id"; value = "7" } ∷ []);
}

path_variable_change_lem_example :
    let old = stored_variables with_variable.path_variables in
    let stored =
      stored_variables
        (path_variable_change (row_id (row_of old "x")) "9" with_variable).path_variables in
    (row_of stored "x" ≡ record (row_of old "x") { value = "9" })
    × ((k : String) → k ≢ "x" → row_of stored k ≡ row_of old k)
    × All IsOwn stored
path_variable_change_lem_example = path_variable_change_lem with_variable "x" "9" (refl, tt)

-- A server that no longer runs the request.
abbrev gone : Call → Answer Unit
gone call = reply 404 (malformed "no body") (malformed "no body")

cancel_request_lem_example : (cancel_request false gone "r/1" ≡ returns tt) ↔ (
    (status : ℕ) × (status_of (gone (cancel_call "r/1")) ≡ some status)
    × (((200 ≤ status) × (status ≤ 299)) ⊎ (status ≡ 404)))
cancel_request_lem_example = cancel_request_lem gone "r/1"
