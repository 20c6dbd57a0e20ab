-- ===== src/Send.antt =====
-- gui/web/src/components/layout/request-pane.tsx, `handleSend`: the request that is sent for a tab,
-- and what the page does when the answer is there. The page goes on in between, so the handler is
-- two steps, with what its closure captured.
pub mod Request
pub mod Settled
use reqlet.Common.{
  ℕ, ◌+◌, ◌<◌, String, ◌<>◌, true, false, Option, none, some, List, [], ◌∷◌, ◌++◌, find,
}
use reqlet.Types.Response.{ResponseData, VariableMutations}
use reqlet.Types.Tab.{Tab}
use reqlet.Tabs.State.{TabsState}
use reqlet.Tabs.Patch.{TabPatch}
use reqlet.Tabs.Actions.{has_id, update_tab}
use reqlet.Workspace.Store.{WorkspaceState, find_request}
use reqlet.Mutations.{apply_variable_mutations}
use reqlet.Scope.Merge.{VariableScope, chosen}
use reqlet.Ui.Settings.{AppSettings}
use reqlet.Backend.{Thrown, backend_error, other_error, Result, returns, throws}
use reqlet.Backend.Types.{SendRequest, SendResponse}
use reqlet.Send.Request.{send_request_of}

abbrev pub empty_patch : TabPatch
empty_patch = record {
  id = none;
  type = none;
  title = none;
  dirty = none;
  request_id = none;
  collection_id = none;
  folder_id = none;
  environment_id = none;
  request = none;
  is_sending = none;
  response = none;
  request_sub_tab = none;
  response_sub_tab = none;
  collection_sub_tab = none;
  run_options = none;
  run_selected_run_id = none;
}

-- What the store's actions and the notifications change.
pub record Page : Type 0 where
  pub tabs : TabsState
  pub workspace : WorkspaceState
  pub toasts : List String

-- What the closure of the handler holds while the request is away.
pub record Sent : Type 0 where
  pub active_tab_id : String
  pub active_environment_id : Option String
  pub collection_id : Option String

-- `activeTab.collectionId`, or the collection of the tab's request
unfoldable pub collection_of_tab : WorkspaceState → Option Tab → Option String
collection_of_tab w none = none
collection_of_tab w (some tab) = elim (chosen tab.collection_id) [
  | some id ↦ some id
  | none ↦ elim (chosen tab.request_id) [
    | none ↦ none
    | some id ↦ elim (find_request w id) [ none ↦ none | some found ↦ some found.collection_id ]
  ]
]

abbrev pub sending_patch : TabPatch
sending_patch = record empty_patch { is_sending = some true; response = some none }

-- Up to `await sendRequest(…)`: nothing without an active tab.
unfoldable pub start_send :
    AppSettings → VariableScope → Option String → Page → Page × Option (SendRequest × Sent)
unfolding send_request_of collection_of_tab update_tab
start_send settings scope active_environment_id p =
    elim (find (has_id p.tabs.active_tab_id) p.tabs.tabs) [
      | none ↦ (p, none)
      | some tab ↦ (
        record p { tabs = update_tab p.tabs p.tabs.active_tab_id sending_patch },
        some (
          send_request_of settings scope tab,
          record {
            active_tab_id = p.tabs.active_tab_id;
            active_environment_id = active_environment_id;
            collection_id = collection_of_tab p.workspace (some tab);
          },
        ),
      )
    ]

-- The response that the tab keeps: without `timings` and `visualizerHtml`.
abbrev pub kept_response : SendResponse → ResponseData
kept_response resp = record {
  status = resp.status;
  status_text = resp.status_text;
  time = resp.time;
  size = resp.size;
  headers = resp.headers;
  body = resp.body;
  content_type = resp.content_type;
  timings = none;
  test_results = resp.test_results;
  pre_request_error = resp.pre_request_error;
  test_error = resp.test_error;
  mutations = resp.mutations;
  visualizer_html = none;
}

abbrev pub response_patch : SendResponse → TabPatch
response_patch resp = record empty_patch {
  is_sending = some false;
  response = some (some (kept_response resp));
}

abbrev pub error_patch : TabPatch
error_patch = record empty_patch { is_sending = some false }

-- `toast.error(`${code}: ${message}`)`
abbrev pub toast_of : Thrown → String
toast_of (backend_error code message) = code <> (": " <> message)
toast_of (other_error message) = "network_error" <> (": " <> message)

-- `if (resp.mutations) applyVariableMutations(…)`
abbrev pub with_mutations :
    (ℕ → String) → Option VariableMutations → Sent → WorkspaceState → WorkspaceState
with_mutations uuid none sent w = w
with_mutations uuid (some mutations) sent w =
    apply_variable_mutations uuid mutations sent.active_environment_id sent.collection_id w

-- From the answer on.
unfoldable pub finish_send : (ℕ → String) → Sent → Result SendResponse → Page → Page
unfolding update_tab apply_variable_mutations
finish_send uuid sent (returns resp) p = record p {
  tabs = update_tab p.tabs sent.active_tab_id (response_patch resp);
  workspace = with_mutations uuid resp.mutations sent p.workspace;
}
finish_send uuid sent (throws err) p = record p {
  tabs = update_tab p.tabs sent.active_tab_id error_patch;
  toasts = p.toasts ++ (toast_of err ∷ []);
}
