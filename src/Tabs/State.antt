-- ===== src/Tabs/State.antt =====
-- gui/web/src/store/tabs.ts: the state of `useTabsStore` and the actions that open tabs. An action
-- that draws an id takes `uuid`, what its call of `crypto.randomUUID` returns.
use Prim.Native.String.{slice}
use reqlet.Common.{
  String, ◌<>◌, Bool, true, false, ◌&&◌, none, some, List, ◌∷◌, [], ◌++◌, is_some_of, find,
}
use reqlet.Types.Request.{RequestState, default_request}
use reqlet.Types.Collection.{RequestItem, FolderItem, Collection, Environment}
use reqlet.Types.Run.{RunOptions}
use reqlet.Types.Tab.{Tab, TabType, RequestSubTab, ResponseSubTab, CollectionSubTab}

unfoldable pub next_id : String → String
next_id uuid = "t-" <> slice uuid 0 8

abbrev pub default_run_options : RunOptions
default_run_options = record {
  iterations = some 1;
  delay_ms = some 0;
  bail = some false;
  folder = none;
  variables = none;
}

-- A tab with `TAB_DEFAULTS`, no reference to an item, and not dirty.
abbrev pub new_tab : String → TabType → String → Tab
new_tab id type title = record {
  id = id;
  type = type;
  title = title;
  dirty = false;
  request_id = none;
  collection_id = none;
  folder_id = none;
  environment_id = none;
  request = default_request;
  is_sending = false;
  response = none;
  request_sub_tab = RequestSubTab.params;
  response_sub_tab = ResponseSubTab.body;
  collection_sub_tab = CollectionSubTab.overview;
  run_options = some default_run_options;
  run_selected_run_id = none;
}

-- `newRequestTab()`
abbrev pub new_request_tab : String → Tab
new_request_tab id = new_tab id TabType.request "New Request"

pub record TabsState : Type 0 where
  pub tabs : List Tab
  pub active_tab_id : String
  pub closed_tabs : List Tab

abbrev pub initial_tabs : TabsState
initial_tabs = record {
  tabs = new_request_tab "tab-init" ∷ [];
  active_tab_id = "tab-init";
  closed_tabs = [];
}

unfoldable pub set_active_tab : TabsState → String → TabsState
set_active_tab s id = record s { active_tab_id = id }

abbrev pub get_last : Tab → List Tab → Tab
get_last t [] = t
get_last t (u ∷ us) = get_last u us

-- `slice(0, -1)` of a list that begins with t
abbrev pub but_last : Tab → List Tab → List Tab
but_last t [] = []
but_last t (u ∷ us) = t ∷ but_last u us

abbrev pub reopen : String → TabsState → List Tab → TabsState
reopen uuid s [] = s
reopen uuid s (t ∷ ts) =
    let restored = record (get_last t ts) { id = next_id uuid } in
    record s {
      tabs = s.tabs ++ (restored ∷ []);
      active_tab_id = restored.id;
      closed_tabs = but_last t ts;
    }

unfoldable pub reopen_last_closed_tab : String → TabsState → TabsState
reopen_last_closed_tab uuid s = reopen uuid s s.closed_tabs

-- What the `open…Tab` actions share: a tab that is there is made active, or else the new one is
-- added and made active.
abbrev pub open_or_add : (Tab → Bool) → Tab → TabsState → TabsState
open_or_add is_it tab s = elim (find is_it s.tabs) [
  | some existing ↦ record s { active_tab_id = existing.id }
  | none ↦ record s { tabs = s.tabs ++ (tab ∷ []); active_tab_id = tab.id }
]

abbrev is_globals : TabType → Bool
is_globals TabType.globals = true
is_globals _ = false

abbrev pub is_collection : TabType → Bool
is_collection TabType.collection = true
is_collection _ = false

abbrev is_folder : TabType → Bool
is_folder TabType.folder = true
is_folder _ = false

abbrev pub is_environment : TabType → Bool
is_environment TabType.environment = true
is_environment _ = false

abbrev pub shows_collection : String → Tab → Bool
shows_collection id t = is_collection t.type && is_some_of t.collection_id id

abbrev pub shows_folder : String → Tab → Bool
shows_folder id t = is_folder t.type && is_some_of t.folder_id id

abbrev pub shows_globals : Tab → Bool
shows_globals t = is_globals t.type

abbrev pub shows_environment : String → Tab → Bool
shows_environment id t = is_environment t.type && is_some_of t.environment_id id

abbrev pub shows_request : String → Tab → Bool
shows_request id t = is_some_of t.request_id id

unfoldable pub open_collection_tab : String → TabsState → Collection → TabsState
open_collection_tab uuid s collection =
    open_or_add (shows_collection collection.id)
      (record (new_tab (next_id uuid) TabType.collection collection.name) {
        collection_id = some collection.id;
      })
      s

unfoldable pub open_folder_tab : String → TabsState → FolderItem → String → TabsState
open_folder_tab uuid s folder collection_id =
    open_or_add (shows_folder folder.id)
      (record (new_tab (next_id uuid) TabType.folder folder.name) {
        folder_id = some folder.id;
        collection_id = some collection_id;
      })
      s

unfoldable pub open_globals_tab : String → TabsState → TabsState
open_globals_tab uuid s =
    open_or_add shows_globals (new_tab (next_id uuid) TabType.globals "Globals") s

unfoldable pub open_environment_tab : String → TabsState → Environment → TabsState
open_environment_tab uuid s env =
    open_or_add (shows_environment env.id)
      (record (new_tab (next_id uuid) TabType.environment env.name) {
        environment_id = some env.id;
      })
      s

-- The `request` of `openRequestTab`, which leaves the path variables and the settings out.
abbrev pub request_of_item : RequestItem → RequestState
request_of_item item = record {
  method = item.method;
  url = item.url;
  params = item.params;
  headers = item.headers;
  body = item.body;
  auth = item.auth;
  pre_request_script = item.pre_request_script;
  test_script = item.test_script;
  path_variables = none;
  settings = none;
}

unfoldable pub open_request_tab : String → TabsState → RequestItem → TabsState
open_request_tab uuid s item =
    open_or_add (shows_request item.id)
      (record (new_request_tab (next_id uuid)) {
        title = item.name;
        request_id = some item.id;
        request = request_of_item item;
      })
      s

unfoldable pub open_new_tab : String → TabsState → TabsState
open_new_tab uuid s =
    let tab = new_request_tab (next_id uuid) in
    record s { tabs = s.tabs ++ (tab ∷ []); active_tab_id = tab.id }
