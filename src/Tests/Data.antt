-- ===== src/Tests/Data.antt =====
-- Requests, folders, collections, environments and tabs for the runs.
use reqlet.Common.{ℕ, String, true, List, [], ◌∷◌}
use reqlet.Types.Auth.{AuthType, auth_of_type}
use reqlet.Types.Request.{get, empty_body}
use reqlet.Types.Collection.{
  RequestItem, FolderItem, Items, nil, cons_request, cons_folder, EnvVariable, Collection,
  Environment,
}
use reqlet.Workspace.Store.{WorkspaceState, initial_state}
use reqlet.Tabs.State.{new_request_tab, TabsState}

abbrev pub request_named : String → RequestItem
request_named id = record {
  id = id;
  name = "Request";
  method = get;
  url = "https://api.test/{{path}}";
  params = [];
  headers = [];
  body = empty_body;
  auth = auth_of_type AuthType.inherit;
  pre_request_script = "";
  test_script = "";
}

abbrev pub folder_named : String → FolderItem
folder_named id = record {
  id = id;
  name = "Folder";
  auth = auth_of_type AuthType.inherit;
  pre_request_script = "";
  test_script = "";
}

-- A folder "f1" with a request "r2" and an empty folder "f2", then a request "r1".
abbrev pub two_levels : Items
two_levels =
    cons_folder (folder_named "f1")
      (cons_request (request_named "r2") (cons_folder (folder_named "f2") nil nil))
      (cons_request (request_named "r1") nil)

abbrev pub variable_named : String → String → String → EnvVariable
variable_named id key value = record {
  id = id;
  enabled = true;
  key = key;
  initial_value = value;
  current_value = "";
}

abbrev pub collection_named : String → List EnvVariable → Items → Collection
collection_named id variables items = record {
  id = id;
  name = "Collection";
  description = "";
  auth = auth_of_type AuthType.inherit;
  variables = variables;
  pre_request_script = "";
  test_script = "";
  items = items;
}

abbrev pub first_collection : Collection
first_collection =
    collection_named "c1" (variable_named "v1" "host" "{{name}}.test" ∷ []) two_levels

abbrev pub second_collection : Collection
second_collection = collection_named "c2" [] nil

abbrev pub staging : Environment
staging = record {
  id = "e1";
  name = "Staging";
  variables = variable_named "v2" "name" "staging" ∷ [];
}

abbrev pub demo : WorkspaceState
demo = record initial_state {
  collections = first_collection ∷ (second_collection ∷ []);
  environments = staging ∷ [];
}

abbrev pub uuid : ℕ → String
uuid n = "12345678-90ab-cdef"

abbrev pub three_tabs : TabsState
three_tabs = record {
  tabs = new_request_tab "t-1" ∷ (new_request_tab "t-2" ∷ (new_request_tab "t-3" ∷ []));
  active_tab_id = "t-2";
  closed_tabs = [];
}
