-- ===== src/Tests/Panes.antt =====
-- The panes of a collection and of an environment: runs on the small workspace.
use reqlet.Common.{◌≡◌, refl, ◌≢◌, inr, String, some, [], ◌∷◌, string_dec, ◌==◌, find}
use reqlet.Types.Tab.{Tab, TabType}
use reqlet.Types.Auth.{AuthType, auth_of_type}
use reqlet.Workspace.Variables.{delete_environment}
use reqlet.Tabs.State.{TabsState, new_tab, initial_tabs}
use reqlet.Tabs.Actions.{close_tab}
use reqlet.Search.Select.{find_folder}
use reqlet.CollectionPane.{PaneView, pane_view, auth_edit, shown_auth}
use reqlet.CollectionPane.Edited.{shown_auth-auth_edit}
use reqlet.VariablePanes.{close_gone, close_gone-delete_environment}
use reqlet.Tests.Data.{demo, folder_named, first_collection}
use reqlet.Types.Collection.{Environment}

abbrev folder_tab : Tab
folder_tab = record (new_tab "t-f" TabType.folder "Folder") {
  collection_id = some "c1";
  folder_id = some "f1";
}

abbrev tabs_with_folder : TabsState
tabs_with_folder = record initial_tabs { tabs = folder_tab ∷ []; active_tab_id = "t-f" }

abbrev environment_tab : Tab
environment_tab = record (new_tab "t-e" TabType.environment "Environment") {
  environment_id = some "e1";
}

abbrev tabs_with_environment : TabsState
tabs_with_environment = record initial_tabs { tabs = environment_tab ∷ []; active_tab_id = "t-e" }

abbrev view_of_folder : PaneView
view_of_folder = record {
  tab = folder_tab;
  collection = first_collection;
  folder = some (folder_named "f1");
}

shown_auth-auth_edit_example :
    (u : PaneView) × (pane_view
        (auth_edit view_of_folder (auth_of_type AuthType.no_auth) demo)
        tabs_with_folder
      ≡ some u)
    × (shown_auth u ≡ auth_of_type AuthType.no_auth)
unfolding pane_view find_folder string_dec
shown_auth-auth_edit_example =
    shown_auth-auth_edit demo tabs_with_folder view_of_folder (auth_of_type AuthType.no_auth) refl
      (inr (folder_named "f1", refl))

close_gone-delete_environment_example :
    ((◌≡◌ {A = String} "e1" "e1")
      → close_gone (delete_environment demo "e1") tabs_with_environment
        ≡ close_tab tabs_with_environment "t-e")
    × ((e : Environment)
        → ◌≢◌ {A = String} "e1" "e1"
        → find (λ e'. e'.id == "e1") demo.environments ≡ some e
        → close_gone (delete_environment demo "e1") tabs_with_environment
          ≡ some tabs_with_environment)
unfolding string_dec
close_gone-delete_environment_example =
    close_gone-delete_environment demo tabs_with_environment environment_tab "e1" "e1" refl refl
      refl
