-- ===== src/SidePanel.antt =====
-- gui/web/src/components/layout/side-panel.tsx: the handlers of the collections and environments of
-- the side panel, which change the workspace and the tabs together.
pub mod Drag
pub mod History
pub mod Pages
use reqlet.Common.{
  ℕ, ◌+◌, String, Bool, not, ◌&&◌, Option, none, some, if◌then◌else◌, ◌==◌, truthy, given, find,
  is_some_of,
}
use reqlet.Common.Trim.{trim}
use reqlet.Types.Collection.{
  RequestItem, FolderItem, Collection, Environment, Items, nil, cons_request, cons_folder,
}
use reqlet.Types.Tab.{Tab}
use reqlet.Tabs.State.{
  TabsState, open_request_tab, open_folder_tab, open_collection_tab, open_environment_tab,
  is_collection,
}
use reqlet.Tabs.Actions.{update_tab}
use reqlet.Workspace.Store.{
  WorkspaceState, rename_item, rename_collection, add_request, add_folder, add_collection,
  is_expanded, toggle_expand,
}
use reqlet.Workspace.Variables.{rename_environment, add_environment}
use reqlet.Send.{empty_patch}
use reqlet.Tabs.Patch.{TabPatch}

pub record Stores : Type 0 where
  pub workspace : WorkspaceState
  pub tabs : TabsState

abbrev pub title_patch : String → TabPatch
title_patch title = record empty_patch { title = some title }

-- `if (tab) updateTab(tab.id, { title: trimmed })`
abbrev pub retitle : String → Option Tab → TabsState → TabsState
retitle title none s = s
retitle title (some tab) s = update_tab s tab.id (title_patch title)

-- The title of the first tab that passes the test.
unfoldable pub retitle_first : (Tab → Bool) → String → TabsState → TabsState
unfolding update_tab
retitle_first is title s = retitle title (find is s.tabs) s

-- `if (trimmed && trimmed !== name) { … }`
abbrev pub if_renamed : String → String → Stores → Stores → Stores
if_renamed trimmed name renamed s = if truthy trimmed && not (trimmed == name) then renamed else s

unfoldable pub commit_rename_request : String → RequestItem → String → Stores → Stores
unfolding trim rename_item retitle_first
commit_rename_request collection_id item name s =
    let trimmed = trim name in
    if_renamed trimmed item.name
      (record {
        workspace = rename_item s.workspace collection_id item.id trimmed;
        tabs = retitle_first (λ t. is_some_of t.request_id item.id) trimmed s.tabs;
      })
      s

unfoldable pub commit_rename_folder : String → FolderItem → String → Stores → Stores
unfolding trim rename_item retitle_first
commit_rename_folder collection_id item name s =
    let trimmed = trim name in
    if_renamed trimmed item.name
      (record {
        workspace = rename_item s.workspace collection_id item.id trimmed;
        tabs = retitle_first (λ t. is_some_of t.folder_id item.id) trimmed s.tabs;
      })
      s

unfoldable pub commit_rename_collection : Collection → String → Stores → Stores
unfolding trim rename_collection retitle_first
commit_rename_collection collection name s =
    let trimmed = trim name in
    if_renamed trimmed collection.name
      (record {
        workspace = rename_collection s.workspace collection.id trimmed;
        tabs =
            retitle_first (λ t. is_some_of t.collection_id collection.id && is_collection t.type)
              trimmed s.tabs;
      })
      s

-- Here the new name may be the old one.
unfoldable pub commit_rename_environment : String → String → Stores → Stores
unfolding trim rename_environment retitle_first
commit_rename_environment id name s =
    let trimmed = trim name in
    if truthy trimmed
    then record {
      workspace = rename_environment s.workspace id trimmed;
      tabs = retitle_first (λ t. is_some_of t.environment_id id) trimmed s.tabs;
    }
    else s

-- `if (!expanded) toggleExpand(id)`
abbrev pub expanded : String → WorkspaceState → WorkspaceState
expanded id w = if is_expanded w id then w else toggle_expand w id

-- "Add Request" in a folder, or in a collection where no folder is given. The new tab draws an id of
-- its own.
unfoldable pub handle_add_request : (ℕ → String) → String → String → Option String → Stores → Stores
unfolding add_request is_expanded toggle_expand open_request_tab
handle_add_request uuid tab_uuid collection_id folder_id s =
    let (req, w) = add_request uuid s.workspace collection_id folder_id in
    let shown = given folder_id collection_id in
    record { workspace = expanded shown w; tabs = open_request_tab tab_uuid s.tabs req }

unfoldable pub handle_add_folder : (ℕ → String) → String → String → Option String → Stores → Stores
unfolding add_folder is_expanded toggle_expand open_folder_tab
handle_add_folder uuid tab_uuid collection_id folder_id s =
    let (folder, w) = add_folder uuid s.workspace collection_id folder_id in
    let shown = given folder_id collection_id in
    record {
      workspace = expanded shown w;
      tabs = open_folder_tab tab_uuid s.tabs folder collection_id;
    }

unfoldable pub handle_add_collection : (ℕ → String) → String → Stores → Stores
unfolding add_collection open_collection_tab
handle_add_collection uuid tab_uuid s =
    let (col, w) = add_collection uuid s.workspace "New Collection" in
    record { workspace = w; tabs = open_collection_tab tab_uuid s.tabs col }

unfoldable pub handle_add_environment : (ℕ → String) → String → Stores → Stores
unfolding add_environment open_environment_tab
handle_add_environment uuid tab_uuid s =
    let (env, w) = add_environment uuid s.workspace "New Environment" in
    record { workspace = w; tabs = open_environment_tab tab_uuid s.tabs env }

-- `requestCount`, and `countRequests` of the collection pane
unfoldable pub request_count : Items → ℕ
request_count nil = 0
request_count (cons_request r rest) = 1 + request_count rest
request_count (cons_folder f kids rest) = request_count kids + request_count rest
