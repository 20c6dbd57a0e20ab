-- ===== src/CollectionPane.antt =====
-- gui/web/src/components/layout/collection-pane.tsx: what the pane shows of the active tab, and what
-- its breadcrumb, its sub-tabs and its editors do. Its runs are in Runs.Pane and Runs.View.
pub mod Found
pub mod Edited
use reqlet.Common.{
  ℕ, ◌-◌, String, Bool, true, false, Option, none, some, List, [], ◌∷◌, if◌then◌else◌, ◌==◌, nat_eq,
  truthy, or_else, given, length, find,
}
use reqlet.Types.Auth.{AuthConfig, AuthType, auth_of_type}
use reqlet.Types.Collection.{Collection, FolderItem, Items, nil, cons_request, cons_folder}
use reqlet.Types.Run.{RunOptions}
use reqlet.Types.Tab.{Tab, TabType, CollectionSubTab}
use reqlet.Workspace.Tree.{PathSegment, SegmentType, ScriptField}
use reqlet.Workspace.Store.{
  WorkspaceState, find_folder_path, update_collection_script, update_item_script,
  update_collection_auth, update_item_auth,
}
use reqlet.Tabs.State.{
  TabsState, is_collection, open_collection_tab, open_folder_tab, default_run_options,
}
use reqlet.Tabs.Actions.{has_id, set_tab_collection_sub_tab, update_tab}
use reqlet.Search.Select.{find_folder, is_collection_of, open_found_folder}
use reqlet.SidePanel.{request_count}
use reqlet.Runs.View.{iterations_of, delay_of}
use reqlet.Send.{empty_patch}

-- `collections.find((c) => c.id === activeTab?.collectionId)`
abbrev pub collection_of : Option String → List Collection → Option Collection
collection_of none cs = none
collection_of (some id) cs = find (is_collection_of id) cs

-- What the pane is about: the collection, and in a folder's tab the folder, if it is found.
pub record PaneView : Type 0 where
  pub tab : Tab
  pub collection : Collection
  pub folder : Option FolderItem

abbrev pub truthy_id : Option String → Option String
truthy_id none = none
truthy_id (some id) = if truthy id then some id else none

abbrev pub folder_in : Collection → Option String → Option FolderItem
folder_in c none = none
folder_in c (some id) = find_folder c.items id

abbrev pub is_shown : TabType → Bool
is_shown TabType.collection = true
is_shown TabType.folder = true
is_shown TabType.request = false
is_shown TabType.environment = false
is_shown TabType.globals = false

abbrev pub view_of : Tab → Option Collection → Option PaneView
view_of t none = none
view_of t (some c) =
    if is_shown t.type
    then some (record {
      tab = t;
      collection = c;
      folder = if is_collection t.type then none else folder_in c (truthy_id t.folder_id);
    })
    else none

abbrev pub pane_of : List Collection → Option Tab → Option PaneView
pane_of cs none = none
pane_of cs (some t) = view_of t (collection_of t.collection_id cs)

-- `null` for a tab of another type and for a collection that is gone
unfoldable pub pane_view : WorkspaceState → TabsState → Option PaneView
unfolding find_folder
pane_view w s = pane_of w.collections (find (has_id s.active_tab_id) s.tabs)

abbrev pub name_of : Option FolderItem → String
name_of none = ""
name_of (some f) = f.name

unfoldable pub display_name : PaneView → String
display_name v = if is_collection v.tab.type then v.collection.name else name_of v.folder

abbrev pub folder_auth : Option FolderItem → AuthConfig
folder_auth none = auth_of_type AuthType.inherit
folder_auth (some f) = f.auth

unfoldable pub shown_auth : PaneView → AuthConfig
shown_auth v = if is_collection v.tab.type then v.collection.auth else folder_auth v.folder

unfoldable pub breadcrumb_segments : WorkspaceState → PaneView → List PathSegment
unfolding find_folder_path
breadcrumb_segments w v =
    let own =
      record { id = v.collection.id; name = v.collection.name; type = SegmentType.collection }
      ∷ [] in
    if is_collection v.tab.type then own else elim (truthy_id v.tab.folder_id) [
      | none ↦ own
      | some id ↦ elim (find_folder_path w id) [ none ↦ own | some path ↦ path ]
    ]

abbrev pub is_collection_segment : SegmentType → Bool
is_collection_segment SegmentType.collection = true
is_collection_segment SegmentType.folder = false

abbrev pub open_found_collection : String → TabsState → Option Collection → TabsState
open_found_collection uuid s none = s
open_found_collection uuid s (some c) = open_collection_tab uuid s c

-- A click on the segment at an index; the last one does nothing.
unfoldable pub breadcrumb_click :
    String → WorkspaceState → PaneView → List PathSegment → ℕ → PathSegment → TabsState → TabsState
unfolding open_collection_tab open_folder_tab find_folder
breadcrumb_click uuid w v segments i seg s =
    if nat_eq i (length segments - 1)
    then s
    else if is_collection_segment seg.type
    then open_found_collection uuid s (find (is_collection_of seg.id) w.collections)
    else open_found_folder uuid s v.collection.id (find_folder v.collection.items seg.id)

unfoldable pub choose_sub_tab : CollectionSubTab → TabsState → TabsState
unfolding set_tab_collection_sub_tab
choose_sub_tab sub s = set_tab_collection_sub_tab s s.active_tab_id sub

-- `activeTab.folderId!`: an id that is missing is no item's.
abbrev pub item_auth : Collection → AuthConfig → WorkspaceState → Option String → WorkspaceState
item_auth c a w none = w
item_auth c a w (some id) = update_item_auth w c.id id a

unfoldable pub auth_edit : PaneView → AuthConfig → WorkspaceState → WorkspaceState
unfolding update_collection_auth update_item_auth
auth_edit v a w =
    if is_collection v.tab.type
    then update_collection_auth w v.collection.id a
    else item_auth v.collection a w v.tab.folder_id

-- The editors of a folder's scripts are there only if the folder is found.
unfoldable pub script_edit : PaneView → ScriptField → String → WorkspaceState → WorkspaceState
unfolding update_collection_script update_item_script
script_edit v field text w =
    if is_collection v.tab.type
    then update_collection_script w v.collection.id field text
    else elim v.folder [ none ↦ w | some f ↦ update_item_script w v.collection.id f.id field text ]

-- The items of the folder that `findFolderItem` finds.
unfoldable pub items_of_folder : Items → String → Option Items
items_of_folder nil id = none
items_of_folder (cons_request r rest) id = items_of_folder rest id
items_of_folder (cons_folder f kids rest) id =
    let later = or_else (items_of_folder kids id) (items_of_folder rest id) in
    if f.id == id then some kids else later

abbrev pub count_in : Option Items → ℕ
count_in none = 0
count_in (some items) = request_count items

unfoldable pub item_count : PaneView → ℕ
unfolding request_count items_of_folder
item_count v =
    if is_collection v.tab.type
    then request_count v.collection.items
    else elim v.folder [ none ↦ 0 | some f ↦ count_in (items_of_folder v.collection.items f.id) ]

-- The fields of the runs' tab: what `parseInt` gives, and the box.
pub data RunOptionsEdit : Type 0 where
  iterations delay : Option ℕ → RunOptionsEdit
  bail : Bool → RunOptionsEdit

unfoldable pub change_options : RunOptionsEdit → RunOptions → RunOptions
unfolding iterations_of delay_of
change_options (iterations n) o = record o { iterations = some (iterations_of n) }
change_options (delay n) o = record o { delay_ms = some (delay_of n) }
change_options (bail b) o = record o { bail = some b }

-- `activeTab?.runOptions ?? { … }`
abbrev pub run_options_of : Tab → RunOptions
run_options_of t = given t.run_options default_run_options

unfoldable pub options_change : RunOptionsEdit → PaneView → TabsState → TabsState
unfolding change_options update_tab
options_change e v s =
    update_tab s s.active_tab_id
      (record empty_patch { run_options = some (some (change_options e (run_options_of v.tab))) })
