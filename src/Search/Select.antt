-- ===== src/Search/Select.antt =====
-- gui/web/src/components/search-modal.tsx, `handleSelect`: what choosing a result opens.
use reqlet.Common.{
  String, Bool, false, Option, none, some, List, if◌then◌else◌, ◌==◌, or_else, find,
}
use reqlet.Types.Collection.{
  RequestItem, FolderItem, Items, nil, cons_request, cons_folder, Collection,
}
use reqlet.Tabs.State.{TabsState, open_collection_tab, open_folder_tab, open_request_tab}
use reqlet.Ui.Panels.{UiState, set_search_open}
use reqlet.Search.{SearchResult, of_collection, of_folder, of_request}

-- `findFolder`, which is `findFolderItem` of the collection pane too: a folder's own hit is taken
-- before those below it.
unfoldable pub find_folder : Items → String → Option FolderItem
find_folder nil id = none
find_folder (cons_request r rest) id = find_folder rest id
find_folder (cons_folder f kids rest) id =
    let later = or_else (find_folder kids id) (find_folder rest id) in
    if f.id == id then some f else later

unfoldable pub find_item_request : Items → String → Option RequestItem
find_item_request nil id = none
find_item_request (cons_request r rest) id =
    let later = find_item_request rest id in if r.id == id then some r else later
find_item_request (cons_folder f kids rest) id =
    or_else (find_item_request kids id) (find_item_request rest id)

abbrev pub is_collection_of : String → Collection → Bool
is_collection_of id c = c.id == id

abbrev pub open_found_folder : String → TabsState → String → Option FolderItem → TabsState
open_found_folder uuid s collection_id none = s
open_found_folder uuid s collection_id (some folder) = open_folder_tab uuid s folder collection_id

abbrev pub open_found_request : String → TabsState → Option RequestItem → TabsState
open_found_request uuid s none = s
open_found_request uuid s (some req) = open_request_tab uuid s req

abbrev pub found_folder : Option Collection → String → Option FolderItem
found_folder none id = none
found_folder (some col) id = find_folder col.items id

abbrev pub found_request : Option Collection → String → Option RequestItem
found_request none id = none
found_request (some col) id = find_item_request col.items id

abbrev pub select_tab : String → List Collection → TabsState → SearchResult → TabsState
select_tab uuid collections s (of_collection id label c) = open_collection_tab uuid s c
select_tab uuid collections s (of_folder r) =
    open_found_folder uuid s r.collection_id
      (found_folder (find (is_collection_of r.collection_id) collections) r.id)
select_tab uuid collections s (of_request r) =
    open_found_request uuid s
      (found_request (find (is_collection_of r.collection_id) collections) r.id)

unfoldable pub handle_select :
    String → List Collection → UiState × TabsState → SearchResult → UiState × TabsState
unfolding set_search_open open_collection_tab open_folder_tab open_request_tab find_folder
    find_item_request
handle_select uuid collections (ui, s) r =
    (set_search_open ui false, select_tab uuid collections s r)
