-- ===== src/Workspace/Store.antt =====
-- gui/web/src/store/workspace.ts: the state of `useWorkspaceStore` and its actions. An action that
-- draws ids takes `uuid`, the results of `crypto.randomUUID` from its start on; one that returns
-- what it made returns that beside the new state.
pub mod Move
pub mod Counts
pub mod Edits
use reqlet.Common.{
  ℕ, zero, suc, String, ◌<>◌, true, false, Bool, not, ◌&&◌, Option, none, some, List, ◌∷◌, [], ◌++◌,
  ◌==◌, if◌then◌else◌, or_else, map, filter, find, find_index, take, drop, any, truthy,
}
use reqlet.Types.Auth.{AuthConfig, AuthType, auth_of_type}
use reqlet.Types.Request.{HttpMethod, empty_body}
use reqlet.Types.Collection.{
  RequestItem, FolderItem, Items, nil, CollectionItem, Collection, Environment, EnvVariable,
}
use reqlet.Workspace.Ids.{new_id}
use reqlet.Workspace.Tree.{
  PathSegment, SegmentType, RequestWithCollection, ScriptField, find_request_in_items,
  find_folder_in_items, delete_from_list, rename_in_list, update_script_in_list, patch_auth,
  clone_items, duplicate_in_list, Extracted, extract_from_list, insert_into_list,
}

-- `expandedIds` is a list without duplicates, in insertion order.
pub record WorkspaceState : Type 0 where
  pub collections : List Collection
  pub environments : List Environment
  pub global_variables : List EnvVariable
  pub expanded_ids : List String

abbrev pub initial_state : WorkspaceState
initial_state = record {
  collections = [];
  environments = [];
  global_variables = [];
  expanded_ids = [];
}

unfoldable pub set_collections : WorkspaceState → List Collection → WorkspaceState
set_collections s collections = record s { collections = collections }

unfoldable pub set_environments : WorkspaceState → List Environment → WorkspaceState
set_environments s environments = record s { environments = environments }

unfoldable pub is_expanded : WorkspaceState → String → Bool
is_expanded s id = any (λ e. e == id) s.expanded_ids

unfoldable pub toggle_expand : WorkspaceState → String → WorkspaceState
unfolding is_expanded
toggle_expand s id =
    if is_expanded s id
    then record s { expanded_ids = filter (λ e. not (e == id)) s.expanded_ids }
    else record s { expanded_ids = s.expanded_ids ++ (id ∷ []) }

find_request_in : List Collection → String → Option RequestWithCollection
find_request_in [] id = none
find_request_in (c ∷ cs) id =
    or_else (find_request_in_items c.items id c.id) (find_request_in cs id)

unfoldable pub find_request : WorkspaceState → String → Option RequestWithCollection
unfolding find_request_in
find_request s id = find_request_in s.collections id

abbrev collection_segment : Collection → PathSegment
collection_segment c = record { id = c.id; name = c.name; type = SegmentType.collection }

find_folder_path_in : List Collection → String → Option (List PathSegment)
find_folder_path_in [] folder_id = none
find_folder_path_in (c ∷ cs) folder_id =
    or_else (find_folder_in_items c.items folder_id (collection_segment c ∷ []))
      (find_folder_path_in cs folder_id)

unfoldable pub find_folder_path : WorkspaceState → String → Option (List PathSegment)
unfolding find_folder_path_in
find_folder_path s folder_id = find_folder_path_in s.collections folder_id

unfoldable pub add_collection : (ℕ → String) → WorkspaceState → String → Collection × WorkspaceState
add_collection uuid s name =
    let col : Collection = record {
      id = new_id uuid 0;
      name = name;
      description = "";
      items = nil;
      variables = [];
      pre_request_script = "";
      test_script = "";
      auth = auth_of_type AuthType.no_auth;
    } in
    (col, record s { collections = s.collections ++ (col ∷ []) })

unfoldable pub delete_collection : WorkspaceState → String → WorkspaceState
delete_collection s id = record s { collections = filter (λ c. not (c.id == id)) s.collections }

-- `collections.map((c) => c.id === id ? f(c) : c)`
abbrev pub update_collection : String → (Collection → Collection) → WorkspaceState → WorkspaceState
update_collection id f s = record s {
  collections = map (λ c. if c.id == id then f c else c) s.collections;
}

unfoldable pub delete_item : WorkspaceState → String → String → WorkspaceState
delete_item s collection_id item_id =
    update_collection collection_id (λ c. record c { items = delete_from_list c.items item_id }) s

unfoldable pub rename_collection : WorkspaceState → String → String → WorkspaceState
rename_collection s id name = update_collection id (λ c. record c { name = name }) s

unfoldable pub rename_item : WorkspaceState → String → String → String → WorkspaceState
rename_item s collection_id item_id name =
    update_collection collection_id (λ c. record c { items = rename_in_list c.items item_id name })
      s

-- `find` and `findIndex` take the same first match.
unfoldable pub duplicate_collection : (ℕ → String) → WorkspaceState → String → WorkspaceState
duplicate_collection uuid s id = elim (find (λ c. c.id == id) s.collections) [
  | none ↦ s
  | some col ↦
      let clone = record col {
        id = new_id uuid 0;
        name = col.name <> " Copy";
        items = (clone_items uuid col.items 1).0;
      } in
      elim (find_index (λ c. c.id == id) s.collections) [
        | none ↦ record s { collections = clone ∷ s.collections }
        | some idx ↦ record s {
          collections = take (suc idx) s.collections ++ (clone ∷ drop (suc idx) s.collections);
        }
      ]
]

-- The draws of one collection's items come before those of the next, if two have the id.
abbrev pub duplicate_item_from :
    (ℕ → String) → String → String → List Collection → ℕ → List Collection
duplicate_item_from uuid collection_id item_id [] n = []
duplicate_item_from uuid collection_id item_id (c ∷ cs) n =
    let hit = duplicate_in_list uuid c.items item_id n in
    let m : ℕ = if c.id == collection_id then hit.1 else n in
    let c' : Collection = if c.id == collection_id then record c { items = hit.0 } else c in
    c' ∷ duplicate_item_from uuid collection_id item_id cs m

unfoldable pub duplicate_item : (ℕ → String) → WorkspaceState → String → String → WorkspaceState
duplicate_item uuid s collection_id item_id = record s {
  collections = duplicate_item_from uuid collection_id item_id s.collections 0;
}

abbrev new_request : String → RequestItem
new_request id = record {
  id = id;
  name = "New Request";
  method = HttpMethod.get;
  url = "";
  params = [];
  headers = [];
  body = empty_body;
  auth = auth_of_type AuthType.inherit;
  pre_request_script = "";
  test_script = "";
}

unfoldable pub add_request :
    (ℕ → String) → WorkspaceState → String → Option String → RequestItem × WorkspaceState
add_request uuid s collection_id parent_folder_id =
    let req = new_request (new_id uuid 0) in
    let add = λ (c : Collection). record c {
      items = insert_into_list c.items parent_folder_id (CollectionItem.request req);
    } in
    (req, update_collection collection_id add s)

abbrev new_folder : String → FolderItem
new_folder id = record {
  id = id;
  name = "New Folder";
  auth = auth_of_type AuthType.inherit;
  pre_request_script = "";
  test_script = "";
}

unfoldable pub add_folder :
    (ℕ → String) → WorkspaceState → String → Option String → FolderItem × WorkspaceState
add_folder uuid s collection_id parent_folder_id =
    let folder = new_folder (new_id uuid 0) in
    let add = λ (c : Collection). record c {
      items = insert_into_list c.items parent_folder_id (CollectionItem.folder folder nil);
    } in
    (folder, update_collection collection_id add s)

abbrev pub set_collection_script : ScriptField → String → Collection → Collection
set_collection_script ScriptField.pre_request_script value c = record c {
  pre_request_script = value;
}
set_collection_script ScriptField.test_script value c = record c { test_script = value }

unfoldable pub update_collection_script :
    WorkspaceState → String → ScriptField → String → WorkspaceState
update_collection_script s id field value =
    update_collection id (set_collection_script field value) s

unfoldable pub update_item_script :
    WorkspaceState → String → String → ScriptField → String → WorkspaceState
update_item_script s collection_id item_id field value =
    let edit =
      λ (c : Collection). record c { items = update_script_in_list c.items item_id field value } in
    update_collection collection_id edit s

unfoldable pub update_collection_auth : WorkspaceState → String → AuthConfig → WorkspaceState
update_collection_auth s collection_id auth =
    update_collection collection_id (λ c. record c { auth = auth }) s

unfoldable pub update_item_auth : WorkspaceState → String → String → AuthConfig → WorkspaceState
update_item_auth s collection_id item_id auth =
    update_collection collection_id (λ c. record c { items = patch_auth c.items item_id auth }) s

-- The body of the `map` in `moveItem`.
abbrev pub move_in_collection :
    String → String → Option String → CollectionItem → Items → Collection → Collection
move_in_collection source target target_folder item remaining c =
    if (c.id == source) && (c.id == target)
    then record c { items = insert_into_list remaining target_folder item }
    else if c.id == source
    then record c { items = remaining }
    else if c.id == target
    then record c { items = insert_into_list c.items target_folder item }
    else c

-- `targetFolderId && itemId === targetFolderId`
abbrev pub onto_itself : String → Option String → Bool
onto_itself item_id none = false
onto_itself item_id (some target_folder_id) =
    truthy target_folder_id && (item_id == target_folder_id)

unfoldable pub move_item :
    WorkspaceState → String → String → String → Option String → WorkspaceState
move_item s source item_id target target_folder = elim (find (λ c. c.id == source) s.collections) [
  | none ↦ s
  | some src_col ↦
      let out = extract_from_list src_col.items item_id in
      if onto_itself item_id target_folder then s else elim out.item [
        | none ↦ s
        | some item ↦ record s {
          collections =
              map (move_in_collection source target target_folder item out.remaining) s.collections;
        }
      ]
]
