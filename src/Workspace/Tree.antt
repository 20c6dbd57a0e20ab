-- ===== src/Workspace/Tree.antt =====
-- gui/web/src/store/workspace.ts: the functions over the items of a collection.
pub mod Count
pub mod Delete
pub mod Extract
pub mod Modify
pub mod Clone
pub mod Duplicate
pub mod Insert
pub mod Find
use reqlet.Common.{
  ℕ, suc, String, ◌<>◌, true, false, Option, none, some, List, ◌∷◌, [], ◌++◌, ◌==◌, if◌then◌else◌,
  or_else,
}
use reqlet.Types.Auth.{AuthConfig}
use reqlet.Types.Collection.{
  RequestItem, FolderItem, Items, nil, cons_request, cons_folder, CollectionItem, append_item,
}
use reqlet.Workspace.Ids.{new_id}

pub data SegmentType : Type 0 where
  collection folder : SegmentType

pub record PathSegment : Type 0 where
  pub id : String
  pub name : String
  pub type : SegmentType

pub record RequestWithCollection : Type 0 where
  pub request : RequestItem
  pub collection_id : String

pub data ScriptField : Type 0 where
  pre_request_script test_script : ScriptField

-- A loop with an early return: a folder's own hit is taken before the items after it.
unfoldable pub find_request_in_items : Items → String → String → Option RequestWithCollection
find_request_in_items nil id collection_id = none
find_request_in_items (cons_request r rest) id collection_id =
    let later = find_request_in_items rest id collection_id in
    if r.id == id then some (record { request = r; collection_id = collection_id }) else later
find_request_in_items (cons_folder f kids rest) id collection_id =
    or_else (find_request_in_items kids id collection_id)
      (find_request_in_items rest id collection_id)

abbrev pub folder_segment : FolderItem → PathSegment
folder_segment f = record { id = f.id; name = f.name; type = SegmentType.folder }

unfoldable pub find_folder_in_items : Items → String → List PathSegment → Option (List PathSegment)
find_folder_in_items nil folder_id current_path = none
find_folder_in_items (cons_request r rest) folder_id current_path =
    find_folder_in_items rest folder_id current_path
find_folder_in_items (cons_folder f kids rest) folder_id current_path =
    let path = current_path ++ (folder_segment f ∷ []) in
    let found = find_folder_in_items kids folder_id path in
    let later = find_folder_in_items rest folder_id current_path in
    if f.id == folder_id then some path else or_else found later

unfoldable pub delete_from_list : Items → String → Items
delete_from_list nil id = nil
delete_from_list (cons_request r rest) id =
    let kept = delete_from_list rest id in if r.id == id then kept else cons_request r kept
delete_from_list (cons_folder f kids rest) id =
    let kept = delete_from_list rest id in
    if f.id == id then kept else cons_folder f (delete_from_list kids id) kept

-- The recursion that `renameInList`, `updateScriptInList` and `patch` of `updateItemAuth` share:
-- a matching item is changed and not entered, another folder is entered.
unfoldable pub modify_in_list :
    (RequestItem → RequestItem) → (FolderItem → FolderItem) → Items → String → Items
modify_in_list on_request on_folder nil id = nil
modify_in_list on_request on_folder (cons_request r rest) id =
    cons_request (if r.id == id then on_request r else r)
      (modify_in_list on_request on_folder rest id)
modify_in_list on_request on_folder (cons_folder f kids rest) id =
    let rest' = modify_in_list on_request on_folder rest id in
    if f.id == id
    then cons_folder (on_folder f) kids rest'
    else cons_folder f (modify_in_list on_request on_folder kids id) rest'

unfoldable pub rename_in_list : Items → String → String → Items
unfolding modify_in_list
rename_in_list items id name =
    modify_in_list (λ r. record r { name = name }) (λ f. record f { name = name }) items id

abbrev pub set_request_script : ScriptField → String → RequestItem → RequestItem
set_request_script pre_request_script value r = record r { pre_request_script = value }
set_request_script test_script value r = record r { test_script = value }

abbrev pub set_folder_script : ScriptField → String → FolderItem → FolderItem
set_folder_script pre_request_script value f = record f { pre_request_script = value }
set_folder_script test_script value f = record f { test_script = value }

unfoldable pub update_script_in_list : Items → String → ScriptField → String → Items
unfolding modify_in_list
update_script_in_list items id field value =
    modify_in_list (set_request_script field value) (set_folder_script field value) items id

-- `patch` inside `updateItemAuth`
unfoldable pub patch_auth : Items → String → AuthConfig → Items
unfolding modify_in_list
patch_auth items item_id auth =
    modify_in_list (λ r. record r { auth = auth }) (λ f. record f { auth = auth }) items item_id

-- The number is how many ids have been drawn before, and after.
unfoldable pub clone_items : (ℕ → String) → Items → ℕ → Items × ℕ
clone_items uuid nil n = (nil, n)
clone_items uuid (cons_request r rest) n =
    let (rest', n') = clone_items uuid rest (suc n) in
    (cons_request (record r { id = new_id uuid n }) rest', n')
clone_items uuid (cons_folder f kids rest) n =
    let (kids', m) = clone_items uuid kids (suc n) in
    let (rest', n') = clone_items uuid rest m in
    (cons_folder (record f { id = new_id uuid n }) kids' rest', n')

unfoldable pub duplicate_in_list : (ℕ → String) → Items → String → ℕ → Items × ℕ
unfolding clone_items
duplicate_in_list uuid nil id n = (nil, n)
duplicate_in_list uuid (cons_request r rest) id n = elim (r.id == id) [
  | true ↦
      let copy = record r { id = new_id uuid n; name = r.name <> " Copy" } in
      let (rest', n') = duplicate_in_list uuid rest id (suc n) in
      (cons_request r (cons_request copy rest'), n')
  | false ↦ let (rest', n') = duplicate_in_list uuid rest id n in (cons_request r rest', n')
]
duplicate_in_list uuid (cons_folder f kids rest) id n = elim (f.id == id) [
  | true ↦
      let copy = record f { id = new_id uuid n; name = f.name <> " Copy" } in
      let (kids', m) = clone_items uuid kids (suc n) in
      let (rest', n') = duplicate_in_list uuid rest id m in
      (cons_folder f kids (cons_folder copy kids' rest'), n')
  | false ↦
      let (kids', m) = duplicate_in_list uuid kids id n in
      let (rest', n') = duplicate_in_list uuid rest id m in (cons_folder f kids' rest', n')
]

pub record Extracted : Type 0 where
  pub item : Option CollectionItem
  pub remaining : Items

-- The variable `extracted` after the `filter` of `extractFromList`: the last match in this list.
unfoldable pub last_here : String → Option CollectionItem → Items → Option CollectionItem
last_here id extracted nil = extracted
last_here id extracted (cons_request r rest) =
    last_here id (if r.id == id then some (CollectionItem.request r) else extracted) rest
last_here id extracted (cons_folder f kids rest) =
    last_here id (if f.id == id then some (CollectionItem.folder f kids) else extracted) rest

-- The `map` that follows, over the items that the filter kept; a hit below a folder overwrites
-- `extracted`.
unfoldable pub extract_below : String → Option CollectionItem → Items → Extracted
unfolding last_here
extract_below id extracted nil = record { item = extracted; remaining = nil }
extract_below id extracted (cons_request r rest) =
    let out = extract_below id extracted rest in
    if r.id == id then out else record out { remaining = cons_request r out.remaining }
extract_below id extracted (cons_folder f kids rest) = elim (f.id == id) [
  | true ↦ extract_below id extracted rest
  | false ↦
      let r = extract_below id (last_here id none kids) kids in
      elim r.item [
        | some item ↦
            let out = extract_below id (some item) rest in
            record out { remaining = cons_folder f r.remaining out.remaining }
        | none ↦
            let out = extract_below id extracted rest in
            record out { remaining = cons_folder f kids out.remaining }
      ]
]

unfoldable pub extract_from_list : Items → String → Extracted
unfolding extract_below
extract_from_list items id = extract_below id (last_here id none items) items

-- `insertIntoList` with a target folder: the item goes to the end of each folder of that id.
unfoldable pub insert_into_folder : Items → String → CollectionItem → Items
insert_into_folder nil target new_item = nil
insert_into_folder (cons_request r rest) target new_item =
    cons_request r (insert_into_folder rest target new_item)
insert_into_folder (cons_folder f kids rest) target new_item =
    let rest' = insert_into_folder rest target new_item in
    if f.id == target
    then cons_folder f (append_item kids new_item) rest'
    else cons_folder f (insert_into_folder kids target new_item) rest'

unfoldable pub insert_into_list : Items → Option String → CollectionItem → Items
unfolding insert_into_folder
insert_into_list items none new_item = append_item items new_item
insert_into_list items (some target) new_item = insert_into_folder items target new_item
