-- ===== src/Workspace/Tree/Modify.antt =====
-- Renaming, scripts and authentication: `modify_in_list` and its three uses.
use reqlet.Common.{◌≡◌, refl, String, ◌==◌, arith, Option, none, some, if◌then◌else◌, or_else}
use reqlet.Types.Auth.{AuthConfig}
use reqlet.Types.Collection.{
  RequestItem, FolderItem, Items, nil, cons_request, cons_folder, CollectionItem, request, folder,
}
use reqlet.Workspace.Tree.{
  modify_in_list, rename_in_list, update_script_in_list, patch_auth, ScriptField,
  pre_request_script, test_script, set_request_script, set_folder_script,
}
use reqlet.Workspace.Tree.Count.{count_id}

-- The first item of an id, in the order of the tree.
unfoldable pub find_item : String → Items → Option CollectionItem
find_item id nil = none
find_item id (cons_request r rest) =
    let later = find_item id rest in if r.id == id then some (request r) else later
find_item id (cons_folder f kids rest) =
    let below = or_else (find_item id kids) (find_item id rest) in
    if f.id == id then some (folder f kids) else below

abbrev pub modify_item :
    (RequestItem → RequestItem)
    → (FolderItem → FolderItem)
    → Option CollectionItem
    → Option CollectionItem
modify_item g h none = none
modify_item g h (some (request r)) = some (request (g r))
modify_item g h (some (folder f kids)) = some (folder (h f) kids)

module _ (g : RequestItem → RequestItem) (h : FolderItem → FolderItem)
    (keeps_request : (r : RequestItem) → (g r).id ≡ r.id)
    (keeps_folder : (f : FolderItem) → (h f).id ≡ f.id) where
  pub count_id-modify_in_list :
      (a : String) (items : Items) (id : String)
      → count_id a (modify_in_list g h items id) ≡ count_id a items
  unfolding count_id modify_in_list
  count_id-modify_in_list a nil id = refl
  count_id-modify_in_list a (cons_request r rest) id =
      ground (arith, count_id-modify_in_list a rest id, keeps_request r)
  count_id-modify_in_list a (cons_folder f kids rest) id =
      ground (
        arith,
        count_id-modify_in_list a rest id,
        count_id-modify_in_list a kids id,
        keeps_folder f,
      )

  or_else-modify_item :
      (m n : Option CollectionItem)
      → or_else (modify_item g h m) (modify_item g h n) ≡ modify_item g h (or_else m n)
  or_else-modify_item none n = refl
  or_else-modify_item (some (request r)) n = refl
  or_else-modify_item (some (folder f kids)) n = refl

  -- The item of the id is changed as asked.
  pub find_item-modify_in_list :
      (id : String) (items : Items)
      → find_item id (modify_in_list g h items id) ≡ modify_item g h (find_item id items)
  unfolding find_item modify_in_list
  find_item-modify_in_list id nil = refl
  find_item-modify_in_list id (cons_request r rest) =
      ground (arith, find_item-modify_in_list id rest, keeps_request r)
  find_item-modify_in_list id (cons_folder f kids rest) = ground (
    arith,
    find_item-modify_in_list id rest,
    find_item-modify_in_list id kids,
    keeps_folder f,
    or_else-modify_item (find_item id kids) (find_item id rest),
  )

  -- Two changes in a row are one, if the second undoes nothing but what the first did.
  pub modify_in_list_twice :
      (g' : RequestItem → RequestItem) (h' : FolderItem → FolderItem)
      → ((r : RequestItem) → g' (g r) ≡ g' r)
      → ((f : FolderItem) → h' (h f) ≡ h' f)
      → (items : Items) (id : String)
      → modify_in_list g' h' (modify_in_list g h items id) id ≡ modify_in_list g' h' items id
  unfolding modify_in_list
  modify_in_list_twice g' h' over_r over_f nil id = refl
  modify_in_list_twice g' h' over_r over_f (cons_request r rest) id =
      ground (arith, over_r r, keeps_request r, modify_in_list_twice g' h' over_r over_f rest id)
  modify_in_list_twice g' h' over_r over_f (cons_folder f kids rest) id = ground (
    arith,
    over_f f,
    keeps_folder f,
    modify_in_list_twice g' h' over_r over_f rest id,
    modify_in_list_twice g' h' over_r over_f kids id,
  )

set_request_script_id :
    (field : ScriptField) (value : String) (r : RequestItem)
    → (set_request_script field value r).id ≡ r.id
set_request_script_id pre_request_script value r = refl
set_request_script_id test_script value r = refl

set_folder_script_id :
    (field : ScriptField) (value : String) (f : FolderItem)
    → (set_folder_script field value f).id ≡ f.id
set_folder_script_id pre_request_script value f = refl
set_folder_script_id test_script value f = refl

-- Renaming, a new script and new authentication each keep every id as often as it was.
pub count_id-edits :
    (a : String) (items : Items) (id name value : String) (field : ScriptField) (auth : AuthConfig)
    → (count_id a (rename_in_list items id name) ≡ count_id a items)
      × (count_id a (update_script_in_list items id field value) ≡ count_id a items)
      × (count_id a (patch_auth items id auth) ≡ count_id a items)
unfolding rename_in_list update_script_in_list patch_auth
count_id-edits a items id name value field auth = (
  count_id-modify_in_list _ _ (λ r. refl) (λ f. refl) a items id,
  count_id-modify_in_list _ _ (set_request_script_id field value) (set_folder_script_id field value)
      a items id,
  count_id-modify_in_list _ _ (λ r. refl) (λ f. refl) a items id,
)

-- After a rename, the first item of the id is the one it was, under the new name, with its other
-- fields and a folder's items unchanged.
pub find_item-rename_in_list :
    (items : Items) (id name : String)
    → find_item id (rename_in_list items id name)
      ≡ modify_item
          (λ r. record r { name = name })
          (λ f. record f { name = name })
          (find_item id items)
unfolding rename_in_list
find_item-rename_in_list items id name =
    find_item-modify_in_list _ _ (λ r. refl) (λ f. refl) id items

-- After a script is set, the first item of the id has it in the given field and is otherwise as
-- it was.
pub find_item-update_script_in_list :
    (items : Items) (id value : String) (field : ScriptField)
    → find_item id (update_script_in_list items id field value)
      ≡ modify_item
          (set_request_script field value)
          (set_folder_script field value)
          (find_item id items)
unfolding update_script_in_list
find_item-update_script_in_list items id value field =
    find_item-modify_in_list _ _ (set_request_script_id field value)
      (set_folder_script_id field value) id items

-- The last of two renames of an item counts.
pub rename_in_list_twice :
    (items : Items) (id name name' : String)
    → rename_in_list (rename_in_list items id name) id name' ≡ rename_in_list items id name'
unfolding rename_in_list
rename_in_list_twice items id name name' =
    modify_in_list_twice _ _ (λ r. refl) (λ f. refl) _ _ (λ r. refl) (λ f. refl) items id
