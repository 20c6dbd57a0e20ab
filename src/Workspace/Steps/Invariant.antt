-- ===== src/Workspace/Steps/Invariant.antt =====
-- The ids through runs of the actions of gui/web/src/store/workspace.ts.
use reqlet.Common.{refl, ap, arith}
use reqlet.Workspace.Tree.{pre_request_script}
use reqlet.Workspace.Tree.Count.{count_id, count_item}
use reqlet.Workspace.Tree.Delete.{count_id-delete_from_list-le}
use reqlet.Workspace.Tree.Modify.{count_id-edits}
use reqlet.Workspace.Store.{
  WorkspaceState, toggle_expand, delete_collection, delete_item, rename_collection, rename_item,
  add_request, add_folder, update_collection_script, update_item_script, update_collection_auth,
  update_item_auth, set_collection_script,
}
use reqlet.Workspace.Store.Counts.{total-filter-le, count_collections-filter-le}
use reqlet.Workspace.Variables.{
  add_environment, delete_environment, rename_environment, add_environment_variable,
  delete_environment_variable, update_environment_variable, add_collection_variable,
  delete_collection_variable, update_collection_variable, add_global_variable,
  delete_global_variable, update_global_variable,
}
use reqlet.Workspace.Steps.{
  Step, Reach, here, next, toggles, adds_collection, deletes_collection, deletes_item,
  renames_collection, renames_item, duplicates_collection, duplicates_item, adds_request,
  adds_folder, scripts_collection, scripts_item, authorizes_collection, authorizes_item, moves,
  adds_environment, adds_collection_variable, deletes_collection_variable,
  updates_collection_variable,
}
use reqlet.Workspace.Steps.Edits.{
  WellFormed, edit-WellFormed, add_collection-WellFormed, insert-WellFormed,
  duplicate_item-WellFormed,
}
use reqlet.Workspace.Steps.Moves.{
  move_item-WellFormed, add_collection_variable-eq, set_collection_script-keeps,
  WellFormed-of_collections, duplicate_collection-WellFormed,
}

-- Each action keeps ids unique.
Step-WellFormed : {s t : WorkspaceState} → Step s t → WellFormed s → WellFormed t
unfolding toggle_expand delete_collection delete_item rename_collection rename_item add_request
    add_folder update_collection_script update_item_script update_collection_auth update_item_auth
    add_environment delete_environment rename_environment add_environment_variable
    delete_environment_variable update_environment_variable add_collection_variable
    delete_collection_variable update_collection_variable add_global_variable delete_global_variable
    update_global_variable count_item
Step-WellFormed {s} (toggles id) w = WellFormed-of_collections s _ (ground arith) w
Step-WellFormed {s} (adds_collection uuid name fresh) w =
    add_collection-WellFormed uuid s w name fresh
Step-WellFormed {s} (deletes_collection id) w = record {
  unique_collections =
      λ a. omega (arith, count_collections-filter-le a _ s.collections, w.unique_collections a);
  unique_items = λ a. omega (arith, total-filter-le a _ s.collections, w.unique_items a);
}
Step-WellFormed {s} (deletes_item id item) w =
    edit-WellFormed id _ s (λ c. refl) (λ a c. count_id-delete_from_list-le a item c.items) w
Step-WellFormed {s} (renames_collection id name) w =
    edit-WellFormed id _ s (λ c. refl) (λ a c. omega arith) w
Step-WellFormed {s} (renames_item id item name) w =
    edit-WellFormed id _ s (λ c. refl)
      (λ a c. omega (arith, (count_id-edits a c.items item name name pre_request_script c.auth).0))
      w
Step-WellFormed {s} (duplicates_collection uuid id fresh) w =
    duplicate_collection-WellFormed uuid s id w fresh
Step-WellFormed {s} (duplicates_item uuid id item fresh) w =
    duplicate_item-WellFormed uuid s w id item fresh
Step-WellFormed {s} (adds_request uuid id folder fresh) w =
    insert-WellFormed uuid s w id folder _ (λ a. omega arith) fresh
Step-WellFormed {s} (adds_folder uuid id folder fresh) w =
    insert-WellFormed uuid s w id folder _ (λ a. omega arith) fresh
Step-WellFormed {s} (scripts_collection id field value) w =
    edit-WellFormed id (set_collection_script field value) s
      (λ c. (set_collection_script-keeps field value c).0)
      (λ a c. omega (arith, ap (count_id a) (set_collection_script-keeps field value c).1)) w
Step-WellFormed {s} (scripts_item id item field value) w =
    edit-WellFormed id _ s (λ c. refl)
      (λ a c. omega (arith, (count_id-edits a c.items item value value field c.auth).1)) w
Step-WellFormed {s} (authorizes_collection id auth) w =
    edit-WellFormed id _ s (λ c. refl) (λ a c. omega arith) w
Step-WellFormed {s} (authorizes_item id item auth) w =
    edit-WellFormed id _ s (λ c. refl)
      (λ a c. omega (arith, (count_id-edits a c.items item item item pre_request_script auth).2)) w
Step-WellFormed {s} (moves source item target folder) w =
    move_item-WellFormed s source item target folder w
Step-WellFormed {s} (adds_environment uuid name) w = WellFormed-of_collections s _ refl w
Step-WellFormed {s} (adds_collection_variable uuid id) w = record {
  unique_collections = λ a.
      omega
        (arith, (add_collection_variable-eq uuid id a s.collections 0).0, w.unique_collections a);
  unique_items = λ a.
      omega (arith, (add_collection_variable-eq uuid id a s.collections 0).1, w.unique_items a);
}
Step-WellFormed {s} (deletes_collection_variable id var) w =
    edit-WellFormed id _ s (λ c. refl) (λ a c. omega arith) w
Step-WellFormed {s} (updates_collection_variable id var patch) w =
    edit-WellFormed id _ s (λ c. refl) (λ a c. omega arith) w
Step-WellFormed {s} _ w = record {
  unique_collections = w.unique_collections;
  unique_items = w.unique_items;
}

-- Ids stay unique: from a state in which no two collections and no two items share an id, no run of
-- the actions reaches one in which they do, if the ids that the actions draw are fresh.
pub Reach-WellFormed : {s t : WorkspaceState} → WellFormed s → Reach s t → WellFormed t
Reach-WellFormed w here = w
Reach-WellFormed w (next r step) = Step-WellFormed step (Reach-WellFormed w r)
