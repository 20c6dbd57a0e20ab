-- ===== src/Tests/Workspace.antt =====
-- The workspace: runs of the actions of gui/web/src/store/workspace.ts.
use reqlet.Common.{◌+◌, ◌≡◌, refl, none, some, arith, string_dec}
use reqlet.Types.Collection.{request, folder, nil, cons_request, cons_folder}
use reqlet.Workspace.Ids.{new_id}
use reqlet.Workspace.Tree.{extract_from_list, delete_from_list}
use reqlet.Workspace.Tree.Count.{count_id, count_item, count_folder}
use reqlet.Workspace.Store.{WorkspaceState, move_item, add_request, find_request, delete_item}
use reqlet.Workspace.Store.Move.{total, total-move_item_kept, total-move_item_below}
use reqlet.Workspace.Store.Edits.{find_request-add_request}
use reqlet.Workspace.Variables.{VariablePatch}
use reqlet.Workspace.Steps.{here, next, moves, deletes_item}
use reqlet.Workspace.Steps.Edits.{WellFormed}
use reqlet.Workspace.Steps.Invariant.{Reach-WellFormed}
use reqlet.Tests.Unique.{demo-WellFormed, demo-HasUniqueItems}
use reqlet.Workspace.Tree.Find.{count_request}
use reqlet.Tests.Data.{demo, first_collection, request_named, folder_named, uuid}

abbrev moved : WorkspaceState
moved = move_item demo "c1" "r2" "c2" none

Reach-WellFormed_example : WellFormed (delete_item moved "c1" "f1")
Reach-WellFormed_example =
    Reach-WellFormed demo-WellFormed
      (next (next here (moves "c1" "r2" "c2" none)) (deletes_item "c1" "f1"))

total-move_item_kept_example :
    total "r1" (move_item demo "c1" "r1" "c1" (some "f2")).collections ≡ total "r1" demo.collections
unfolding string_dec count_id extract_from_list delete_from_list count_folder
total-move_item_kept_example =
    total-move_item_kept demo "c1" "r1" "c1" (some "f2") first_collection
      (request (request_named "r1")) "r1" demo-HasUniqueItems (ground arith) refl refl refl refl

total-move_item_below_example :
    total "r2" (move_item demo "c1" "f1" "c1" (some "f2")).collections
      + count_item "r2" (
          folder
            (folder_named "f1")
            (cons_request (request_named "r2") (cons_folder (folder_named "f2") nil nil)))
    ≡ total "r2" demo.collections
unfolding string_dec count_id extract_from_list count_item
total-move_item_below_example =
    total-move_item_below demo "c1" "f1" "f2" first_collection
      (folder (folder_named "f1")
        (cons_request (request_named "r2") (cons_folder (folder_named "f2") nil nil)))
      "r2" demo-HasUniqueItems (ground arith) refl refl refl (ground arith)

find_request-add_request_example :
    find_request (add_request uuid demo "c1" (some "f2")).1 (new_id uuid 0)
    ≡ some (record { request = (add_request uuid demo "c1" (some "f2")).0; collection_id = "c1" })
unfolding string_dec new_id count_folder count_request
find_request-add_request_example =
    find_request-add_request uuid demo "c1" (some "f2") first_collection (refl, (refl, tt)) refl
      (ground arith)

abbrev new_value : VariablePatch
new_value = record {
  id = none;
  enabled = none;
  key = none;
  initial_value = none;
  current_value = some "prod";
}
