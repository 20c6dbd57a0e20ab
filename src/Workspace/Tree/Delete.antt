-- ===== src/Workspace/Tree/Delete.antt =====
-- Deleting from a tree, and taking an item out of it.
use reqlet.Common.{◌≤◌, ◌≡◌, refl, String, arith}
use reqlet.Types.Collection.{Items, nil, cons_request, cons_folder}
use reqlet.Workspace.Tree.{delete_from_list}
use reqlet.Workspace.Tree.Count.{count_id}

-- An id that was deleted is gone at every depth.
pub count_id-delete_from_list_self :
    (id : String) (items : Items) → count_id id (delete_from_list items id) ≡ 0
unfolding count_id delete_from_list
count_id-delete_from_list_self id nil = refl
count_id-delete_from_list_self id (cons_request r rest) =
    ground (arith, count_id-delete_from_list_self id rest)
count_id-delete_from_list_self id (cons_folder f kids rest) =
    ground (arith, count_id-delete_from_list_self id kids, count_id-delete_from_list_self id rest)

pub count_id-delete_from_list-le :
    (a id : String) (items : Items) → count_id a (delete_from_list items id) ≤ count_id a items
unfolding count_id delete_from_list
count_id-delete_from_list-le a id nil = omega arith
count_id-delete_from_list-le a id (cons_request r rest) =
    ground (arith, count_id-delete_from_list-le a id rest)
count_id-delete_from_list-le a id (cons_folder f kids rest) =
    ground (arith, count_id-delete_from_list-le a id kids, count_id-delete_from_list-le a id rest)

-- Deleting an id that does not occur changes nothing.
pub delete_from_list_absent :
    (id : String) (items : Items) → count_id id items ≡ 0 → delete_from_list items id ≡ items
unfolding count_id delete_from_list
delete_from_list_absent id nil h = refl
delete_from_list_absent id (cons_request r rest) h = ground (arith, delete_from_list_absent id rest)
delete_from_list_absent id (cons_folder f kids rest) h =
    ground (arith, delete_from_list_absent id kids, delete_from_list_absent id rest)
