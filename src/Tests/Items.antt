-- ===== src/Tests/Items.antt =====
-- The trees of items: runs of the functions of gui/web/src/store/workspace.ts on nested folders.
use reqlet.Common.{◌+◌, ◌≡◌, refl, String, List, [], ◌∷◌, arith, string_dec}
use reqlet.Types.Collection.{nil, cons_request, cons_folder}
use reqlet.Workspace.Ids.{new_id, draws}
use reqlet.Workspace.Tree.{
  delete_from_list, duplicate_in_list, extract_from_list, folder_segment, PathSegment,
}
use reqlet.Workspace.Tree.Count.{count_id, count_text}
use reqlet.Workspace.Tree.Extract.{extract_from_list-remaining}
use reqlet.Workspace.Tree.Duplicate.{copied, duplicate_in_list_lem}
use reqlet.Tests.Data.{two_levels, request_named, folder_named, uuid}

duplicate_request :
    (duplicate_in_list uuid (cons_request (request_named "r1") nil) "r1" 0).0
    ≡ cons_request (request_named "r1") (
        cons_request
          (record (request_named "r1") { id = "id-12345678"; name = "Request Copy" })
          nil)
unfolding duplicate_in_list new_id string_dec
duplicate_request = refl

delete_nested :
    delete_from_list two_levels "r2"
    ≡ cons_folder
        (folder_named "f1")
        (cons_folder (folder_named "f2") nil nil)
        (cons_request (request_named "r1") nil)
unfolding delete_from_list string_dec
delete_nested = refl

duplicate_in_list_lem_example :
    let (copy, m) = duplicate_in_list uuid two_levels "f1" 0 in
    (m ≡ 0 + copied two_levels "f1")
    × ((a : String)
        → count_id a copy
          ≡ count_id a two_levels + count_text a (draws uuid 0 (copied two_levels "f1")))
    × (delete_from_list copy (new_id uuid 0) ≡ two_levels)
unfolding new_id string_dec count_id
duplicate_in_list_lem_example =
    duplicate_in_list_lem uuid two_levels "f1" 0 (ground arith) (ground arith)

extract_from_list-remaining_example :
    (extract_from_list two_levels "r2").remaining ≡ delete_from_list two_levels "r2"
extract_from_list-remaining_example = extract_from_list-remaining two_levels "r2"

abbrev path_to_f2 : List PathSegment
path_to_f2 = folder_segment (folder_named "f1") ∷ (folder_segment (folder_named "f2") ∷ [])
