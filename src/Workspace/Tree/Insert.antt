-- ===== src/Workspace/Tree/Insert.antt =====
-- Inserting an item into a tree.
use reqlet.Common.{ℕ, ◌+◌, ◌*◌, ◌≤◌, ◌≡◌, refl, String, arith, Option, none, some}
use reqlet.Types.Collection.{Items, nil, cons_request, cons_folder, CollectionItem}
use reqlet.Workspace.Tree.{insert_into_folder, insert_into_list}
use reqlet.Workspace.Tree.Count.{
  count_id, count_item, count_folder, count_folder-le, count_id-append_item,
}

pub insert_into_folder_absent :
    (items : Items) (target : String) (x : CollectionItem)
    → count_folder target items ≡ 0
    → insert_into_folder items target x ≡ items
unfolding insert_into_folder count_folder
insert_into_folder_absent nil target x h = refl
insert_into_folder_absent (cons_request r rest) target x h =
    ground (arith, insert_into_folder_absent rest target x)
insert_into_folder_absent (cons_folder f kids rest) target x h =
    ground (arith, insert_into_folder_absent kids target x, insert_into_folder_absent rest target x)

-- Where the target folder occurs once, the item arrives once.
pub count_id-insert_into_folder :
    (a target : String) (items : Items) (x : CollectionItem)
    → count_id target items ≤ 1
    → count_id a (insert_into_folder items target x)
      ≡ count_id a items + count_folder target items * count_item a x
unfolding count_id insert_into_folder count_folder
count_id-insert_into_folder a target nil x h = omega arith
count_id-insert_into_folder a target (cons_request r rest) x h =
    ground (arith, count_id-insert_into_folder a target rest x)
count_id-insert_into_folder a target (cons_folder f kids rest) x h = grind (
  arith,
  count_id-insert_into_folder a target rest x,
  count_id-insert_into_folder a target kids x,
  count_id-append_item a kids x,
  count_folder-le target kids,
  count_folder-le target rest,
)

-- How many places the item goes to: the end of the list, or each folder of the id.
abbrev pub places : Option String → Items → ℕ
places none items = 1
places (some target) items = count_folder target items

abbrev pub MeetsOnce : Option String → Items → Type 0
MeetsOnce none items = Unit
MeetsOnce (some target) items = count_id target items ≤ 1

-- An insertion adds each id of the item once for the end of the list or for each folder of the
-- target's id, and takes nothing away, if the target's id does not occur twice.
pub count_id-insert_into_list :
    (a : String) (target : Option String) (items : Items) (x : CollectionItem)
    → MeetsOnce target items
    → count_id a (insert_into_list items target x)
      ≡ count_id a items + places target items * count_item a x
unfolding insert_into_list
count_id-insert_into_list a none items x h = omega (arith, count_id-append_item a items x)
count_id-insert_into_list a (some target) items x h = count_id-insert_into_folder a target items x h
