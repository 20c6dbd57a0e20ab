-- ===== src/Workspace/Tree/Count.antt =====
-- How often an id occurs among items at any depth: what the operations on a tree keep or change is
-- said with these numbers.
use reqlet.Common.{hits, ℕ, suc, ◌+◌, ◌≤◌, ◌≡◌, String, arith, List, [], ◌∷◌}
use reqlet.Types.Collection.{
  Items, nil, cons_request, cons_folder, CollectionItem, request, folder, append_item,
}

unfoldable pub count_id : String → Items → ℕ
count_id a nil = 0
count_id a (cons_request r rest) = hits r.id a + count_id a rest
count_id a (cons_folder f kids rest) = hits f.id a + count_id a kids + count_id a rest

unfoldable pub count_folder : String → Items → ℕ
count_folder a nil = 0
count_folder a (cons_request r rest) = count_folder a rest
count_folder a (cons_folder f kids rest) = hits f.id a + count_folder a kids + count_folder a rest

unfoldable pub count_item : String → CollectionItem → ℕ
unfolding count_id
count_item a (request r) = hits r.id a
count_item a (folder f kids) = hits f.id a + count_id a kids

-- No id occurs twice in the tree.
abbrev pub UniqueIds : Items → Type 0
UniqueIds items = (a : String) → count_id a items ≤ 1

-- The number of items at any depth.
unfoldable pub size : Items → ℕ
size nil = 0
size (cons_request r rest) = suc (size rest)
size (cons_folder f kids rest) = suc (size kids + size rest)

abbrev pub count_text : String → List String → ℕ
count_text a [] = 0
count_text a (x ∷ xs) = hits x a + count_text a xs

pub count_folder-le : (a : String) (items : Items) → count_folder a items ≤ count_id a items
unfolding count_folder count_id
count_folder-le a nil = omega arith
count_folder-le a (cons_request r rest) = omega (arith, count_folder-le a rest)
count_folder-le a (cons_folder f kids rest) =
    omega (arith, count_folder-le a kids, count_folder-le a rest)

pub count_id-append_item :
    (a : String) (items : Items) (x : CollectionItem)
    → count_id a (append_item items x) ≡ count_id a items + count_item a x
unfolding count_id count_item
count_id-append_item a nil (request r) = omega arith
count_id-append_item a nil (folder f kids) = omega arith
count_id-append_item a (cons_request r rest) x = omega (arith, count_id-append_item a rest x)
count_id-append_item a (cons_folder f kids rest) x = omega (arith, count_id-append_item a rest x)
