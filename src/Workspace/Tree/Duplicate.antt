-- ===== src/Workspace/Tree/Duplicate.antt =====
-- Duplicating an item, and deleting the copy.
use reqlet.Common.{
  ℕ, suc, ◌+◌, ◌≤◌, ◌≡◌, refl, inl, inr, String, arith, if◌then◌else◌, ◌==◌, Bool-cases, hits,
}
use reqlet.Types.Collection.{Items, nil, cons_request, cons_folder}
use reqlet.Workspace.Ids.{new_id, draws}
use reqlet.Workspace.Tree.{clone_items, duplicate_in_list, delete_from_list}
use reqlet.Workspace.Tree.Count.{count_id, count_text, size}
use reqlet.Workspace.Tree.Clone.{count_text-draws, clone_items-drawn, count_id-clone_items}
use reqlet.Workspace.Tree.Delete.{delete_from_list_absent}

-- How many items are copied.
unfoldable pub copied : Items → String → ℕ
unfolding size
copied nil id = 0
copied (cons_request r rest) id = hits r.id id + copied rest id
copied (cons_folder f kids rest) id =
    (if f.id == id then suc (size kids) else copied kids id) + copied rest id

pub duplicate_in_list-drawn :
    (uuid : ℕ → String) (items : Items) (id : String) (n : ℕ)
    → (duplicate_in_list uuid items id n).1 ≡ n + copied items id
unfolding duplicate_in_list copied
duplicate_in_list-drawn uuid nil id n = omega arith
duplicate_in_list-drawn uuid (cons_request r rest) id n =
    ground
      (arith, duplicate_in_list-drawn uuid rest id (suc n), duplicate_in_list-drawn uuid rest id n)
duplicate_in_list-drawn uuid (cons_folder f kids rest) id n = ground (
  arith,
  clone_items-drawn uuid kids (suc n),
  duplicate_in_list-drawn uuid kids id n,
  duplicate_in_list-drawn uuid rest id (clone_items uuid kids (suc n)).1,
  duplicate_in_list-drawn uuid rest id (duplicate_in_list uuid kids id n).1,
)

-- The ids after a duplication are those before it and the drawn ones.
pub count_id-duplicate_in_list :
    (a : String) (uuid : ℕ → String) (items : Items) (id : String) (n : ℕ)
    → count_id a (duplicate_in_list uuid items id n).0
      ≡ count_id a items + count_text a (draws uuid n (copied items id))
unfolding duplicate_in_list copied count_id
count_id-duplicate_in_list a uuid nil id n = omega arith
count_id-duplicate_in_list a uuid (cons_request r rest) id n = elim (Bool-cases (r.id == id)) [
  | inl e ↦
      let one : hits r.id id + copied rest id ≡ suc (copied rest id) = ground arith in
      rw one (ground (arith, count_id-duplicate_in_list a uuid rest id (suc n)))
  | inr e ↦
      let zero_more : hits r.id id + copied rest id ≡ copied rest id = ground arith in
      rw zero_more (ground (arith, count_id-duplicate_in_list a uuid rest id n))
]
count_id-duplicate_in_list a uuid (cons_folder f kids rest) id n =
    let tested : ℕ = if f.id == id then suc (size kids) else copied kids id in
    elim (Bool-cases (f.id == id)) [
      | inl e ↦
          let more : tested + copied rest id ≡ suc (size kids + copied rest id) = ground arith in
          let m : ℕ = (clone_items uuid kids (suc n)).1 in
          rw more (
            ground (
              arith,
              clone_items-drawn uuid kids (suc n),
              count_id-clone_items a uuid kids (suc n),
              count_id-duplicate_in_list a uuid rest id m,
              count_text-draws a uuid (suc n) (size kids) (copied rest id),
            ))
      | inr e ↦
          let more : tested + copied rest id ≡ copied kids id + copied rest id = ground arith in
          let m : ℕ = (duplicate_in_list uuid kids id n).1 in
          rw more (
            ground (
              arith,
              duplicate_in_list-drawn uuid kids id n,
              count_id-duplicate_in_list a uuid kids id n,
              count_id-duplicate_in_list a uuid rest id m,
              count_text-draws a uuid n (copied kids id) (copied rest id),
            ))
    ]

pub duplicate_in_list_absent :
    (uuid : ℕ → String) (items : Items) (id : String) (n : ℕ)
    → count_id id items ≡ 0
    → duplicate_in_list uuid items id n ≡ (items, n)
unfolding duplicate_in_list count_id
duplicate_in_list_absent uuid nil id n h = refl
duplicate_in_list_absent uuid (cons_request r rest) id n h =
    ground (arith, duplicate_in_list_absent uuid rest id n)
duplicate_in_list_absent uuid (cons_folder f kids rest) id n h =
    ground (arith, duplicate_in_list_absent uuid kids id n, duplicate_in_list_absent uuid rest id n)

-- Deleting the copy undoes the duplication, if the id occurs once at most and the first drawn id does
-- not occur.
delete_from_list-duplicate_in_list :
    (uuid : ℕ → String) (items : Items) (id : String) (n : ℕ)
    → count_id id items ≤ 1
    → count_id (new_id uuid n) items ≡ 0
    → delete_from_list (duplicate_in_list uuid items id n).0 (new_id uuid n) ≡ items
unfolding duplicate_in_list delete_from_list count_id
delete_from_list-duplicate_in_list uuid nil id n once fresh = refl
delete_from_list-duplicate_in_list uuid (cons_request r rest) id n once fresh = ground (
  arith,
  duplicate_in_list_absent uuid rest id (suc n),
  delete_from_list_absent (new_id uuid n) rest,
  delete_from_list-duplicate_in_list uuid rest id n,
)
delete_from_list-duplicate_in_list uuid (cons_folder f kids rest) id n once fresh = ground (
  arith,
  duplicate_in_list_absent uuid rest id (clone_items uuid kids (suc n)).1,
  delete_from_list_absent (new_id uuid n) rest,
  delete_from_list_absent (new_id uuid n) kids,
  delete_from_list-duplicate_in_list uuid kids id n,
  duplicate_in_list_absent uuid kids id n,
  delete_from_list-duplicate_in_list uuid rest id n,
  duplicate_in_list_absent uuid rest id (duplicate_in_list uuid kids id n).1,
)

-- If an id occurs once at most and the first id to be drawn does not occur, a duplication draws one
-- id for the item of that id and one for each item below it. Each id then occurs as often as before
-- and as often as it was drawn besides, and deleting the item of the first drawn id gives back the
-- items as they were.
pub duplicate_in_list_lem :
    (uuid : ℕ → String) (items : Items) (id : String) (n : ℕ)
    → count_id id items ≤ 1
    → count_id (new_id uuid n) items ≡ 0
    → let (copy, m) = duplicate_in_list uuid items id n in
      (m ≡ n + copied items id)
      × ((a : String)
          → count_id a copy ≡ count_id a items + count_text a (draws uuid n (copied items id)))
      × (delete_from_list copy (new_id uuid n) ≡ items)
duplicate_in_list_lem uuid items id n once fresh = (
  duplicate_in_list-drawn uuid items id n,
  λ a. count_id-duplicate_in_list a uuid items id n,
  delete_from_list-duplicate_in_list uuid items id n once fresh,
)
