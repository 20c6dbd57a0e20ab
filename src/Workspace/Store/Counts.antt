-- ===== src/Workspace/Store/Counts.antt =====
-- How each action changes the ids of collections and of items.
use reqlet.Common.{
  ℕ, ◌+◌, ◌≤◌, ◌≡◌, refl, String, ◌==◌, arith, Option, none, some, if◌then◌else◌, List, [], ◌∷◌,
  ◌++◌, Bool, Bool-cases, inl, inr, map, filter,
}
use reqlet.Types.Collection.{Items, CollectionItem, Collection}
use reqlet.Workspace.Ids.{draws}
use reqlet.Workspace.Tree.{delete_from_list, insert_into_list, duplicate_in_list}
use reqlet.Workspace.Tree.Count.{count_id, count_item, count_folder-le, count_text, UniqueIds}
use reqlet.Workspace.Tree.Delete.{count_id-delete_from_list-le}
use reqlet.Workspace.Tree.Insert.{places, MeetsOnce, count_id-insert_into_list}
use reqlet.Workspace.Tree.Duplicate.{copied, count_id-duplicate_in_list}
use reqlet.Workspace.Store.{move_in_collection, duplicate_item_from}
use reqlet.Workspace.Store.Move.{count_collections, total, arrivals}

module _ (id : String) (f : Collection → Collection) where
  pub count_collections-update :
      ((c : Collection) → (f c).id ≡ c.id)
      → (a : String) (cs : List Collection)
      → count_collections a (map (λ c. if c.id == id then f c else c) cs) ≡ count_collections a cs
  count_collections-update keeps a [] = refl
  count_collections-update keeps a (c ∷ cs) =
      ground (arith, keeps c, count_collections-update keeps a cs)

  pub total-update-le :
      (a : String)
      → ((c : Collection) → count_id a (f c).items ≤ count_id a c.items)
      → (cs : List Collection) → total a (map (λ c. if c.id == id then f c else c) cs) ≤ total a cs
  total-update-le a less [] = omega arith
  total-update-le a less (c ∷ cs) = ground (arith, less c, total-update-le a less cs)

  total-update_absent :
      (a : String) (cs : List Collection)
      → count_collections id cs ≡ 0
      → total a (map (λ c. if c.id == id then f c else c) cs) ≡ total a cs
  total-update_absent a [] h = refl
  total-update_absent a (c ∷ cs) h = ground (arith, total-update_absent a cs)

places-le : (folder : Option String) (items : Items) → UniqueIds items → places folder items ≤ 1
places-le none items u = omega arith
places-le (some t) items u = omega (arith, count_folder-le t items, u t)

meets_once : (folder : Option String) (items : Items) → UniqueIds items → MeetsOnce folder items
meets_once none items u = tt
meets_once (some t) items u = u t

module _ (id : String) (folder : Option String) (x : CollectionItem) where
  pub total-insert-le :
      (a : String) (cs : List Collection)
      → ((b : String) → total b cs ≤ 1)
      → count_collections id cs ≤ 1
      → total a (
          map
            (λ c. if c.id == id then record c { items = insert_into_list c.items folder x } else c)
            cs)
        ≤ total a cs + count_item a x
  total-insert-le a [] u one = omega arith
  total-insert-le a (c ∷ cs) u one =
      let here : UniqueIds c.items = λ b. omega (arith, u b) in
      let later : (b : String) → total b cs ≤ 1 = λ b. omega (arith, u b) in
      let few = places-le folder c.items here in
      let added = count_id-insert_into_list a folder c.items x (meets_once folder c.items here) in
      elim (Bool-cases (c.id == id)) [
        | inl e ↦ grind (
          arith,
          added,
          few,
          total-update_absent id (λ c. record c { items = insert_into_list c.items folder x }) a cs,
        )
        | inr e ↦ ground (arith, total-insert-le a cs later)
      ]

pub arrivals-le :
    (source item_id target : String) (folder : Option String) (cs : List Collection)
    → ((b : String) → total b cs ≤ 1)
    → count_collections target cs ≤ 1
    → arrivals source item_id target folder cs ≤ count_collections target cs
arrivals-le source item_id target folder [] u one = omega arith
arrivals-le source item_id target folder (c ∷ cs) u one =
    let less = λ (b : String). count_id-delete_from_list-le b item_id c.items in
    let kept : UniqueIds (delete_from_list c.items item_id) = λ b. omega (arith, u b, less b) in
    let here : UniqueIds c.items = λ b. omega (arith, u b) in
    let later : (b : String) → total b cs ≤ 1 = λ b. omega (arith, u b) in
    ground (
      arith,
      places-le folder (delete_from_list c.items item_id) kept,
      places-le folder c.items here,
      arrivals-le source item_id target folder cs later,
    )

pub count_collections-move :
    (a source target : String) (folder : Option String) (x : CollectionItem) (kept : Items)
    (cs : List Collection)
    → count_collections a (map (move_in_collection source target folder x kept) cs)
      ≡ count_collections a cs
count_collections-move a source target folder x kept [] = refl
count_collections-move a source target folder x kept (c ∷ cs) =
    ground (arith, count_collections-move a source target folder x kept cs)

pub total-append :
    (a : String) (cs ds : List Collection) → total a (cs ++ ds) ≡ total a cs + total a ds
total-append a [] ds = omega arith
total-append a (c ∷ cs) ds = omega (arith, total-append a cs ds)

pub count_collections-append :
    (a : String) (cs ds : List Collection)
    → count_collections a (cs ++ ds) ≡ count_collections a cs + count_collections a ds
count_collections-append a [] ds = omega arith
count_collections-append a (c ∷ cs) ds = omega (arith, count_collections-append a cs ds)

pub total-filter-le :
    (a : String) (p : Collection → Bool) (cs : List Collection) → total a (filter p cs) ≤ total a cs
total-filter-le a p [] = omega arith
total-filter-le a p (c ∷ cs) = ground (arith, total-filter-le a p cs)

pub count_collections-filter-le :
    (a : String) (p : Collection → Bool) (cs : List Collection)
    → count_collections a (filter p cs) ≤ count_collections a cs
count_collections-filter-le a p [] = omega arith
count_collections-filter-le a p (c ∷ cs) = ground (arith, count_collections-filter-le a p cs)

module _ (uuid : ℕ → String) (id item_id : String) where
  pub count_collections-duplicate_item :
      (a : String) (cs : List Collection) (n : ℕ)
      → count_collections a (duplicate_item_from uuid id item_id cs n) ≡ count_collections a cs
  count_collections-duplicate_item a [] n = refl
  count_collections-duplicate_item a (c ∷ cs) n = ground (
    arith,
    count_collections-duplicate_item a cs n,
    count_collections-duplicate_item a cs (duplicate_in_list uuid c.items item_id n).1,
  )

  total-duplicate_item_absent :
      (a : String) (cs : List Collection) (n : ℕ)
      → count_collections id cs ≡ 0
      → total a (duplicate_item_from uuid id item_id cs n) ≡ total a cs
  total-duplicate_item_absent a [] n h = refl
  total-duplicate_item_absent a (c ∷ cs) n h = ground (arith, total-duplicate_item_absent a cs n)

  -- How many items a duplication in the collection copies.
  abbrev pub copied_in : List Collection → ℕ
  copied_in [] = 0
  copied_in (c ∷ cs) = if c.id == id then copied c.items item_id else copied_in cs

  pub total-duplicate_item :
      (a : String) (cs : List Collection)
      → count_collections id cs ≤ 1
      → total a (duplicate_item_from uuid id item_id cs 0)
        ≡ total a cs + count_text a (draws uuid 0 (copied_in cs))
  total-duplicate_item a [] one = omega arith
  total-duplicate_item a (c ∷ cs) one = elim (Bool-cases (c.id == id)) [
    | inl e ↦ ground (
      arith,
      count_id-duplicate_in_list a uuid c.items item_id 0,
      total-duplicate_item_absent a cs (duplicate_in_list uuid c.items item_id 0).1,
    )
    | inr e ↦ ground (arith, total-duplicate_item a cs)
  ]
