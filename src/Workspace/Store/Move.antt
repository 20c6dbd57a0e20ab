-- ===== src/Workspace/Store/Move.antt =====
-- `moveItem`: where the ids of the moved item go.
use mathlib.Core.Path.{subst}
use reqlet.Common.{
  hits, ℕ, ◌+◌, ◌*◌, ◌≤◌, ◌≡◌, sym, refl, String, false, ◌==◌, arith, true, Option, none, some,
  if◌then◌else◌, List, [], ◌∷◌, Bool-cases, inl, inr, map, find, All,
}
use reqlet.Types.Collection.{Items, CollectionItem, Collection}
use reqlet.Workspace.Tree.{delete_from_list, extract_from_list}
use reqlet.Workspace.Tree.Count.{count_id, count_item, count_folder-le, UniqueIds}
use reqlet.Workspace.Tree.Extract.{extract_from_list-count, extract_from_list-remaining}
use reqlet.Workspace.Tree.Delete.{count_id-delete_from_list-le}
use reqlet.Workspace.Tree.Insert.{places, MeetsOnce, count_id-insert_into_list}
use reqlet.Workspace.Store.{WorkspaceState, move_in_collection, onto_itself, move_item}

abbrev pub count_collections : String → List Collection → ℕ
count_collections a [] = 0
count_collections a (c ∷ cs) = hits c.id a + count_collections a cs

-- How often an id occurs in all collections.
abbrev pub total : String → List Collection → ℕ
total a [] = 0
total a (c ∷ cs) = count_id a c.items + total a cs

abbrev pub HasUniqueItems : Collection → Type 0
HasUniqueItems c = UniqueIds c.items

MeetsOnce-of_UniqueIds :
    (target : Option String) (items : Items) → UniqueIds items → MeetsOnce target items
MeetsOnce-of_UniqueIds none items u = tt
MeetsOnce-of_UniqueIds (some t) items u = u t

-- The items that `moveItem` inserts into, in one collection.
abbrev pub destination : String → String → Collection → Items
destination source item_id c = if c.id == source then delete_from_list c.items item_id else c.items

-- How many places the moved item goes to.
abbrev pub arrivals : String → String → String → Option String → List Collection → ℕ
arrivals source item_id target folder [] = 0
arrivals source item_id target folder (c ∷ cs) =
    (if c.id == target then places folder (destination source item_id c) else 0)
    + arrivals source item_id target folder cs

module _ (source item_id target : String) (folder : Option String) (item : CollectionItem) where
  total-move_absent :
      (a : String) (remaining : Items) (cs : List Collection)
      → All HasUniqueItems cs
      → count_collections source cs ≡ 0
      → total a (map (move_in_collection source target folder item remaining) cs)
        ≡ total a cs + arrivals source item_id target folder cs * count_item a item
  total-move_absent a remaining [] u h = omega arith
  total-move_absent a remaining (c ∷ cs) (v, u) h = grind (
    arith,
    total-move_absent a remaining cs u,
    count_id-insert_into_list a folder c.items item (MeetsOnce-of_UniqueIds folder c.items v),
  )

  total-move_here :
      (a : String) (c : Collection) (cs : List Collection)
      → All HasUniqueItems (c ∷ cs)
      → count_collections source (c ∷ cs) ≤ 1
      → (c.id == source) ≡ true
      → count_item a item + count_id a (delete_from_list c.items item_id) ≡ count_id a c.items
      → total a (
            map
              (move_in_collection source target folder item (delete_from_list c.items item_id))
              (c ∷ cs))
          + count_item a item
        ≡ total a (c ∷ cs) + arrivals source item_id target folder (c ∷ cs) * count_item a item
  total-move_here a c cs (v, u) one e parts =
      let kept = delete_from_list c.items item_id in
      let once : MeetsOnce folder kept =
        MeetsOnce-of_UniqueIds folder kept
          (λ b. omega (arith, count_id-delete_from_list-le b item_id c.items, v b)) in
      grind
        (arith, total-move_absent a kept cs u, count_id-insert_into_list a folder kept item once)

  total-move :
      (a : String) (src : Collection) (cs : List Collection)
      → All HasUniqueItems cs
      → count_collections source cs ≤ 1
      → find (λ c. c.id == source) cs ≡ some src
      → count_item a item + count_id a (delete_from_list src.items item_id) ≡ count_id a src.items
      → total a (
            map
              (move_in_collection source target folder item (delete_from_list src.items item_id))
              cs)
          + count_item a item
        ≡ total a cs + arrivals source item_id target folder cs * count_item a item
  total-move a src [] u one found parts = cc
  total-move a src (c ∷ cs) (v, u) one found parts = elim (Bool-cases (c.id == source)) [
    | inl e ↦
        let same : c ≡ src = ground arith in
        let parts' =
          subst
            (λ s.
              count_item a item + count_id a (delete_from_list s.items item_id)
              ≡ count_id a s.items)
            (sym same) parts in
        subst
          (λ s.
            total a (
                map
                  (move_in_collection source target folder item (delete_from_list s.items item_id))
                  (c ∷ cs))
              + count_item a item
            ≡ total a (c ∷ cs) + arrivals source item_id target folder (c ∷ cs) * count_item a item)
          same (total-move_here a c cs (v, u) one e parts')
    | inr e ↦ grind (
      arith,
      total-move a src cs u,
      count_id-insert_into_list a folder c.items item (MeetsOnce-of_UniqueIds folder c.items v),
    )
  ]

find-HasUniqueItems :
    (id : String) (cs : List Collection) (src : Collection)
    → All HasUniqueItems cs
    → find (λ c. c.id == id) cs ≡ some src
    → HasUniqueItems src
find-HasUniqueItems id [] src u found = cc
find-HasUniqueItems id (c ∷ cs) src (v, u) found = elim (Bool-cases (c.id == id)) [
  | inl e ↦ let same : c ≡ src = ground arith in subst HasUniqueItems same v
  | inr e ↦ find-HasUniqueItems id cs src u (ground arith)
]

-- What happens to ids when an item is moved: each id of the item leaves its place and turns up in
-- as many places as the target has; every other id stays as often as it was. Collections have ids
-- of their own, no id occurs twice in one of them, and the item is in the source.
pub total-move_item :
    (s : WorkspaceState) (source item_id target : String) (folder : Option String)
    (src : Collection) (item : CollectionItem) (a : String)
    → All HasUniqueItems s.collections
    → count_collections source s.collections ≤ 1
    → find (λ c. c.id == source) s.collections ≡ some src
    → onto_itself item_id folder ≡ false
    → (extract_from_list src.items item_id).item ≡ some item
    → total a (move_item s source item_id target folder).collections + count_item a item
      ≡ total a s.collections
        + arrivals source item_id target folder s.collections * count_item a item
unfolding move_item
total-move_item s source item_id target folder src item a u one found other taken =
    let unique : UniqueIds src.items = find-HasUniqueItems source s.collections src u found in
    let parts : count_item a item + count_id a (delete_from_list src.items item_id)
        ≡ count_id a src.items =
      rw (taken, extract_from_list-remaining) at
        (extract_from_list-count src.items item_id a (unique item_id)) in
    rw (found, move_item, other, taken, extract_from_list-remaining)
      (total-move source item_id target folder item a src s.collections u one found parts)

-- A move loses nothing and copies nothing, at any depth, if the target is one place: an existing
-- collection, or one folder in it that is not below the moved item.
pub total-move_item_kept :
    (s : WorkspaceState) (source item_id target : String) (folder : Option String)
    (src : Collection) (item : CollectionItem) (a : String)
    → All HasUniqueItems s.collections
    → count_collections source s.collections ≤ 1
    → find (λ c. c.id == source) s.collections ≡ some src
    → onto_itself item_id folder ≡ false
    → (extract_from_list src.items item_id).item ≡ some item
    → arrivals source item_id target folder s.collections ≡ 1
    → total a (move_item s source item_id target folder).collections ≡ total a s.collections
total-move_item_kept s source item_id target folder src item a u one found other taken place =
    grind (arith, total-move_item s source item_id target folder src item a u one found other taken)

arrivals_absent :
    (source item_id target : String) (folder : Option String) (cs : List Collection)
    → count_collections target cs ≡ 0
    → arrivals source item_id target folder cs ≡ 0
arrivals_absent source item_id target folder [] h = refl
arrivals_absent source item_id target folder (c ∷ cs) h =
    ground (arith, arrivals_absent source item_id target folder cs)

arrivals_within :
    (source item_id : String) (folder : Option String) (cs : List Collection) (src : Collection)
    → count_collections source cs ≤ 1
    → find (λ c. c.id == source) cs ≡ some src
    → arrivals source item_id source folder cs ≡ places folder (delete_from_list src.items item_id)
arrivals_within source item_id folder [] src one found = cc
arrivals_within source item_id folder (c ∷ cs) src one found = elim (Bool-cases (c.id == source)) [
  | inl e ↦
      let same : c ≡ src = ground arith in
      subst
        (λ s.
          arrivals source item_id source folder (c ∷ cs)
          ≡ places folder (delete_from_list s.items item_id))
        same (ground (arith, arrivals_absent source item_id source folder cs))
  | inr e ↦ ground (arith, arrivals_within source item_id folder cs src)
]

-- A folder that is moved into a folder below itself is lost with all that it holds: each id of it
-- is gone as often as it occurred in it, and it arrives nowhere.
pub total-move_item_below :
    (s : WorkspaceState) (source item_id target_folder : String) (src : Collection)
    (item : CollectionItem) (a : String)
    → All HasUniqueItems s.collections
    → count_collections source s.collections ≤ 1
    → find (λ c. c.id == source) s.collections ≡ some src
    → onto_itself item_id (some target_folder) ≡ false
    → (extract_from_list src.items item_id).item ≡ some item
    → 1 ≤ count_item target_folder item
    → total a (move_item s source item_id source (some target_folder)).collections
        + count_item a item
      ≡ total a s.collections
total-move_item_below s source item_id target_folder src item a u one found other taken inside =
    let unique : UniqueIds src.items = find-HasUniqueItems source s.collections src u found in
    let parts : count_item target_folder item
          + count_id target_folder (delete_from_list src.items item_id)
        ≡ count_id target_folder src.items =
      rw (taken, extract_from_list-remaining) at
        (extract_from_list-count src.items item_id target_folder (unique item_id)) in
    let nowhere : arrivals source item_id source (some target_folder) s.collections ≡ 0 = omega (
      arith,
      arrivals_within source item_id (some target_folder) s.collections src one found,
      count_folder-le target_folder (delete_from_list src.items item_id),
      unique target_folder,
      parts,
    ) in
    grind (
      arith,
      total-move_item s source item_id source (some target_folder) src item a u one found other
          taken,
    )
