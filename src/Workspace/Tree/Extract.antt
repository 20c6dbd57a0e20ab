-- ===== src/Workspace/Tree/Extract.antt =====
-- Taking an item out of a tree: what is returned, and what remains.
use reqlet.Common.{
  hits, ℕ, ◌+◌, ◌≤◌, ◌≡◌, refl, String, ◌==◌, arith, Bool-cases, Option-cases, Option, none, some,
  inl, inr, if◌then◌else◌, ◌∙◌,
}
use reqlet.Types.Collection.{
  Items, nil, cons_request, cons_folder, CollectionItem, request, folder, item_id,
}
use reqlet.Workspace.Tree.{delete_from_list, last_here, extract_below, extract_from_list}
use reqlet.Workspace.Tree.Count.{count_id, count_item}
use reqlet.Workspace.Tree.Delete.{delete_from_list_absent}

-- Matches in this list alone, and matches below the items that the filter keeps.
abbrev count_here : String → Items → ℕ
count_here id nil = 0
count_here id (cons_request r rest) = hits r.id id + count_here id rest
count_here id (cons_folder f kids rest) = hits f.id id + count_here id rest

abbrev count_below : String → Items → ℕ
count_below id nil = 0
count_below id (cons_request r rest) = count_below id rest
count_below id (cons_folder f kids rest) =
    (if f.id == id then 0 else count_id id kids) + count_below id rest

last_here-none :
    (id : String) (start : Option CollectionItem) (items : Items)
    → last_here id start items ≡ none
    → (start ≡ none) × (count_here id items ≡ 0)
unfolding last_here
last_here-none id start nil h = (h, refl)
last_here-none id start (cons_request r rest) h =
    ground (arith, last_here-none id (if r.id == id then some (request r) else start) rest)
last_here-none id start (cons_folder f kids rest) h =
    ground (arith, last_here-none id (if f.id == id then some (folder f kids) else start) rest)

count_id_parts :
    (id : String) (items : Items)
    → count_here id items ≡ 0
    → count_below id items ≡ 0
    → count_id id items ≡ 0
unfolding count_id
count_id_parts id nil h k = refl
count_id_parts id (cons_request r rest) h k = ground (arith, count_id_parts id rest)
count_id_parts id (cons_folder f kids rest) h k = ground (arith, count_id_parts id rest)

-- `extracted` is null at the end only if it was at the start and no kept item holds the id.
extract_below-none :
    (id : String) (start : Option CollectionItem) (items : Items)
    → (extract_below id start items).item ≡ none
    → (start ≡ none) × (count_below id items ≡ 0)
unfolding extract_below
extract_below-none id start nil h = (h, refl)
extract_below-none id start (cons_request r rest) h =
    ground (arith, extract_below-none id start rest)
extract_below-none id start (cons_folder f kids rest) h = elim (Bool-cases (f.id == id)) [
  | inl e ↦ ground (arith, extract_below-none id start rest)
  | inr e ↦ elim (Option-cases (extract_below id (last_here id none kids) kids).item) [
    | inl k ↦
        let (p, q) = extract_below-none id (last_here id none kids) kids k in
        let (_, z) = last_here-none id none kids p in
        ground (arith, extract_below-none id start rest, count_id_parts id kids z q)
    | inr (x, k) ↦ ground (arith, extract_below-none id (some x) rest)
  ]
]

-- Without the id, the walk returns what it was given.
last_here_absent :
    (id : String) (start : Option CollectionItem) (items : Items)
    → count_id id items ≡ 0
    → last_here id start items ≡ start
unfolding last_here count_id
last_here_absent id start nil h = refl
last_here_absent id start (cons_request r rest) h = ground (arith, last_here_absent id start rest)
last_here_absent id start (cons_folder f kids rest) h =
    ground (arith, last_here_absent id start rest)

extract_below_absent :
    (id : String) (start : Option CollectionItem) (items : Items)
    → count_id id items ≡ 0
    → (extract_below id start items).item ≡ start
unfolding extract_below count_id
extract_below_absent id start nil h = refl
extract_below_absent id start (cons_request r rest) h =
    ground (arith, extract_below_absent id start rest)
extract_below_absent id start (cons_folder f kids rest) h = ground (
  arith,
  extract_below_absent id start rest,
  last_here_absent id none kids,
  extract_below_absent id (last_here id none kids) kids,
)

-- Nothing is found exactly where the id does not occur.
pub extract_from_list-none_iff :
    (items : Items) (id : String)
    → ((extract_from_list items id).item ≡ none → count_id id items ≡ 0)
      × (count_id id items ≡ 0 → (extract_from_list items id).item ≡ none)
unfolding extract_from_list
extract_from_list-none_iff items id = (
  λ h.
      let (p, q) = extract_below-none id (last_here id none items) items h in
      count_id_parts id items (last_here-none id none items p).1 q,
  λ h. extract_below_absent id _ items h ∙ last_here_absent id none items h,
)

extract_below-remaining :
    (id : String) (start : Option CollectionItem) (items : Items)
    → (extract_below id start items).remaining ≡ delete_from_list items id
unfolding extract_below delete_from_list
extract_below-remaining id start nil = refl
extract_below-remaining id start (cons_request r rest) =
    ground (arith, extract_below-remaining id start rest)
extract_below-remaining id start (cons_folder f kids rest) = elim (Bool-cases (f.id == id)) [
  | inl e ↦ ground (arith, extract_below-remaining id start rest)
  | inr e ↦ elim (Option-cases (extract_below id (last_here id none kids) kids).item) [
    | inl k ↦
        let (p, q) = extract_below-none id (last_here id none kids) kids k in
        let (_, z) = last_here-none id none kids p in
        ground (
          arith,
          extract_below-remaining id start rest,
          delete_from_list_absent id kids (count_id_parts id kids z q),
        )
    | inr (x, k) ↦ ground (
      arith,
      extract_below-remaining id (some x) rest,
      extract_below-remaining id (last_here id none kids) kids,
    )
  ]
]

-- What remains after an extraction is what a deletion leaves.
pub extract_from_list-remaining :
    (items : Items) (id : String)
    → (extract_from_list items id).remaining ≡ delete_from_list items id
unfolding extract_from_list
extract_from_list-remaining items id = extract_below-remaining id _ items

-- An item that is absent, or has the id.
abbrev HasId : String → Option CollectionItem → Type 0
HasId id none = Unit
HasId id (some x) = item_id x ≡ id

last_here-HasId :
    (id : String) (start : Option CollectionItem) (items : Items)
    → HasId id start
    → HasId id (last_here id start items)
unfolding last_here
last_here-HasId id start nil h = h
last_here-HasId id start (cons_request r rest) h = elim (Bool-cases (r.id == id)) [
  | inl e ↦ rw e (last_here-HasId id (some (request r)) rest (ground arith))
  | inr e ↦ rw e (last_here-HasId id start rest h)
]
last_here-HasId id start (cons_folder f kids rest) h = elim (Bool-cases (f.id == id)) [
  | inl e ↦ rw e (last_here-HasId id (some (folder f kids)) rest (ground arith))
  | inr e ↦ rw e (last_here-HasId id start rest h)
]

extract_below-HasId :
    (id : String) (start : Option CollectionItem) (items : Items)
    → HasId id start
    → HasId id (extract_below id start items).item
unfolding extract_below
extract_below-HasId id start nil h = h
extract_below-HasId id start (cons_request r rest) h = elim (Bool-cases (r.id == id)) [
  | inl e ↦ rw e (extract_below-HasId id start rest h)
  | inr e ↦ rw e (extract_below-HasId id start rest h)
]
extract_below-HasId id start (cons_folder f kids rest) h =
    let below : HasId id (extract_below id (last_here id none kids) kids).item =
      extract_below-HasId id (last_here id none kids) kids (last_here-HasId id none kids tt) in
    elim (Bool-cases (f.id == id)) [
      | inl e ↦ rw (e, extract_below) (extract_below-HasId id start rest h)
      | inr e ↦ elim (Option-cases (extract_below id (last_here id none kids) kids).item) [
        | inl k ↦ rw (e, extract_below, k) (extract_below-HasId id start rest h)
        | inr (x, k) ↦
            rw (e, extract_below, k) (extract_below-HasId id (some x) rest (rw k at below))
      ]
    ]

-- The item that is taken out has the id that was asked for.
pub extract_from_list-HasId :
    (items : Items) (id : String) (x : CollectionItem)
    → (extract_from_list items id).item ≡ some x
    → item_id x ≡ id
unfolding extract_from_list
extract_from_list-HasId items id x h =
    rw h at (extract_below-HasId id _ items (last_here-HasId id none items tt))

abbrev pub count_found : String → Option CollectionItem → ℕ
count_found a none = 0
count_found a (some x) = count_item a x

-- An id that occurs once is taken out whole: what remains and the item taken make up the list.
pub extract_from_list-count :
    (items : Items) (id a : String)
    → count_id id items ≤ 1
    → count_found a (extract_from_list items id).item
        + count_id a (extract_from_list items id).remaining
      ≡ count_id a items
unfolding extract_from_list count_id extract_below last_here count_item
extract_from_list-count nil id a h = refl
extract_from_list-count (cons_request r rest) id a h = elim (Bool-cases (r.id == id)) [
  | inl e ↦ ground (
    arith,
    last_here_absent id (some (request r)) rest,
    extract_below_absent id (some (request r)) rest,
    extract_below-remaining id (some (request r)) rest,
    delete_from_list_absent id rest,
  )
  | inr e ↦ ground (arith, extract_from_list-count rest id a)
]
extract_from_list-count (cons_folder f kids rest) id a h = elim (Bool-cases (f.id == id)) [
  | inl e ↦ ground (
    arith,
    last_here_absent id (some (folder f kids)) rest,
    extract_below_absent id (some (folder f kids)) rest,
    extract_below-remaining id (some (folder f kids)) rest,
    delete_from_list_absent id rest,
  )
  | inr e ↦ elim (Option-cases (extract_from_list kids id).item) [
    | inl k ↦
        ground (arith, extract_from_list-count rest id a, (extract_from_list-none_iff kids id).0)
    | inr (x, k) ↦ ground (
      arith,
      (extract_from_list-none_iff kids id).1,
      extract_from_list-count kids id a,
      extract_below_absent id (some x) rest,
      extract_below-remaining id (some x) rest,
      delete_from_list_absent id rest,
    )
  ]
]
