-- ===== src/Workspace/Store/Edits.antt =====
-- Looking up, adding and expanding in the workspace.
use reqlet.Common.{
  ℕ, ◌≤◌, ◌≡◌, refl, String, ◌==◌, arith, Option, none, some, if◌then◌else◌, List, [], ◌∷◌, ◌++◌,
  ◌&&◌, ◌||◌, not, Bool, Bool-cases, Option-cases, ℕ-cases, inl, inr, map, find, filter, any, All,
}
use reqlet.Types.Collection.{
  Items, nil, cons_request, cons_folder, CollectionItem, RequestItem, Collection, append_item,
}
use reqlet.Workspace.Ids.{new_id}
use reqlet.Workspace.Tree.{find_request_in_items, insert_into_folder, insert_into_list}
use reqlet.Workspace.Tree.Count.{count_folder}
use reqlet.Workspace.Tree.Find.{count_request, find_request_in_items-none}
use reqlet.Workspace.Tree.Insert.{places, insert_into_folder_absent}
use reqlet.Workspace.Store.{
  WorkspaceState, toggle_expand, is_expanded, find_request, find_request_in, add_request,
  new_request,
}

any-append {ℓ} :
    {A : Type ℓ} (p : A → Bool) (xs : List A) (x : A) → any p (xs ++ x ∷ []) ≡ (any p xs || p x)
any-append p [] x = ground arith
any-append p (y ∷ xs) x = ground (arith, any-append p xs x)

any-filter-not :
    (id b : String) (xs : List String)
    → any (λ e. e == b) (filter (λ e. not (e == id)) xs) ≡ (not (id == b) && any (λ e. e == b) xs)
any-filter-not id b [] = ground arith
any-filter-not id b (x ∷ xs) = ground (arith, any-filter-not id b xs)

-- Toggling an item flips whether it is expanded, and leaves every other item as it was.
pub is_expanded-toggle_expand :
    (s : WorkspaceState) (id b : String)
    → is_expanded (toggle_expand s id) b
      ≡ (if id == b then not (is_expanded s b) else is_expanded s b)
unfolding toggle_expand
is_expanded-toggle_expand s id b = elim (Bool-cases (any (λ e. e == id) s.expanded_ids)) [
  | inl e ↦ ground (arith, any-filter-not id b s.expanded_ids)
  | inr e ↦ ground (arith, any-append (λ e. e == b) s.expanded_ids id)
]

abbrev pub Lacks : String → Collection → Type 0
Lacks id c = count_request id c.items ≡ 0

find_request_in-none :
    (cs : List Collection) (id : String)
    → (find_request_in cs id ≡ none → All (Lacks id) cs)
      × (All (Lacks id) cs → find_request_in cs id ≡ none)
unfolding find_request_in
find_request_in-none [] id = (λ h. tt, λ h. refl)
find_request_in-none (c ∷ cs) id =
    let (p, q) = find_request_in-none cs id in
    let (p', q') = find_request_in_items-none c.items id c.id in
    (
      λ h. elim (Option-cases (find_request_in_items c.items id c.id)) [
        | inl e ↦ (p' e, p (ground arith))
        | inr (x, e) ↦ cc (e, h)
      ],
      λ h. rw (q' h.0, find_request_in) (q h.1),
    )

-- `findRequest` returns null exactly where no collection holds a request of the id.
pub find_request-none_iff :
    (s : WorkspaceState) (id : String)
    → (find_request s id ≡ none → All (Lacks id) s.collections)
      × (All (Lacks id) s.collections → find_request s id ≡ none)
unfolding find_request
find_request-none_iff s id = find_request_in-none s.collections id

find_request_in_items-append_item :
    (items : Items) (r : RequestItem) (collection_id : String)
    → count_request r.id items ≡ 0
    → find_request_in_items (append_item items (CollectionItem.request r)) r.id collection_id
      ≡ some (record { request = r; collection_id = collection_id })
unfolding find_request_in_items count_request
find_request_in_items-append_item nil r c h = ground arith
find_request_in_items-append_item (cons_request q rest) r c h =
    ground (arith, find_request_in_items-append_item rest r c)
find_request_in_items-append_item (cons_folder f kids rest) r c h =
    ground (
      arith,
      (find_request_in_items-none kids r.id c).1,
      find_request_in_items-append_item rest r c,
    )

find_request_in_items-insert_into_folder :
    (items : Items) (target : String) (r : RequestItem) (collection_id : String)
    → count_request r.id items ≡ 0
    → 1 ≤ count_folder target items
    → find_request_in_items
        (insert_into_folder items target (CollectionItem.request r))
        r.id
        collection_id
      ≡ some (record { request = r; collection_id = collection_id })
unfolding find_request_in_items count_request insert_into_folder count_folder
find_request_in_items-insert_into_folder nil target r c h k = absurd (omega arith)
find_request_in_items-insert_into_folder (cons_request q rest) target r c h k =
    ground (arith, find_request_in_items-insert_into_folder rest target r c)
find_request_in_items-insert_into_folder (cons_folder f kids rest) target r c h k =
    elim (Bool-cases (f.id == target)) [
      | inl e ↦ ground (arith, find_request_in_items-append_item kids r c)
      | inr e ↦ elim (ℕ-cases (count_folder target kids)) [
        | inl z ↦ ground (
          arith,
          insert_into_folder_absent kids target (CollectionItem.request r) z,
          (find_request_in_items-none kids r.id c).1,
          find_request_in_items-insert_into_folder rest target r c,
        )
        | inr z ↦ ground (arith, find_request_in_items-insert_into_folder kids target r c)
      ]
    ]

find_request_in_items-insert_into_list :
    (items : Items) (folder : Option String) (r : RequestItem) (collection_id : String)
    → count_request r.id items ≡ 0
    → 1 ≤ places folder items
    → find_request_in_items
        (insert_into_list items folder (CollectionItem.request r))
        r.id
        collection_id
      ≡ some (record { request = r; collection_id = collection_id })
unfolding insert_into_list
find_request_in_items-insert_into_list items none r c h k =
    find_request_in_items-append_item items r c h
find_request_in_items-insert_into_list items (some t) r c h k =
    find_request_in_items-insert_into_folder items t r c h k

find_request_in-add :
    (cs : List Collection) (r : RequestItem) (collection_id : String) (folder : Option String)
    (col : Collection)
    → All (Lacks r.id) cs
    → find (λ c. c.id == collection_id) cs ≡ some col
    → 1 ≤ places folder col.items
    → find_request_in
        (map
          (λ c.
            if c.id == collection_id
            then record c { items = insert_into_list c.items folder (CollectionItem.request r) }
            else c)
          cs)
        r.id
      ≡ some (record { request = r; collection_id = collection_id })
unfolding find_request_in
find_request_in-add [] r id folder col lacks found room = cc
find_request_in-add (c ∷ cs) r id folder col (l, lacks) found room =
    elim (Bool-cases (c.id == id)) [
      | inl e ↦ ground (arith, find_request_in_items-insert_into_list c.items folder r c.id l)
      | inr e ↦ ground (
        arith,
        (find_request_in_items-none c.items r.id c.id).1,
        find_request_in-add cs r id folder col lacks,
      )
    ]

-- A request that `addRequest` makes is found under its new id, in the collection that was asked
-- for, if no request has the id yet, the collection exists, and the parent is null or one of its
-- folders.
pub find_request-add_request :
    (uuid : ℕ → String) (s : WorkspaceState) (collection_id : String) (folder : Option String)
    (col : Collection)
    → All (Lacks (new_id uuid 0)) s.collections
    → find (λ c. c.id == collection_id) s.collections ≡ some col
    → 1 ≤ places folder col.items
    → find_request (add_request uuid s collection_id folder).1 (new_id uuid 0)
      ≡ some (record {
        request = (add_request uuid s collection_id folder).0;
        collection_id = collection_id;
      })
unfolding find_request add_request
find_request-add_request uuid s id folder col lacks found room =
    find_request_in-add s.collections (new_request (new_id uuid 0)) id folder col lacks found room
