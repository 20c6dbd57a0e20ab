-- ===== src/Search/Opens.antt =====
-- gui/web/src/components/search-modal.tsx: every result that is offered opens.
use reqlet.Common.{
  ◌≤◌, ◌≡◌, refl, inl, inr, String, Bool, none, some, List, [], ◌∷◌, ◌++◌, arith, Option-cases,
  ==-refl, find, all, All, All-append,
}
use reqlet.Search.{
  all_results, crumb, Collection, collect_results, FolderResult, RequestResult, SearchResult,
  of_collection, of_folder, of_request,
}
use reqlet.Ui.Panels.{UiState}
use reqlet.Search.Select.{
  is_collection_of, select_tab, handle_select, find_folder, find_item_request, open_found_folder,
  open_found_request,
}
use reqlet.Tabs.State.{
  open_collection_tab, TabsState, shows_collection, shows_folder, shows_request, open_folder_tab,
}
use reqlet.Types.Collection.{RequestItem, FolderItem, Items, nil, cons_request, cons_folder}
use reqlet.Types.Tab.{Tab}
use reqlet.Tabs.Open.{open_or_add_shown, open_request_tab_shown}
use reqlet.Workspace.Tree.Count.{count_folder}
use reqlet.Workspace.Tree.Find.{count_request, or_else-eq-none}

-- The active tab is the first one that shows the item.
abbrev pub Shown : (Tab → Bool) → TabsState → Type 0
Shown p s = (x : Tab) × (find p s.tabs ≡ some x) × (s.active_tab_id ≡ x.id)

abbrev pub ShowsResult : SearchResult → TabsState → Type 0
ShowsResult (of_collection id label c) = Shown (shows_collection c.id)
ShowsResult (of_folder r) = Shown (shows_folder r.id)
ShowsResult (of_request r) = Shown (shows_request r.id)

find_folder-none :
    (items : Items) (id : String) → find_folder items id ≡ none → count_folder id items ≡ 0
unfolding find_folder count_folder
find_folder-none nil id h = refl
find_folder-none (cons_request r rest) id h = find_folder-none rest id h
find_folder-none (cons_folder f kids rest) id h = ground (
  arith,
  or_else-eq-none (find_folder kids id) (find_folder rest id),
  find_folder-none kids id,
  find_folder-none rest id,
)

find_folder_sound :
    (items : Items) (id : String) (f : FolderItem) → find_folder items id ≡ some f → f.id ≡ id
unfolding find_folder
find_folder_sound nil id f h = cc
find_folder_sound (cons_request r rest) id f h = find_folder_sound rest id f h
find_folder_sound (cons_folder g kids rest) id f h = elim (Option-cases (find_folder kids id)) [
  | inl e ↦ ground (arith, find_folder_sound rest id f)
  | inr (x, e) ↦ ground (arith, find_folder_sound kids id f)
]

find_item_request-none :
    (items : Items) (id : String) → find_item_request items id ≡ none → count_request id items ≡ 0
unfolding find_item_request count_request
find_item_request-none nil id h = refl
find_item_request-none (cons_request r rest) id h = ground (arith, find_item_request-none rest id)
find_item_request-none (cons_folder f kids rest) id h = ground (
  arith,
  or_else-eq-none (find_item_request kids id) (find_item_request rest id) h,
  find_item_request-none kids id,
  find_item_request-none rest id,
)

find_item_request_sound :
    (items : Items) (id : String) (r : RequestItem)
    → find_item_request items id ≡ some r
    → r.id ≡ id
unfolding find_item_request
find_item_request_sound nil id r h = cc
find_item_request_sound (cons_request q rest) id r h =
    ground (arith, find_item_request_sound rest id r)
find_item_request_sound (cons_folder g kids rest) id r h =
    elim (Option-cases (find_item_request kids id)) [
      | inl e ↦ find_item_request_sound rest id r (ground arith)
      | inr (x, e) ↦ find_item_request_sound kids id r (ground arith)
    ]

-- What is found is opened.
Shown-folder :
    (uuid : String) (s : TabsState) (collection_id id : String) (items : Items)
    → 1 ≤ count_folder id items
    → Shown (shows_folder id) (open_found_folder uuid s collection_id (find_folder items id))
unfolding open_folder_tab
Shown-folder uuid s collection_id id items h = elim (Option-cases (find_folder items id)) [
  | inl e ↦ absurd (omega (arith, find_folder-none items id e))
  | inr (f, e) ↦
      rw (e, ← find_folder_sound items id f e)
        (open_or_add_shown (shows_folder f.id) _ s (==-refl f.id))
]

Shown-request :
    (uuid : String) (s : TabsState) (id : String) (items : Items)
    → 1 ≤ count_request id items
    → Shown (shows_request id) (open_found_request uuid s (find_item_request items id))
Shown-request uuid s id items h = elim (Option-cases (find_item_request items id)) [
  | inl e ↦ absurd (omega (arith, find_item_request-none items id e))
  | inr (r, e) ↦ rw (e, ← find_item_request_sound items id r e) (open_request_tab_shown uuid s r)
]

-- What holds of the folders and the requests of a collection holds of the results from it.
module _ (P : SearchResult → Type 0) (whole : Items) (collection_id : String)
    (folders : (r : FolderResult)
      → r.collection_id ≡ collection_id
      → 1 ≤ count_folder r.id whole
      → P (of_folder r))
    (requests : (r : RequestResult)
      → r.collection_id ≡ collection_id
      → 1 ≤ count_request r.id whole
      → P (of_request r)) where
  All-collect_results :
      (items : Items) (prefix : String) (out : List SearchResult)
      → ((a : String) → count_folder a items ≤ count_folder a whole)
      → ((a : String) → count_request a items ≤ count_request a whole)
      → All P out
      → All P (collect_results items collection_id prefix out)
  unfolding collect_results count_folder count_request
  All-collect_results nil prefix out less less' all = all
  All-collect_results (cons_request r rest) prefix out less less' all =
      All-collect_results rest prefix
        (out
          ++ (of_request (record {
            id = r.id;
            label = r.name;
            method = r.method;
            url = r.url;
            collection_id = collection_id;
          })
              ∷ []))
        less (λ a. omega (arith, less' a))
        (All-append P out _ all (requests _ refl (ground (arith, less' r.id)), tt))
  All-collect_results (cons_folder f kids rest) prefix out less less' all =
      All-collect_results rest prefix _ (λ a. omega (arith, less a)) (λ a. omega (arith, less' a))
        (All-collect_results kids (crumb prefix f.name) _ (λ a. omega (arith, less a))
          (λ a. omega (arith, less' a))
          (All-append P out _ all (folders _ refl (ground (arith, less f.id)), tt)))

-- Each collection is the first of its id.
abbrev pub IsFirst : List Collection → Collection → Type 0
IsFirst collections c = find (is_collection_of c.id) collections ≡ some c

module _ (uuid : String) (collections : List Collection) (s : TabsState) where
  abbrev Opens : SearchResult → Type 0
  Opens r = ShowsResult r (select_tab uuid collections s r)

  Opens-collection : (c : Collection) (label : String) → Opens (of_collection c.id label c)
  unfolding open_collection_tab
  Opens-collection c label = open_or_add_shown (shows_collection c.id) _ s (==-refl c.id)

  All-all_results :
      (cs : List Collection) (out : List SearchResult)
      → All (IsFirst collections) cs
      → All Opens out
      → All Opens (all_results cs out)
  unfolding all_results
  All-all_results [] out first all = all
  All-all_results (c ∷ cs) out (first, firsts) all = All-all_results cs _ firsts (
      All-collect_results Opens c.items c.id
        (λ r same h. rw (same, first) (Shown-folder uuid s c.id r.id c.items h))
        (λ r same h. rw (same, first) (Shown-request uuid s r.id c.items h)) c.items c.name _
        (λ a. omega arith) (λ a. omega arith)
        (All-append Opens out _ all (Opens-collection c c.name, tt)))

-- Where no two collections share an id, choosing any result that the search offers makes a tab of
-- its item active: the first open tab of the item, or a new one if none was open.
pub handle_select_opens :
    (uuid : String) (collections : List Collection) (ui : UiState) (s : TabsState)
    → All (IsFirst collections) collections
    → All
        (λ r. ShowsResult r (handle_select uuid collections (ui, s) r).1)
        (all_results collections [])
unfolding handle_select
handle_select_opens uuid collections ui s first =
    All-all_results uuid collections s collections [] first tt
