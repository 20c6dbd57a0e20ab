-- ===== src/Orphans.antt =====
-- gui/web/src/components/layout/app-layout.tsx: the tabs of items that are gone are closed
-- (`collectItemIds`, `useOrphanTabCleanup`).
pub mod Laws
use reqlet.Common.{
  String, Bool, true, false, not, ◌&&◌, ◌||◌, Option, none, some, List, [], ◌∷◌, map, ◌==◌, truthy,
  filter, any,
}
use reqlet.Types.Collection.{Items, nil, cons_request, cons_folder, Collection}
use reqlet.Types.Tab.{Tab, TabType}
use reqlet.Tabs.State.{TabsState}
use reqlet.Tabs.Actions.{close_tab}

-- The sets of request ids and of folder ids, with what is added last in front.
unfoldable pub collect_item_ids : Items → List String × List String → List String × List String
collect_item_ids nil ids = ids
collect_item_ids (cons_request r rest) (request_ids, folder_ids) =
    collect_item_ids rest (r.id ∷ request_ids, folder_ids)
collect_item_ids (cons_folder f kids rest) (request_ids, folder_ids) =
    collect_item_ids rest (collect_item_ids kids (request_ids, f.id ∷ folder_ids))

abbrev pub collect_all : List Collection → List String × List String → List String × List String
collect_all [] ids = ids
collect_all (c ∷ cs) ids = collect_all cs (collect_item_ids c.items ids)

-- `id && !ids.has(id)`
abbrev pub is_missing : Option String → List String → Bool
is_missing none ids = false
is_missing (some id) ids = truthy id && not (any (λ i. i == id) ids)

abbrev is_request : TabType → Bool
is_request TabType.request = true
is_request _ = false

abbrev is_folder : TabType → Bool
is_folder TabType.folder = true
is_folder _ = false

-- The test of the `filter`.
unfoldable pub is_orphan : List Collection → Tab → Bool
unfolding collect_item_ids
is_orphan collections t =
    let collection_ids = map (λ c. c.id) collections in
    let (request_ids, folder_ids) = collect_all collections ([], []) in
    is_missing t.collection_id collection_ids
    || ((is_request t.type && is_missing t.request_id request_ids)
        || (is_folder t.type && is_missing t.folder_id folder_ids))

-- `tabs.forEach((t) => closeTab(t.id))`
abbrev pub close_tabs : TabsState → List Tab → Option TabsState
close_tabs s [] = some s
close_tabs s (t ∷ ts) = elim (close_tab s t.id) [ none ↦ none | some next ↦ close_tabs next ts ]

unfoldable pub orphan_tab_cleanup : List Collection → TabsState → Option TabsState
unfolding is_orphan
orphan_tab_cleanup collections s = close_tabs s (filter (is_orphan collections) s.tabs)
