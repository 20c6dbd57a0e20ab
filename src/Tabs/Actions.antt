-- ===== src/Tabs/Actions.antt =====
-- gui/web/src/store/tabs.ts: the actions that copy, close, move and change tabs.
use Prim.Native.Nat.{min}
use reqlet.Common.{
  ℕ, suc, ◌-◌, String, Bool, true, false, not, Option, none, some, List, ◌∷◌, [], ◌++◌, ◌==◌,
  nat_eq, if◌then◌else◌, map, filter, find, find_index, any, length, take, drop, take_last,
  get_elem?,
}
use reqlet.Types.Request.{RequestState}
use reqlet.Types.Tab.{Tab, RequestSubTab, ResponseSubTab, CollectionSubTab}
use reqlet.Tabs.Patch.{TabPatch, patch_tab}
use reqlet.Tabs.State.{TabsState, next_id, get_last}

abbrev pub has_id : String → Tab → Bool
has_id id t = t.id == id

-- `tabs[idx]` is there, since `findIndex` gave idx.
unfoldable pub duplicate_tab : String → TabsState → String → TabsState
duplicate_tab uuid s id = elim (find_index (has_id id) s.tabs) [
  | none ↦ s
  | some idx ↦ elim (get_elem? s.tabs idx) [
    | none ↦ s
    | some t ↦
        let copy = record t { id = next_id uuid; dirty = false } in
        record s {
          tabs = take (suc idx) s.tabs ++ (copy ∷ drop (suc idx) s.tabs);
          active_tab_id = copy.id;
        }
  ]
]

unfoldable pub close_other_tabs : TabsState → String → TabsState
close_other_tabs s id = elim (find (has_id id) s.tabs) [
  | none ↦ s
  | some kept ↦
      let closed = filter (λ t. not (t.id == id)) s.tabs in
      record {
        tabs = kept ∷ [];
        active_tab_id = kept.id;
        closed_tabs = take_last 10 (s.closed_tabs ++ closed);
      }
]

-- `kept` holds the tab that was found, so it has a last one.
abbrev pub close_right : TabsState → List Tab → List Tab → TabsState
close_right s kept [] = s
close_right s [] (c ∷ closed) = s
close_right s (k ∷ kept) (c ∷ closed) = record {
  tabs = k ∷ kept;
  active_tab_id =
      if any (has_id s.active_tab_id) (k ∷ kept) then s.active_tab_id else (get_last k kept).id;
  closed_tabs = take_last 10 (s.closed_tabs ++ (c ∷ closed));
}

unfoldable pub close_tabs_to_right : TabsState → String → TabsState
close_tabs_to_right s id = elim (find_index (has_id id) s.tabs) [
  | none ↦ s
  | some idx ↦ close_right s (take (suc idx) s.tabs) (drop (suc idx) s.tabs)
]

-- `none` stands for a list that holds `undefined`, which an index past the end would put there.
unfoldable pub reorder_tabs : TabsState → ℕ → ℕ → Option TabsState
reorder_tabs s from_idx to_idx =
    if nat_eq from_idx to_idx then some s else elim (get_elem? s.tabs from_idx) [
      | none ↦ none
      | some moved ↦
          let rest = take from_idx s.tabs ++ drop (suc from_idx) s.tabs in
          some (record s { tabs = take to_idx rest ++ (moved ∷ drop to_idx rest) })
    ]

-- `remaining[Math.min(idx, remaining.length - 1)].id`, where idx is -1 for `none`; `none` stands for
-- the TypeError of reading `id` of `undefined`.
abbrev pub neighbour_id : Option ℕ → List Tab → Option String
neighbour_id none remaining = none
neighbour_id (some idx) remaining = elim (get_elem? remaining (min idx (length remaining - 1))) [
  | none ↦ none
  | some t ↦ some t.id
]

abbrev pub remember_closed : Option Tab → List Tab → List Tab
remember_closed none closed_tabs = closed_tabs
remember_closed (some tab) closed_tabs = take_last 9 closed_tabs ++ (tab ∷ [])

abbrev pub after_close : TabsState → String → List Tab → Option ℕ → List Tab → Option TabsState
after_close s id [] idx closed =
    some (record { tabs = []; active_tab_id = ""; closed_tabs = closed })
after_close s id (r ∷ remaining) idx closed =
    let keep =
      some
        (record { tabs = r ∷ remaining; active_tab_id = s.active_tab_id; closed_tabs = closed }) in
    if s.active_tab_id == id
    then elim (neighbour_id idx (r ∷ remaining)) [
      | none ↦ none
      | some next_active ↦
          some (record { tabs = r ∷ remaining; active_tab_id = next_active; closed_tabs = closed })
    ]
    else keep

unfoldable pub close_tab : TabsState → String → Option TabsState
close_tab s id =
    after_close s id (filter (λ t. not (t.id == id)) s.tabs) (find_index (has_id id) s.tabs)
      (remember_closed (find (has_id id) s.tabs) s.closed_tabs)

-- `tabs.map((t) => t.id === id ? f(t) : t)`
abbrev pub change_tab : String → (Tab → Tab) → TabsState → TabsState
change_tab id f s = record s { tabs = map (λ t. if t.id == id then f t else t) s.tabs }

unfoldable pub update_tab : TabsState → String → TabPatch → TabsState
update_tab s id patch = change_tab id (patch_tab patch) s

unfoldable pub update_tab_request : TabsState → String → (RequestState → RequestState) → TabsState
update_tab_request s id updater =
    change_tab id (λ t. record t { request = updater t.request; dirty = true }) s

unfoldable pub set_tab_sub_tab : TabsState → String → RequestSubTab → TabsState
set_tab_sub_tab s id tab = change_tab id (λ t. record t { request_sub_tab = tab }) s

unfoldable pub set_tab_response_sub_tab : TabsState → String → ResponseSubTab → TabsState
set_tab_response_sub_tab s id tab = change_tab id (λ t. record t { response_sub_tab = tab }) s

unfoldable pub set_tab_collection_sub_tab : TabsState → String → CollectionSubTab → TabsState
set_tab_collection_sub_tab s id sub = change_tab id (λ t. record t { collection_sub_tab = sub }) s

-- What is written to storage: `closedTabs` is left out.
pub record Persisted : Type 0 where
  pub tabs : List Tab
  pub active_tab_id : String

unfoldable pub partialize : TabsState → Persisted
partialize s = record {
  tabs = map (λ (t : Tab). record t { is_sending = false }) s.tabs;
  active_tab_id = s.active_tab_id;
}
