-- ===== src/Tabs/Open.antt =====
-- Opening the tab of an item (gui/web/src/store/tabs.ts).
use reqlet.Common.{
  ◌≤◌, ◌≡◌, refl, String, arith, true, Bool, none, some, List, [], ◌∷◌, ◌++◌, Option-cases, inl,
  inr, find, ==-refl,
}
use reqlet.Types.Collection.{RequestItem, FolderItem, Collection, Environment}
use reqlet.Types.Tab.{Tab}
use reqlet.Tabs.State.{
  TabsState, open_or_add, open_collection_tab, open_folder_tab, open_globals_tab,
  open_environment_tab, open_request_tab, shows_collection, shows_folder, shows_globals,
  shows_environment, shows_request,
}
use reqlet.Tabs.Valid.{count_tab, Valid, count_tab-append}

module _ (p : Tab → Bool) where
  find-append_none :
      (ts : List Tab) (t : Tab) → find p ts ≡ none → p t ≡ true → find p (ts ++ (t ∷ [])) ≡ some t
  find-append_none [] t h k = ground arith
  find-append_none (u ∷ ts) t h k = ground (arith, find-append_none ts t)

  find-count_tab : (ts : List Tab) (t : Tab) → find p ts ≡ some t → 1 ≤ count_tab t.id ts
  find-count_tab [] t h = cc
  find-count_tab (u ∷ ts) t h = ground (arith, find-count_tab ts t)

  open_or_add-some :
      (t x : Tab) (s : TabsState)
      → find p s.tabs ≡ some x
      → open_or_add p t s ≡ record s { active_tab_id = x.id }
  open_or_add-some t x s e = rw (e, open_or_add)

  open_or_add-none :
      (t : Tab) (s : TabsState)
      → find p s.tabs ≡ none
      → open_or_add p t s ≡ record s { tabs = s.tabs ++ (t ∷ []); active_tab_id = t.id }
  open_or_add-none t s e = rw (e, open_or_add)

  open_or_add_twice :
      (t u : Tab) (s : TabsState)
      → p t ≡ true
      → open_or_add p u (open_or_add p t s) ≡ open_or_add p t s
  open_or_add_twice t u s h = elim (Option-cases (find p s.tabs)) [
    | inl e ↦ rw (open_or_add-none t s e) (
        open_or_add-some u t (record s { tabs = s.tabs ++ (t ∷ []); active_tab_id = t.id })
          (find-append_none s.tabs t e h))
    | inr (x, e) ↦
        rw (open_or_add-some t x s e) (open_or_add-some u x (record s { active_tab_id = x.id }) e)
  ]

  -- The tab that is shown after an opening.
  pub open_or_add_shown :
      (t : Tab) (s : TabsState)
      → p t ≡ true
      → (x : Tab) × (find p (open_or_add p t s).tabs ≡ some x)
        × ((open_or_add p t s).active_tab_id ≡ x.id)
  open_or_add_shown t s h = elim (Option-cases (find p s.tabs)) [
    | inl e ↦ (t, rw (e, open_or_add) (find-append_none s.tabs t e h), rw (e, open_or_add))
    | inr (x, e) ↦ (x, rw (e, open_or_add) e, rw (e, open_or_add))
  ]

  pub open_or_add-Valid :
      (t : Tab) (s : TabsState) → count_tab t.id s.tabs ≡ 0 → Valid s → Valid (open_or_add p t s)
  open_or_add-Valid t s fresh v = elim (Option-cases (find p s.tabs)) [
    | inl e ↦
        rw (e, open_or_add)
          (record {
            unique = λ a. ground (arith, count_tab-append a s.tabs (t ∷ []), v.unique a);
            active = inr (ground (arith, count_tab-append t.id s.tabs (t ∷ [])));
            bounded = v.bounded;
          })
    | inr (x, e) ↦
        rw (e, open_or_add)
          (record {
            unique = v.unique;
            active = inr (find-count_tab s.tabs x e);
            bounded = v.bounded;
          })
  ]

-- Opening the tab of a request, a collection, a folder, an environment or the globals a second time
-- changes nothing: the item is shown in one tab.
pub open_tabs_twice :
    (uuid uuid' : String) (s : TabsState) (item : RequestItem) (collection : Collection)
    (folder : FolderItem) (collection_id : String) (env : Environment)
    → (open_request_tab uuid' (open_request_tab uuid s item) item ≡ open_request_tab uuid s item)
      × (open_collection_tab uuid' (open_collection_tab uuid s collection) collection
          ≡ open_collection_tab uuid s collection)
      × (open_folder_tab uuid' (open_folder_tab uuid s folder collection_id) folder collection_id
          ≡ open_folder_tab uuid s folder collection_id)
      × (open_environment_tab uuid' (open_environment_tab uuid s env) env
          ≡ open_environment_tab uuid s env)
      × (open_globals_tab uuid' (open_globals_tab uuid s) ≡ open_globals_tab uuid s)
unfolding open_request_tab open_collection_tab open_folder_tab open_environment_tab open_globals_tab
open_tabs_twice uuid uuid' s item collection folder collection_id env = (
  open_or_add_twice (shows_request item.id) _ _ s (==-refl item.id),
  open_or_add_twice (shows_collection collection.id) _ _ s (==-refl collection.id),
  open_or_add_twice (shows_folder folder.id) _ _ s (==-refl folder.id),
  open_or_add_twice (shows_environment env.id) _ _ s (==-refl env.id),
  open_or_add_twice shows_globals _ _ s refl,
)

-- After `openRequestTab` the active tab is the first one of the request, whether it was open before
-- or is new.
pub open_request_tab_shown :
    (uuid : String) (s : TabsState) (item : RequestItem)
    → (x : Tab) × (find (shows_request item.id) (open_request_tab uuid s item).tabs ≡ some x)
      × ((open_request_tab uuid s item).active_tab_id ≡ x.id)
unfolding open_request_tab
open_request_tab_shown uuid s item = open_or_add_shown (shows_request item.id) _ s (==-refl item.id)
