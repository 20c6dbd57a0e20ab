-- ===== src/Tabs/Steps.antt =====
-- gui/web/src/store/tabs.ts: runs of the tab actions, one after another, in any order, as the
-- components call them. `setActiveTab` has no guard; its one caller, tab-bar.tsx, passes the id of a
-- tab of the bar. No caller of `updateTab` patches the id.
use reqlet.Common.{
  ℕ, suc, ◌≤◌, ◌≡◌, refl, sym, ap, ◌∙◌, inl, inr, String, none, some, List, [], ◌∷◌, ◌++◌, map,
  arith, if◌then◌else◌, ◌==◌, length,
}
use mathlib.Core.Path.{subst}
use mathlib.Core.Option.{some-injective}
use reqlet.Types.Request.{RequestState}
use reqlet.Types.Collection.{RequestItem, FolderItem, Collection, Environment}
use reqlet.Types.Tab.{Tab, RequestSubTab, ResponseSubTab, CollectionSubTab}
use reqlet.Tabs.Patch.{TabPatch, patch_tab}
use reqlet.Tabs.State.{
  TabsState, initial_tabs, next_id, set_active_tab, reopen, reopen_last_closed_tab, get_last,
  but_last, open_request_tab, open_collection_tab, open_folder_tab, open_environment_tab,
  open_globals_tab, open_new_tab,
}
use reqlet.Tabs.Actions.{
  duplicate_tab, close_other_tabs, close_tabs_to_right, close_tab, reorder_tabs, change_tab,
  update_tab, update_tab_request, set_tab_sub_tab, set_tab_response_sub_tab,
  set_tab_collection_sub_tab,
}
use reqlet.Tabs.Valid.{Valid, count_tab, count_tab-append}
use reqlet.Tabs.Open.{open_or_add-Valid}
use reqlet.Tabs.Close.{close_tab-Valid}
use reqlet.Tabs.Order.{
  duplicate_tab-Valid, close_other_tabs-Valid, close_tabs_to_right-Valid, reorder_tabs-counts,
}

-- One action, from a state to the next. An action that makes a tab draws an id that no tab has.
pub data Step (s : TabsState) : TabsState → Type 0 where
  activates : (id : String) → 1 ≤ count_tab id s.tabs → Step s (set_active_tab s id)
  reopens :
      (uuid : String) → count_tab (next_id uuid) s.tabs ≡ 0 → Step s (reopen_last_closed_tab uuid s)
  opens_request :
      (uuid : String) (item : RequestItem)
      → count_tab (next_id uuid) s.tabs ≡ 0
      → Step s (open_request_tab uuid s item)
  opens_collection :
      (uuid : String) (collection : Collection)
      → count_tab (next_id uuid) s.tabs ≡ 0
      → Step s (open_collection_tab uuid s collection)
  opens_folder :
      (uuid : String) (folder : FolderItem) (collection_id : String)
      → count_tab (next_id uuid) s.tabs ≡ 0
      → Step s (open_folder_tab uuid s folder collection_id)
  opens_environment :
      (uuid : String) (env : Environment)
      → count_tab (next_id uuid) s.tabs ≡ 0
      → Step s (open_environment_tab uuid s env)
  opens_globals :
      (uuid : String) → count_tab (next_id uuid) s.tabs ≡ 0 → Step s (open_globals_tab uuid s)
  opens_new : (uuid : String) → count_tab (next_id uuid) s.tabs ≡ 0 → Step s (open_new_tab uuid s)
  duplicates :
      (uuid id : String) → count_tab (next_id uuid) s.tabs ≡ 0 → Step s (duplicate_tab uuid s id)
  closes_others : (id : String) → Step s (close_other_tabs s id)
  closes_right : (id : String) → Step s (close_tabs_to_right s id)
  closes : {t : TabsState} (id : String) → close_tab s id ≡ some t → Step s t
  reorders : {t : TabsState} (i j : ℕ) → reorder_tabs s i j ≡ some t → Step s t
  updates : (id : String) (patch : TabPatch) → patch.id ≡ none → Step s (update_tab s id patch)
  updates_request :
      (id : String) (updater : RequestState → RequestState)
      → Step s (update_tab_request s id updater)
  sets_sub_tab : (id : String) (tab : RequestSubTab) → Step s (set_tab_sub_tab s id tab)
  sets_response_sub_tab :
      (id : String) (tab : ResponseSubTab) → Step s (set_tab_response_sub_tab s id tab)
  sets_collection_sub_tab :
      (id : String) (sub : CollectionSubTab) → Step s (set_tab_collection_sub_tab s id sub)

-- Any number of actions.
pub data Reach (s : TabsState) : TabsState → Type 0 where
  here : Reach s s
  next : {t u : TabsState} → Reach s t → Step t u → Reach s u

initial_tabs-Valid : Valid initial_tabs
initial_tabs-Valid = record {
  unique = λ a. ground arith;
  active = inr (ground arith);
  bounded = omega arith;
}

count_tab-change_tab :
    (id : String) (f : Tab → Tab)
    → ((t : Tab) → (f t).id ≡ t.id)
    → (a : String) (ts : List Tab)
    → count_tab a (map (λ t. if t.id == id then f t else t) ts) ≡ count_tab a ts
count_tab-change_tab id f keeps a [] = refl
count_tab-change_tab id f keeps a (t ∷ ts) =
    ground (arith, keeps t, count_tab-change_tab id f keeps a ts)

change_tab-Valid :
    (id : String) (f : Tab → Tab) (s : TabsState)
    → ((t : Tab) → (f t).id ≡ t.id)
    → Valid s
    → Valid (change_tab id f s)
change_tab-Valid id f s keeps v = record {
  unique = λ a. omega (arith, count_tab-change_tab id f keeps a s.tabs, v.unique a);
  active = elim v.active [
    | inl (e, z) ↦ inl (rw e refl, z)
    | inr h ↦ inr (omega (arith, count_tab-change_tab id f keeps s.active_tab_id s.tabs))
  ];
  bounded = v.bounded;
}

length-but_last : (t : Tab) (ts : List Tab) → length (but_last t ts) ≡ length ts
length-but_last t [] = refl
length-but_last t (u ∷ us) = ap suc (length-but_last u us)

reopen-Valid :
    (uuid : String) (s : TabsState) (closed : List Tab)
    → length closed ≤ 10
    → count_tab (next_id uuid) s.tabs ≡ 0
    → Valid s
    → Valid (reopen uuid s closed)
reopen-Valid uuid s [] b fresh v = v
reopen-Valid uuid s (t ∷ ts) b fresh v =
    let restored = record (get_last t ts) { id = next_id uuid } in
    record {
      unique = λ a. ground (arith, count_tab-append a s.tabs (restored ∷ []), v.unique a);
      active = inr (ground (arith, count_tab-append (next_id uuid) s.tabs (restored ∷ [])));
      bounded = omega (arith, length-but_last t ts);
    }

patch_tab_id : (p : TabPatch) (t : Tab) → p.id ≡ none → (patch_tab p t).id ≡ t.id
patch_tab_id p t h = ground arith

add_tab-Valid :
    (t : Tab) (s : TabsState)
    → count_tab t.id s.tabs ≡ 0
    → Valid s
    → Valid (record s { tabs = s.tabs ++ (t ∷ []); active_tab_id = t.id })
add_tab-Valid t s fresh v = record {
  unique = λ a. ground (arith, count_tab-append a s.tabs (t ∷ []), v.unique a);
  active = inr (ground (arith, count_tab-append t.id s.tabs (t ∷ [])));
  bounded = v.bounded;
}

no_tabs : (ts : List Tab) → ((a : String) → count_tab a ts ≡ 0) → ts ≡ []
no_tabs [] h = refl
no_tabs (t ∷ ts) h = absurd (let zero_times = h t.id in ground arith)

reorder_tabs-Valid : (s t : TabsState) (i j : ℕ) → reorder_tabs s i j ≡ some t → Valid s → Valid t
reorder_tabs-Valid s t i j h v =
    let (counts, same_active, same_closed) = reorder_tabs-counts s t i j h in
    record {
      unique = λ a. omega (arith, counts a, v.unique a);
      active = elim v.active [
        | inl (none_open, z) ↦
            inl (no_tabs t.tabs (λ a. counts a ∙ ap (count_tab a) none_open), same_active ∙ z)
        | inr is_open ↦ inr (rw same_active (omega (arith, counts s.active_tab_id)))
      ];
      bounded = rw same_closed v.bounded;
    }

Step-Valid : {s t : TabsState} → Step s t → Valid s → Valid t
unfolding set_active_tab reopen_last_closed_tab open_request_tab open_collection_tab open_folder_tab
    open_environment_tab open_globals_tab open_new_tab update_tab update_tab_request set_tab_sub_tab
    set_tab_response_sub_tab set_tab_collection_sub_tab
Step-Valid {s} (activates id is_open) v = record {
  unique = v.unique;
  active = inr is_open;
  bounded = v.bounded;
}
Step-Valid {s} (reopens uuid fresh) v = reopen-Valid uuid s s.closed_tabs v.bounded fresh v
Step-Valid {s} (opens_request uuid item fresh) v = open_or_add-Valid _ _ s fresh v
Step-Valid {s} (opens_collection uuid collection fresh) v = open_or_add-Valid _ _ s fresh v
Step-Valid {s} (opens_folder uuid folder id fresh) v = open_or_add-Valid _ _ s fresh v
Step-Valid {s} (opens_environment uuid env fresh) v = open_or_add-Valid _ _ s fresh v
Step-Valid {s} (opens_globals uuid fresh) v = open_or_add-Valid _ _ s fresh v
Step-Valid {s} (opens_new uuid fresh) v = add_tab-Valid _ s fresh v
Step-Valid {s} (duplicates uuid id fresh) v = duplicate_tab-Valid uuid s id fresh v
Step-Valid {s} (closes_others id) v = close_other_tabs-Valid s id v
Step-Valid {s} (closes_right id) v = close_tabs_to_right-Valid s id v
Step-Valid {s} {t} (closes id e) v =
    let (u, e', w) = close_tab-Valid s id v in subst Valid (some-injective _ _ (sym e' ∙ e)) w
Step-Valid {s} {t} (reorders i j e) v = reorder_tabs-Valid s t i j e v
Step-Valid {s} (updates id patch e) v = change_tab-Valid id _ s (λ t. patch_tab_id patch t e) v
Step-Valid {s} (updates_request id updater) v = change_tab-Valid id _ s (λ t. refl) v
Step-Valid {s} (sets_sub_tab id tab) v = change_tab-Valid id _ s (λ t. refl) v
Step-Valid {s} (sets_response_sub_tab id tab) v = change_tab-Valid id _ s (λ t. refl) v
Step-Valid {s} (sets_collection_sub_tab id sub) v = change_tab-Valid id _ s (λ t. refl) v

-- Every state that the actions reach from the initial tabs has unique tab ids, an open active tab or
-- no tab at all, and at most ten closed tabs, if each new tab gets an id that no open tab has,
-- `setActiveTab` is given the id of an open tab, `updateTab` a patch without an id, and no action
-- throws or puts `undefined` into the list of tabs.
pub Reach-Valid : {t : TabsState} → Reach initial_tabs t → Valid t
Reach-Valid here = initial_tabs-Valid
Reach-Valid (next r step) = Step-Valid step (Reach-Valid r)
