-- ===== src/Tabs/Update.antt =====
-- gui/web/src/store/tabs.ts, `updateTab`: which tab a patch without an id changes.
use reqlet.Common.{
  ◌≡◌, refl, ◌∙◌, ◌≢◌, String, Option, none, some, List, [], ◌∷◌, ◌++◌, map, arith, if◌then◌else◌,
  ◌==◌, ==-refl, ==-false, find,
}
use reqlet.Types.Tab.{Tab}
use reqlet.Tabs.State.{TabsState}
use reqlet.Tabs.Patch.{TabPatch, patch_tab}
use reqlet.Tabs.Actions.{has_id, update_tab}
use reqlet.Tabs.Valid.{count_tab}

abbrev patched_if : String → String → TabPatch → Option Tab → Option Tab
patched_if id a patch none = none
patched_if id a patch (some t) = some (if a == id then patch_tab patch t else t)

find-patched :
    (id a : String) (patch : TabPatch) (ts : List Tab)
    → patch.id ≡ none
    → find (has_id a) (map (λ t. if t.id == id then patch_tab patch t else t) ts)
      ≡ patched_if id a patch (find (has_id a) ts)
find-patched id a patch [] h = refl
find-patched id a patch (t ∷ ts) h = ground (arith, find-patched id a patch ts h)

module _ (patch : TabPatch) (s : TabsState) (id : String) where
  pub find-update_tab :
      (t : Tab)
      → patch.id ≡ none
      → find (has_id id) s.tabs ≡ some t
      → find (has_id id) (update_tab s id patch).tabs ≡ some (patch_tab patch t)
  unfolding update_tab
  find-update_tab t h e = find-patched id id patch s.tabs h ∙ rw (e, ==-refl id) refl

  pub find-update_tab_ne :
      (a : String)
      → patch.id ≡ none
      → a ≢ id
      → find (has_id a) (update_tab s id patch).tabs ≡ find (has_id a) s.tabs
  unfolding update_tab
  find-update_tab_ne a h ne = find-patched id a patch s.tabs h ∙ ground (arith, ==-false a id ne)

-- A tab that is added last is found under its id, if no other has it.
pub find-append_tab :
    (ts : List Tab) (x : Tab) → count_tab x.id ts ≡ 0 → find (has_id x.id) (ts ++ (x ∷ [])) ≡ some x
find-append_tab [] x h = rw (==-refl x.id) refl
find-append_tab (t ∷ ts) x h = ground (arith, find-append_tab ts x)
