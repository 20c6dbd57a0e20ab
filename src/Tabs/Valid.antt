-- ===== src/Tabs/Valid.antt =====
-- When the tabs of gui/web/src/store/tabs.ts are well formed. The lemmas count ids in lists of tabs.
use reqlet.Common.{
  ℕ, zero, suc, ◌+◌, ◌≤◌, ◌<◌, ◌≡◌, refl, ap, ◌≢◌, String, ◌==◌, hits, arith, true, not, none, some,
  List, [], ◌∷◌, ◌++◌, ◌⊎◌, find, find_index, filter, take, drop, any, length, get_elem?,
  take-append-drop,
}
use reqlet.Types.Tab.{Tab}
use reqlet.Tabs.State.{TabsState, get_last}
use reqlet.Tabs.Actions.{has_id}

abbrev pub count_tab : String → List Tab → ℕ
count_tab a [] = 0
count_tab a (t ∷ ts) = hits t.id a + count_tab a ts

pub record Valid (s : TabsState) : Type 0 where
  -- No two tabs share an id.
  pub unique : (a : String) → count_tab a s.tabs ≤ 1
  -- The active tab is open, or no tab is.
  pub active : ((s.tabs ≡ []) × (s.active_tab_id ≡ "")) ⊎ (1 ≤ count_tab s.active_tab_id s.tabs)
  -- Ten closed tabs are remembered at most.
  pub bounded : length s.closed_tabs ≤ 10

pub count_tab-append :
    (a : String) (ts us : List Tab) → count_tab a (ts ++ us) ≡ count_tab a ts + count_tab a us
count_tab-append a [] us = omega arith
count_tab-append a (t ∷ ts) us = omega (arith, count_tab-append a ts us)

pub count_tab-take-drop :
    (a : String) (n : ℕ) (ts : List Tab)
    → count_tab a (take n ts) + count_tab a (drop n ts) ≡ count_tab a ts
count_tab-take-drop a n ts =
    omega
      (arith, count_tab-append a (take n ts) (drop n ts), ap (count_tab a) (take-append-drop n ts))

pub count_tab-find :
    (id : String) (ts : List Tab) (t : Tab)
    → find (has_id id) ts ≡ some t
    → (t.id ≡ id) × (1 ≤ count_tab id ts)
count_tab-find id [] t h = cc
count_tab-find id (u ∷ ts) t h = ground (arith, count_tab-find id ts t)

pub count_tab-find-none :
    (id : String) (ts : List Tab) → find (has_id id) ts ≡ none → count_tab id ts ≡ 0
count_tab-find-none id [] h = refl
count_tab-find-none id (u ∷ ts) h = ground (arith, count_tab-find-none id ts)

pub find_index-none :
    (id : String) (ts : List Tab) → find_index (has_id id) ts ≡ none → count_tab id ts ≡ 0
find_index-none id [] h = refl
find_index-none id (u ∷ ts) h = ground (arith, find_index-none id ts)

pub get_elem?-count_tab :
    (ts : List Tab) (i : ℕ) (t : Tab) → get_elem? ts i ≡ some t → 1 ≤ count_tab t.id ts
get_elem?-count_tab [] i t h = cc
get_elem?-count_tab (u ∷ ts) zero t h = ground arith
get_elem?-count_tab (u ∷ ts) (suc i) t h = omega (arith, get_elem?-count_tab ts i t h)

pub get_elem?-some : (ts : List Tab) (i : ℕ) → i < length ts → (t : Tab) × (get_elem? ts i ≡ some t)
get_elem?-some [] i h = absurd (omega arith)
get_elem?-some (t ∷ ts) zero h = (t, refl)
get_elem?-some (t ∷ ts) (suc i) h = get_elem?-some ts i (omega arith)

pub count_tab-filter_self :
    (id : String) (ts : List Tab) → count_tab id (filter (λ t. not (t.id == id)) ts) ≡ 0
count_tab-filter_self id [] = refl
count_tab-filter_self id (t ∷ ts) = ground (arith, count_tab-filter_self id ts)

pub count_tab-filter_ne :
    (id a : String) (ts : List Tab)
    → a ≢ id
    → count_tab a (filter (λ t. not (t.id == id)) ts) ≡ count_tab a ts
count_tab-filter_ne id a [] h = refl
count_tab-filter_ne id a (t ∷ ts) h = ground (arith, count_tab-filter_ne id a ts h)

pub count_tab-filter-le :
    (id a : String) (ts : List Tab)
    → count_tab a (filter (λ t. not (t.id == id)) ts) ≤ count_tab a ts
count_tab-filter-le id a [] = omega arith
count_tab-filter-le id a (t ∷ ts) = ground (arith, count_tab-filter-le id a ts)

pub count_tab-get_last : (t : Tab) (ts : List Tab) → 1 ≤ count_tab (get_last t ts).id (t ∷ ts)
count_tab-get_last t [] = ground arith
count_tab-get_last t (u ∷ ts) = omega (arith, count_tab-get_last u ts)

pub any-has_id : (id : String) (ts : List Tab) → any (has_id id) ts ≡ true → 1 ≤ count_tab id ts
any-has_id id [] h = cc
any-has_id id (t ∷ ts) h = ground (arith, any-has_id id ts)
