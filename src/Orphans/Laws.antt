-- ===== src/Orphans/Laws.antt =====
-- Which tabs are left by the closing of the orphans.
use reqlet.Common.{
  ℕ, ◌≤◌, ◌≡◌, refl, sym, ap, ◌∙◌, inl, inr, String, Bool, true, not, Option, none, some, List, [],
  ◌∷◌, arith, ◌==◌, Bool-cases, Option-cases, ==-refl, ==-eq, filter,
}
use mathlib.Core.Option.{some-injective}
use reqlet.Types.Collection.{Collection}
use reqlet.Types.Tab.{Tab}
use reqlet.Tabs.State.{TabsState}
use reqlet.Tabs.Actions.{close_tab, after_close, neighbour_id}
use reqlet.Tabs.Valid.{Valid, count_tab}
use reqlet.Tabs.Close.{close_tab-Valid}
use reqlet.Tabs.Reopen.{filter_absent}
use reqlet.Orphans.{is_orphan, close_tabs, orphan_tab_cleanup}

tabs-after_close :
    (s t : TabsState) (id : String) (remaining : List Tab) (idx : Option ℕ) (closed : List Tab)
    → after_close s id remaining idx closed ≡ some t
    → t.tabs ≡ remaining
tabs-after_close s t id [] idx closed e = ap (λ u. u.tabs) (sym (some-injective _ _ e))
tabs-after_close s t id (r ∷ remaining) idx closed e = elim (Bool-cases (s.active_tab_id == id)) [
  | inl h ↦ elim (Option-cases (neighbour_id idx (r ∷ remaining))) [
    | inl z ↦
        let stuck : after_close s id (r ∷ remaining) idx closed ≡ none =
          rw (after_close, h, z) refl in
        cc
    | inr (n, z) ↦
        let is : after_close s id (r ∷ remaining) idx closed
            ≡ some (record { tabs = r ∷ remaining; active_tab_id = n; closed_tabs = closed }) =
          rw (after_close, h, z) refl in
        ap (λ u. u.tabs) (sym (some-injective _ _ (sym is ∙ e)))
  ]
  | inr h ↦
      let is : after_close s id (r ∷ remaining) idx closed
          ≡ some (record {
            tabs = r ∷ remaining;
            active_tab_id = s.active_tab_id;
            closed_tabs = closed;
          }) =
        rw (after_close, h) refl in
      ap (λ u. u.tabs) (sym (some-injective _ _ (sym is ∙ e)))
]

tabs-close_tab :
    (s t : TabsState) (id : String)
    → close_tab s id ≡ some t
    → t.tabs ≡ filter (λ x. not (x.id == id)) s.tabs
unfolding close_tab
tabs-close_tab s t id e = tabs-after_close s t id _ _ _ e

-- The tabs that are left when those of a list are taken out by their ids.
abbrev remove_all : List Tab → List Tab → List Tab
remove_all [] ts = ts
remove_all (x ∷ xs) ts = remove_all xs (filter (λ t. not (t.id == x.id)) ts)

remove_all_keeps :
    (xs : List Tab) (t : Tab) (ts : List Tab)
    → count_tab t.id xs ≡ 0
    → remove_all xs (t ∷ ts) ≡ t ∷ remove_all xs ts
remove_all_keeps [] t ts h = refl
remove_all_keeps (x ∷ xs) t ts h = elim (Bool-cases (t.id == x.id)) [
  | inl e ↦
      let same : x.id ≡ t.id = sym (==-eq t.id x.id e) in
      let hit : (x.id == t.id) ≡ true = rw same (==-refl t.id) in ground arith
  | inr e ↦ rw e (remove_all_keeps xs t (filter (λ u. not (u.id == x.id)) ts) (omega arith))
]

count_tab-filter_any :
    (p : Tab → Bool) (a : String) (ts : List Tab) → count_tab a (filter p ts) ≤ count_tab a ts
count_tab-filter_any p a [] = omega arith
count_tab-filter_any p a (t ∷ ts) = ground (arith, count_tab-filter_any p a ts)

remove_all-filter :
    (p : Tab → Bool) (ts : List Tab)
    → ((a : String) → count_tab a ts ≤ 1)
    → remove_all (filter p ts) ts ≡ filter (λ t. not (p t)) ts
remove_all-filter p [] u = refl
remove_all-filter p (t ∷ ts) u =
    let self : (t.id == t.id) ≡ true = ==-refl t.id in
    let alone : count_tab t.id ts ≡ 0 = ground (arith, u t.id) in
    let rest : remove_all (filter p ts) ts ≡ filter (λ t. not (p t)) ts =
      remove_all-filter p ts (λ a. omega (arith, u a)) in
    elim (Bool-cases (p t)) [
      | inl e ↦
          let step : filter (λ v. not (v.id == t.id)) (t ∷ ts) ≡ ts =
            rw self (filter_absent t.id ts alone) in
          rw e (ap (remove_all (filter p ts)) step ∙ rest)
      | inr e ↦ rw e (
          remove_all_keeps (filter p ts) t ts (omega (arith, count_tab-filter_any p t.id ts))
          ∙ ap (λ r. t ∷ r) rest)
    ]

close_tabs-Valid :
    (s : TabsState) (xs : List Tab)
    → Valid s
    → (t : TabsState) × (close_tabs s xs ≡ some t) × Valid t × (t.tabs ≡ remove_all xs s.tabs)
close_tabs-Valid s [] v = (s, refl, v, refl)
close_tabs-Valid s (x ∷ xs) v =
    let (next, e, w) = close_tab-Valid s x.id v in
    let (t, f, z, same) = close_tabs-Valid next xs w in
    (t, rw (close_tabs, e) f, z, same ∙ ap (remove_all xs) (tabs-close_tab s next x.id e))

-- The cleanup of a valid state does not fail, leaves the tabs that are no orphans, in their order,
-- and ends in a valid state.
pub orphan_tab_cleanup_lem :
    (collections : List Collection) (s : TabsState)
    → Valid s
    → (t : TabsState) × (orphan_tab_cleanup collections s ≡ some t)
      × Valid t
      × (t.tabs ≡ filter (λ x. not (is_orphan collections x)) s.tabs)
unfolding orphan_tab_cleanup
orphan_tab_cleanup_lem collections s v =
    let (t, e, w, same) = close_tabs-Valid s (filter (is_orphan collections) s.tabs) v in
    (t, e, w, same ∙ remove_all-filter (is_orphan collections) s.tabs v.unique)
