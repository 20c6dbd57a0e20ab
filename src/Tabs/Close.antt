-- ===== src/Tabs/Close.antt =====
-- Closing tabs, and what the state is then.
use reqlet.Common.{
  ℕ, ◌-◌, ◌≤◌, ◌≡◌, refl, ap, ◌≢◌, String, ◌==◌, arith, not, Option, none, some, List, [], ◌∷◌,
  Bool-cases, Option-cases, inl, inr, find, find_index, filter, length, take_last, length-take_last,
  length-append, ==-ne, ==-eq,
}
use Prim.Native.Nat.{min}
use reqlet.Types.Tab.{Tab}
use reqlet.Tabs.State.{TabsState}
use reqlet.Tabs.Actions.{has_id, neighbour_id, remember_closed, after_close, close_tab}
use reqlet.Tabs.Valid.{
  count_tab, Valid, find_index-none, get_elem?-count_tab, get_elem?-some, count_tab-filter_ne,
  count_tab-filter-le,
}

length-remember_closed :
    (tab : Option Tab) (closed : List Tab)
    → length closed ≤ 10
    → length (remember_closed tab closed) ≤ 10
length-remember_closed none closed h = h
length-remember_closed (some tab) closed h =
    omega (arith, length-append (take_last 9 closed) (tab ∷ []), length-take_last 9 closed)

-- Next to the place of a closed tab there is a tab, if any remains.
neighbour_id-some :
    (i : ℕ) (r : Tab) (remaining : List Tab)
    → (n : String) × (neighbour_id (some i) (r ∷ remaining) ≡ some n)
      × (1 ≤ count_tab n (r ∷ remaining))
neighbour_id-some i r remaining =
    let all = r ∷ remaining in
    let (t, e) = get_elem?-some all (min i (length all - 1)) (omega arith) in
    (t.id, rw (e, neighbour_id), get_elem?-count_tab all (min i (length all - 1)) t e)

after_close-Valid :
    (s : TabsState) (id : String) (remaining : List Tab) (idx : Option ℕ) (closed : List Tab)
    → ((a : String) → count_tab a remaining ≤ 1)
    → length closed ≤ 10
    → (s.active_tab_id ≢ id → remaining ≢ [] → 1 ≤ count_tab s.active_tab_id remaining)
    → (s.active_tab_id ≡ id → remaining ≢ [] → idx ≢ none)
    → (t : TabsState) × (after_close s id remaining idx closed ≡ some t) × Valid t
after_close-Valid s id [] idx closed u b other same = (
  record { tabs = []; active_tab_id = ""; closed_tabs = closed },
  refl,
  record { unique = u; active = inl (refl, refl); bounded = b },
)
after_close-Valid s id (r ∷ rs) idx closed u b other same =
    elim (Bool-cases (s.active_tab_id == id)) [
      | inl e ↦ elim (Option-cases idx) [
        | inl z ↦ absurd (same (==-eq _ _ e) (λ h. cc h) z)
        | inr (i, z) ↦
            let (n, found, open_still) = neighbour_id-some i r rs in
            (
              record { tabs = r ∷ rs; active_tab_id = n; closed_tabs = closed },
              rw (e, after_close, z, found),
              record { unique = u; active = inr open_still; bounded = b },
            )
      ]
      | inr e ↦ (
        record { tabs = r ∷ rs; active_tab_id = s.active_tab_id; closed_tabs = closed },
        rw e,
        record { unique = u; active = inr (other (==-ne _ _ e) (λ h. cc h)); bounded = b },
      )
    ]

-- From a valid state, closing any tab does not fail, and the state after it is valid.
pub close_tab-Valid :
    (s : TabsState) (id : String) → Valid s → (t : TabsState) × (close_tab s id ≡ some t) × Valid t
unfolding close_tab
close_tab-Valid s id v =
    after_close-Valid s id (filter (λ t. not (t.id == id)) s.tabs) (find_index (has_id id) s.tabs)
      (remember_closed (find (has_id id) s.tabs) s.closed_tabs)
      (λ a. omega (arith, count_tab-filter-le id a s.tabs, v.unique a))
      (length-remember_closed (find (has_id id) s.tabs) s.closed_tabs v.bounded)
      (λ ne some_left. elim v.active [
        | inl (e, _) ↦ absurd (some_left (rw e refl))
        | inr h ↦ omega (arith, count_tab-filter_ne id s.active_tab_id s.tabs ne)
      ])
      (λ eq some_left none_found. elim v.active [
        | inl (e, _) ↦ absurd (some_left (rw e refl))
        | inr h ↦
            absurd
              (omega (arith, ap (λ a. count_tab a s.tabs) eq, find_index-none id s.tabs none_found))
      ])
