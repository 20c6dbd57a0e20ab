-- ===== src/Tabs/Order.antt =====
-- Moving, copying and changing tabs.
use reqlet.Common.{
  ℕ, zero, suc, ◌+◌, ◌≤◌, ◌<◌, ◌≡◌, refl, sym, ap, ◌∙◌, inl, inr, String, Bool, false, not, none,
  some, List, [], ◌∷◌, ◌++◌, arith, ◌==◌, nat_eq, Bool-cases, Option-cases, length, get_elem?, take,
  drop, filter, find, find_index, length-take_last, hits,
}
use reqlet.Tabs.Valid.{
  count_tab-get_last, get_elem?-some, any-has_id, Valid, count_tab, count_tab-append,
  count_tab-take-drop,
}
use reqlet.Tabs.Actions.{
  close_right, has_id, close_other_tabs, close_tabs_to_right, duplicate_tab, reorder_tabs,
}
use reqlet.Tabs.State.{next_id, TabsState}
use reqlet.Types.Tab.{Tab}

-- A tab in its place, and the rest.
count_tab-get_elem? :
    (a : String) (i : ℕ) (ts : List Tab) (t : Tab)
    → get_elem? ts i ≡ some t
    → count_tab a (take i ts) + count_tab a (drop (suc i) ts) + hits t.id a ≡ count_tab a ts
count_tab-get_elem? a i [] t h = cc
count_tab-get_elem? a zero (u ∷ ts) t h = ground arith
count_tab-get_elem? a (suc i) (u ∷ ts) t h = omega (arith, count_tab-get_elem? a i ts t h)

get_elem?-insert_at :
    (j : ℕ) (ts : List Tab) (m : Tab)
    → j ≤ length ts
    → get_elem? (take j ts ++ (m ∷ drop j ts)) j ≡ some m
get_elem?-insert_at zero ts m h = refl
get_elem?-insert_at (suc j) [] m h = absurd (omega arith)
get_elem?-insert_at (suc j) (t ∷ ts) m h = get_elem?-insert_at j ts m (omega arith)

length-without :
    (i : ℕ) (ts : List Tab)
    → i < length ts
    → suc (length (take i ts ++ drop (suc i) ts)) ≡ length ts
length-without i [] h = absurd (omega arith)
length-without zero (t ∷ ts) h = refl
length-without (suc i) (t ∷ ts) h = ap suc (length-without i ts (omega arith))

-- A move between two places of the list succeeds. It keeps every tab as often as it was, the active
-- tab and the closed ones, and puts the tab of the first place in the second.
pub reorder_tabs_lem :
    (s : TabsState) (i j : ℕ)
    → i < length s.tabs
    → j < length s.tabs
    → (t : TabsState) × (reorder_tabs s i j ≡ some t)
      × (get_elem? t.tabs j ≡ get_elem? s.tabs i)
      × ((a : String) → count_tab a t.tabs ≡ count_tab a s.tabs)
      × (t.active_tab_id ≡ s.active_tab_id)
      × (t.closed_tabs ≡ s.closed_tabs)
unfolding reorder_tabs
reorder_tabs_lem s i j li lj = elim (Bool-cases (nat_eq i j)) [
  | inl same ↦ (s, rw same refl, let e : i ≡ j = ground arith in rw e refl, λ a. refl, refl, refl)
  | inr differ ↦
      let (m, e) = get_elem?-some s.tabs i li in
      let rest = take i s.tabs ++ drop (suc i) s.tabs in
      (
        record s { tabs = take j rest ++ (m ∷ drop j rest) },
        rw (differ, reorder_tabs, e),
        get_elem?-insert_at j rest m (omega (arith, length-without i s.tabs li)) ∙ sym e,
        λ a. omega (
          arith,
          count_tab-get_elem? a i s.tabs m e,
          count_tab-append a (take i s.tabs) (drop (suc i) s.tabs),
          count_tab-append a (take j rest) (m ∷ drop j rest),
          count_tab-take-drop a j rest,
        ),
        refl,
        refl,
      )
]

-- A move that puts no hole into the list keeps every tab as often as it was, wherever it goes.
pub reorder_tabs-counts :
    (s t : TabsState) (i j : ℕ)
    → reorder_tabs s i j ≡ some t
    → ((a : String) → count_tab a t.tabs ≡ count_tab a s.tabs)
      × (t.active_tab_id ≡ s.active_tab_id)
      × (t.closed_tabs ≡ s.closed_tabs)
unfolding reorder_tabs
reorder_tabs-counts s t i j h = elim (Bool-cases (nat_eq i j)) [
  | inl same ↦
      let e : some s ≡ some t = sym (rw same refl) ∙ h in
      let is : s ≡ t = cc in rw (← is) (λ a. refl, refl, refl)
  | inr differ ↦ elim (Option-cases (get_elem? s.tabs i)) [
    | inl e ↦
        absurd (
          let no_tab : none ≡ some t = sym (rw (differ, e) refl) ∙ h in let clash : ⊥ = cc in clash)
    | inr (m, e) ↦
        let rest = take i s.tabs ++ drop (suc i) s.tabs in
        let u : TabsState = record s { tabs = take j rest ++ (m ∷ drop j rest) } in
        let made : some u ≡ some t = sym (rw (differ, e) refl) ∙ h in
        let is : u ≡ t = cc in
        rw (← is) (
          λ a. omega (
            arith,
            count_tab-get_elem? a i s.tabs m e,
            count_tab-append a (take i s.tabs) (drop (suc i) s.tabs),
            count_tab-append a (take j rest) (m ∷ drop j rest),
            count_tab-take-drop a j rest,
          ),
          refl,
          refl,
        )
  ]
]

find_index-get_elem? :
    (p : Tab → Bool) (ts : List Tab) (i : ℕ)
    → find_index p ts ≡ some i
    → (t : Tab) × (get_elem? ts i ≡ some t) × (find p ts ≡ some t)
find_index-get_elem? p [] i h = cc
find_index-get_elem? p (t ∷ ts) i h = elim (Bool-cases (p t)) [
  | inl e ↦ (t, let z : 0 ≡ i = ground arith in rw (← z) refl, rw e)
  | inr e ↦ elim (Option-cases (find_index p ts)) [
    | inl z ↦ absurd (ground arith)
    | inr (k, z) ↦
        let (u, x, y) = find_index-get_elem? p ts k z in
        (u, let z : suc k ≡ i = ground arith in rw (← z) x, rw (e, y))
  ]
]

pub duplicate_tab-Valid :
    (uuid : String) (s : TabsState) (id : String)
    → count_tab (next_id uuid) s.tabs ≡ 0
    → Valid s
    → Valid (duplicate_tab uuid s id)
unfolding duplicate_tab
duplicate_tab-Valid uuid s id fresh v = elim (Option-cases (find_index (has_id id) s.tabs)) [
  | inl e ↦ rw (e, duplicate_tab) v
  | inr (i, e) ↦
      let (t, g, _) = find_index-get_elem? (has_id id) s.tabs i e in
      let copy = record t { id = next_id uuid; dirty = false } in
      let before = take (suc i) s.tabs in
      let after = drop (suc i) s.tabs in
      rw (e, duplicate_tab, g)
        (record {
          unique = λ a. ground (
            arith,
            count_tab-append a before (copy ∷ after),
            count_tab-take-drop a (suc i) s.tabs,
            v.unique a,
          );
          active = inr (ground (arith, count_tab-append copy.id before (copy ∷ after)));
          bounded = v.bounded;
        })
]

pub close_other_tabs-Valid : (s : TabsState) (id : String) → Valid s → Valid (close_other_tabs s id)
unfolding close_other_tabs
close_other_tabs-Valid s id v = elim (Option-cases (find (has_id id) s.tabs)) [
  | inl e ↦ rw (e, close_other_tabs) v
  | inr (t, e) ↦
      rw (e, close_other_tabs)
        (record {
          unique = λ a. ground arith;
          active = inr (ground arith);
          bounded = length-take_last 10 (s.closed_tabs ++ filter (λ t'. not (t'.id == id)) s.tabs);
        })
]

close_right-Valid :
    (s : TabsState) (kept closed : List Tab)
    → ((a : String) → count_tab a kept ≤ 1)
    → Valid s
    → Valid (close_right s kept closed)
close_right-Valid s kept [] u v = v
close_right-Valid s [] (c ∷ closed) u v = v
close_right-Valid s (k ∷ kept) (c ∷ closed) u v = record {
  unique = u;
  active = inr (ground (arith, any-has_id s.active_tab_id (k ∷ kept), count_tab-get_last k kept));
  bounded = length-take_last 10 (s.closed_tabs ++ (c ∷ closed));
}

pub close_tabs_to_right-Valid :
    (s : TabsState) (id : String) → Valid s → Valid (close_tabs_to_right s id)
unfolding close_tabs_to_right
close_tabs_to_right-Valid s id v = elim (Option-cases (find_index (has_id id) s.tabs)) [
  | inl e ↦ rw (e, close_tabs_to_right) v
  | inr (i, e) ↦
      rw (e, close_tabs_to_right)
        (close_right-Valid s (take (suc i) s.tabs) (drop (suc i) s.tabs)
          (λ a. omega (arith, count_tab-take-drop a (suc i) s.tabs, v.unique a)) v)
]
