-- ===== src/Tabs/Reopen.antt =====
-- Closing one tab, place by place, and opening it again.
use Prim.Native.Nat.{min}
use mathlib.Core.Option.{some-injective}
use reqlet.Common.{
  ℕ, suc, ◌-◌, ◌≤◌, ◌≡◌, refl, ap, ◌∙◌, ◌≢◌, sym, String, ◌==◌, arith, not, Option, some,
  if◌then◌else◌, List, [], ◌∷◌, ◌++◌, Bool-cases, inl, inr, ◌⊎◌, find, find_index, filter, length,
  get_elem?, take_last, length-append,
}
use reqlet.Types.Tab.{Tab}
use reqlet.Tabs.State.{TabsState, get_last, but_last, reopen, reopen_last_closed_tab, next_id}
use reqlet.Tabs.Actions.{has_id, neighbour_id, after_close, close_tab}
use reqlet.Tabs.Valid.{count_tab, Valid}

pub filter_absent :
    (id : String) (ts : List Tab) → count_tab id ts ≡ 0 → filter (λ t. not (t.id == id)) ts ≡ ts
filter_absent id [] h = refl
filter_absent id (t ∷ ts) h = ground (arith, filter_absent id ts)

filter-around :
    (id : String) (before after : List Tab) (x : Tab)
    → x.id ≡ id
    → count_tab id before ≡ 0
    → count_tab id after ≡ 0
    → filter (λ t. not (t.id == id)) (before ++ (x ∷ after)) ≡ before ++ after
filter-around id [] after x e p q = ground (arith, filter_absent id after)
filter-around id (b ∷ before) after x e p q = ground (arith, filter-around id before after x e)

pub find-around :
    (id : String) (before after : List Tab) (x : Tab)
    → x.id ≡ id
    → count_tab id before ≡ 0
    → find (has_id id) (before ++ (x ∷ after)) ≡ some x
find-around id [] after x e p = ground arith
find-around id (b ∷ before) after x e p = ground (arith, find-around id before after x e)

pub find_index-around :
    (id : String) (before after : List Tab) (x : Tab)
    → x.id ≡ id
    → count_tab id before ≡ 0
    → find_index (has_id id) (before ++ (x ∷ after)) ≡ some (length before)
find_index-around id [] after x e p = ground arith
find_index-around id (b ∷ before) after x e p =
    ground (arith, find_index-around id before after x e)

get_elem?-append :
    (ts : List Tab) (u : Tab) (us : List Tab) → get_elem? (ts ++ (u ∷ us)) (length ts) ≡ some u
get_elem?-append [] u us = refl
get_elem?-append (t ∷ ts) u us = get_elem?-append ts u us

get_elem?-last :
    (t : Tab) (ts : List Tab) → get_elem? (t ∷ (ts ++ [])) (length ts) ≡ some (get_last t ts)
get_elem?-last t [] = refl
get_elem?-last t (u ∷ us) = get_elem?-last u us

-- The tab that takes the place of a closed one: the next on its right, or else the one on its left.
abbrev pub next_active : List Tab → List Tab → String
next_active before (a ∷ after) = a.id
next_active (b ∷ before) [] = (get_last b before).id
next_active [] [] = ""

neighbour_id-next_active :
    (before after : List Tab)
    → before ++ after ≢ []
    → neighbour_id (some (length before)) (before ++ after) ≡ some (next_active before after)
neighbour_id-next_active before (a ∷ after) h =
    let place : min (length before) (length (before ++ (a ∷ after)) - 1) ≡ length before =
      omega (arith, length-append before (a ∷ after)) in
    rw (place, neighbour_id, get_elem?-append before a after)
neighbour_id-next_active (b ∷ before) [] h =
    let place : min (suc (length before)) (suc (length (before ++ [])) - 1) ≡ length before =
      omega (arith, length-append before []) in
    rw (neighbour_id, place, get_elem?-last b before)
neighbour_id-next_active [] [] h = absurd (h refl)

after_close-eq_of_ne :
    (s : TabsState) (id : String) (remaining : List Tab) (idx : Option ℕ) (closed : List Tab)
    (n : String)
    → neighbour_id idx remaining ≡ some n
    → remaining ≢ []
    → after_close s id remaining idx closed
      ≡ some (record {
        tabs = remaining;
        active_tab_id = if s.active_tab_id == id then n else s.active_tab_id;
        closed_tabs = closed;
      })
after_close-eq_of_ne s id [] idx closed n e h = absurd (h refl)
after_close-eq_of_ne s id (r ∷ rs) idx closed n e h = elim (Bool-cases (s.active_tab_id == id)) [
  | inl k ↦ rw (k, after_close, e)
  | inr k ↦ rw k
]

after_close-eq :
    (s : TabsState) (id : String) (before after closed : List Tab)
    → ((s.active_tab_id ≡ id) ⊎ (before ++ after ≢ []))
    → after_close s id (before ++ after) (some (length before)) closed
      ≡ some (record {
        tabs = before ++ after;
        active_tab_id = if s.active_tab_id == id then next_active before after else s.active_tab_id;
        closed_tabs = closed;
      })
after_close-eq s id [] [] closed (inl e) = ground arith
after_close-eq s id [] [] closed (inr h) = absurd (h refl)
after_close-eq s id (b ∷ before) after closed e =
    after_close-eq_of_ne s id (b ∷ (before ++ after)) (some (length (b ∷ before))) closed _
      (neighbour_id-next_active (b ∷ before) after (λ h. cc h)) (λ h. cc h)
after_close-eq s id [] (a ∷ after) closed e =
    after_close-eq_of_ne s id (a ∷ after) (some 0) closed _
      (neighbour_id-next_active [] (a ∷ after) (λ h. cc h)) (λ h. cc h)

-- The tab of an id that no other tab has, with those before and those after it.
pub record Around (s : TabsState) (before : List Tab) (x : Tab) (after : List Tab) : Type 0 where
  pub tabs : s.tabs ≡ before ++ (x ∷ after)
  pub not_before : count_tab x.id before ≡ 0
  pub not_after : count_tab x.id after ≡ 0

active_of_Around :
    (s : TabsState) (before after : List Tab) (x : Tab)
    → Around s before x after
    → Valid s
    → ((s.active_tab_id ≡ x.id) ⊎ (before ++ after ≢ []))
active_of_Around s [] [] x r v = elim v.active [
  | inl (e, _) ↦ cc (e, r.tabs)
  | inr h ↦
      let open_here : 1 ≤ count_tab s.active_tab_id (x ∷ []) =
        omega (arith, h, ap (count_tab s.active_tab_id) r.tabs) in
      inl (ground arith)
]
active_of_Around s (b ∷ before) after x r v = inr (λ h. cc h)
active_of_Around s [] (a ∷ after) x r v = inr (λ h. cc h)

-- Closing a tab of a valid state takes out that tab alone and keeps the order of the others. If it
-- was active, the next on its right becomes active, or else the one on its left, or no tab if none
-- is left; otherwise the active tab stays. The closed tab is remembered last, after the nine that
-- were closed before it.
pub close_tab_lem :
    (s : TabsState) (before after : List Tab) (x : Tab)
    → Around s before x after
    → Valid s
    → close_tab s x.id
      ≡ some (record {
        tabs = before ++ after;
        active_tab_id =
            if s.active_tab_id == x.id then next_active before after else s.active_tab_id;
        closed_tabs = take_last 9 s.closed_tabs ++ (x ∷ []);
      })
unfolding close_tab
close_tab_lem s before after x r v =
    rw
      (
        r.tabs,
        filter-around x.id before after x refl r.not_before r.not_after,
        find_index-around x.id before after x refl r.not_before,
        find-around x.id before after x refl r.not_before,
      )
      (after_close-eq s x.id before after (take_last 9 s.closed_tabs ++ (x ∷ []))
        (active_of_Around s before after x r v))

reopen-append :
    (uuid : String) (s : TabsState) (ts : List Tab) (x : Tab)
    → reopen uuid s (ts ++ (x ∷ [])) ≡ record {
      tabs = s.tabs ++ (record x { id = next_id uuid } ∷ []);
      active_tab_id = next_id uuid;
      closed_tabs = ts;
    }
reopen-append uuid s [] x = refl
reopen-append uuid s (t ∷ ts) x = rw (last_of t ts, before_last t ts)
  where
    last_of : (t : Tab) (ts : List Tab) → get_last t (ts ++ (x ∷ [])) ≡ x
    last_of t [] = refl
    last_of t (u ∷ us) = last_of u us

    before_last : (t : Tab) (ts : List Tab) → but_last t (ts ++ (x ∷ [])) ≡ t ∷ ts
    before_last t [] = refl
    before_last t (u ∷ us) = ap (λ r. t ∷ r) (before_last u us)

-- Reopening after a closing brings the closed tab back as the last tab, active and under a new id,
-- with all else of it as it was, and forgets it among the closed ones.
pub reopen_last_closed_tab-close_tab :
    (uuid : String) (s : TabsState) (before after : List Tab) (x : Tab) (t : TabsState)
    → Around s before x after
    → Valid s
    → close_tab s x.id ≡ some t
    → reopen_last_closed_tab uuid t ≡ record {
      tabs = (before ++ after) ++ (record x { id = next_id uuid } ∷ []);
      active_tab_id = next_id uuid;
      closed_tabs = take_last 9 s.closed_tabs;
    }
unfolding reopen_last_closed_tab
reopen_last_closed_tab-close_tab uuid s before after x t r v closed =
    let same = some-injective _ _ (sym closed ∙ close_tab_lem s before after x r v) in
    rw same (reopen-append uuid _ (take_last 9 s.closed_tabs) x)
