-- ===== src/TabBar/Kept.antt =====
-- gui/web/src/components/layout/tab-bar.tsx: no tab with changes is closed without a confirmation.
use reqlet.Common.{
  suc, ◌≡◌, refl, sym, ap, ◌∙◌, inl, inr, String, not, ◌&&◌, Option, none, some, List, [], ◌∷◌,
  ◌++◌, arith, ◌==◌, Bool-cases, length, take, drop, filter, find, find_index, take-append-drop,
}
use mathlib.Core.List.{append-nil}
use reqlet.TabBar.{
  right, closed_at_once, dirty_after, others, TabBar, Closing, close_now, ask_for, handle_close,
  handle_close_others, handle_close_right,
}
use reqlet.Types.Tab.{Tab}
use reqlet.Tabs.State.{TabsState}
use reqlet.Tabs.Actions.{has_id, close_other_tabs, close_tabs_to_right, close_right}
use reqlet.Tabs.Valid.{Valid, count_tab}
use reqlet.Tabs.Reopen.{Around, close_tab_lem, find-around, find_index-around}

-- The tabs with changes, in their order.
abbrev pub dirty_tabs : List Tab → List Tab
dirty_tabs = filter (λ t. t.dirty)

dirty_tabs-append : (ts us : List Tab) → dirty_tabs (ts ++ us) ≡ dirty_tabs ts ++ dirty_tabs us
dirty_tabs-append [] us = refl
dirty_tabs-append (t ∷ ts) us = ground (arith, dirty_tabs-append ts us)

dirty_others :
    (id : String) (ts : List Tab)
    → count_tab id ts ≡ 0
    → filter (λ t. not (t.id == id) && t.dirty) ts ≡ dirty_tabs ts
dirty_others id [] h = refl
dirty_others id (t ∷ ts) h = ground (arith, dirty_others id ts)

dirty_others-around :
    (x : Tab) (before after : List Tab)
    → count_tab x.id before ≡ 0
    → count_tab x.id after ≡ 0
    → filter (λ t. not (t.id == x.id) && t.dirty) (before ++ (x ∷ after))
      ≡ dirty_tabs before ++ dirty_tabs after
dirty_others-around x [] after p q = ground (arith, dirty_others x.id after)
dirty_others-around x (b ∷ before) after p q = ground (arith, dirty_others-around x before after)

drop_around :
    (x : Tab) (before after : List Tab) → drop (suc (length before)) (before ++ (x ∷ after)) ≡ after
drop_around x [] after = refl
drop_around x (b ∷ before) after = drop_around x before after

-- What a bar does that either asks or closes: it keeps the tabs with changes.
abbrev pub Keeps : TabBar → Option TabBar → Type 0
Keeps b none = ⊥
Keeps b (some c) = dirty_tabs c.tabs.tabs ≡ dirty_tabs b.tabs.tabs

Keeps-ask_for :
    (b : TabBar) (dirty : List Tab) (c : Closing)
    → (dirty ≡ [] → Keeps b (closed_at_once c b))
    → Keeps b (ask_for dirty c b)
Keeps-ask_for b [] c closes = closes refl
Keeps-ask_for b (t ∷ dirty) c closes = refl

both_nil : (ts us : List Tab) → ts ++ us ≡ [] → (ts ≡ []) × (us ≡ [])
both_nil [] us h = (refl, h)
both_nil (t ∷ ts) us h = cc

dirty_tabs-close_right :
    (s : TabsState) (kept closed : List Tab)
    → dirty_tabs closed ≡ []
    → s.tabs ≡ kept ++ closed
    → dirty_tabs (close_right s kept closed).tabs ≡ dirty_tabs s.tabs
dirty_tabs-close_right s kept [] clean e = refl
dirty_tabs-close_right s [] (c ∷ closed) clean e = refl
dirty_tabs-close_right s (k ∷ kept) (c ∷ closed) clean e = sym (
    ap dirty_tabs e
    ∙ dirty_tabs-append (k ∷ kept) (c ∷ closed)
    ∙ rw clean (append-nil (dirty_tabs (k ∷ kept))))

module _ (b : TabBar) (before after : List Tab) (x : Tab) (r : Around b.tabs before x after)
    (v : Valid b.tabs) where
  dirty_around : dirty_tabs b.tabs.tabs ≡ dirty_tabs before ++ dirty_tabs (x ∷ after)
  dirty_around = rw r.tabs (dirty_tabs-append before (x ∷ after))

  Keeps-handle_close : Keeps b (handle_close x b)
  unfolding handle_close close_now
  Keeps-handle_close = elim (Bool-cases x.dirty) [
    | inl e ↦ rw e refl
    | inr e ↦
        rw (e, close_tab_lem b.tabs before after x r v)
          (dirty_tabs-append before after ∙ sym (dirty_around ∙ rw e refl))
  ]

  Keeps-handle_close_others : Keeps b (handle_close_others x b)
  unfolding handle_close_others close_now close_other_tabs
  Keeps-handle_close_others =
      Keeps-ask_for b (filter (λ t. not (t.id == x.id) && t.dirty) b.tabs.tabs) (others x.id)
        λ clean.
          let found : find (has_id x.id) b.tabs.tabs ≡ some x =
            rw r.tabs (find-around x.id before after x refl r.not_before) in
          let (clean_before, clean_after) = both_nil (dirty_tabs before) (dirty_tabs after) (
            sym (dirty_others-around x before after r.not_before r.not_after)
            ∙ ap (filter (λ t. not (t.id == x.id) && t.dirty)) (sym r.tabs)
            ∙ clean) in
          rw (found, close_other_tabs) (sym (dirty_around ∙ rw (clean_before, clean_after) refl))

  Keeps-handle_close_right : Keeps b (handle_close_right x b)
  unfolding handle_close_right close_now close_tabs_to_right
  Keeps-handle_close_right =
      let found : find_index (has_id x.id) b.tabs.tabs ≡ some (length before) =
        rw r.tabs (find_index-around x.id before after x refl r.not_before) in
      Keeps-ask_for b (dirty_after (find_index (has_id x.id) b.tabs.tabs) b.tabs.tabs) (right x.id)
        λ clean.
          let clean_after : dirty_tabs after ≡ [] =
            sym (rw (found, r.tabs) (ap dirty_tabs (drop_around x before after))) ∙ clean in
          rw (found, close_tabs_to_right)
            (dirty_tabs-close_right b.tabs (take (suc (length before)) b.tabs.tabs)
              (drop (suc (length before)) b.tabs.tabs)
              (rw (r.tabs, drop_around x before after) clean_after)
              (sym (take-append-drop (suc (length before)) b.tabs.tabs)))

-- In a bar whose tabs are valid, closing a tab, the others or those on its right closes no tab that
-- has changes: without a confirmation the tabs with changes are the same, in the same order.
pub handle_close-Keeps :
    (b : TabBar) (before after : List Tab) (x : Tab)
    → Around b.tabs before x after
    → Valid b.tabs
    → Keeps b (handle_close x b)
      × Keeps b (handle_close_others x b)
      × Keeps b (handle_close_right x b)
handle_close-Keeps b before after x r v = (
  Keeps-handle_close b before after x r v,
  Keeps-handle_close_others b before after x r v,
  Keeps-handle_close_right b before after x r v,
)
