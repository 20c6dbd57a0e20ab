-- ===== src/TabBar.antt =====
-- gui/web/src/components/layout/tab-bar.tsx: closing with a confirmation where changes would be lost,
-- and moving a tab by dragging. A handler is given the tab that it is drawn for.
pub mod Kept
use reqlet.Common.{
  ℕ, suc, String, not, ◌&&◌, ◌||◌, Option, none, some, List, [], ◌∷◌, if◌then◌else◌, ◌==◌, truthy,
  length, drop, filter, find_index, is_some_of,
}
use mathlib.Core.Option
use reqlet.Types.Tab.{Tab}
use reqlet.Tabs.State.{TabsState}
use reqlet.Tabs.Actions.{has_id, close_tab, close_other_tabs, close_tabs_to_right, reorder_tabs}

-- The `onConfirm` of a pending close.
pub data Closing : Type 0 where
  one : String → Closing
  others : String → Closing
  right : String → Closing

pub record PendingClose : Type 0 where
  pub count : ℕ
  pub title : String
  pub on_confirm : Closing

pub record TabBar : Type 0 where
  pub tabs : TabsState
  pub drag_src_id : Option String
  pub drag_over_id : Option String
  pub pending_close : Option PendingClose

-- `none` is the TypeError of `closeTab`, as in the store.
unfoldable pub close_now : Closing → TabsState → Option TabsState
unfolding close_tab close_other_tabs close_tabs_to_right
close_now (one id) s = close_tab s id
close_now (others id) s = some (close_other_tabs s id)
close_now (right id) s = some (close_tabs_to_right s id)

abbrev pub closed_at_once : Closing → TabBar → Option TabBar
closed_at_once c b = Option.map (λ (s : TabsState). record b { tabs = s }) (close_now c b.tabs)

abbrev pub ask : ℕ → String → Closing → TabBar → TabBar
ask count title c b = record b {
  pending_close = some (record { count = count; title = title; on_confirm = c });
}

unfoldable pub handle_close : Tab → TabBar → Option TabBar
unfolding close_now
handle_close tab b =
    if tab.dirty then some (ask 1 tab.title (one tab.id) b) else closed_at_once (one tab.id) b

-- `if (dirty.length > 0) requestClose(…) else …`
abbrev pub ask_for : List Tab → Closing → TabBar → Option TabBar
ask_for [] c b = closed_at_once c b
ask_for (t ∷ dirty) c b = some (ask (length (t ∷ dirty)) t.title c b)

unfoldable pub handle_close_others : Tab → TabBar → Option TabBar
unfolding close_now
handle_close_others tab b =
    ask_for (filter (λ t. not (t.id == tab.id) && t.dirty) b.tabs.tabs) (others tab.id) b

abbrev pub dirty_after : Option ℕ → List Tab → List Tab
dirty_after none ts = []
dirty_after (some idx) ts = filter (λ t. t.dirty) (drop (suc idx) ts)

unfoldable pub handle_close_right : Tab → TabBar → Option TabBar
unfolding close_now
handle_close_right tab b =
    ask_for (dirty_after (find_index (has_id tab.id) b.tabs.tabs) b.tabs.tabs) (right tab.id) b

abbrev pub confirmed : Option PendingClose → TabBar → Option TabBar
confirmed none b = some b
confirmed (some p) b = closed_at_once p.on_confirm (record b { pending_close = none })

-- "Close anyway" and "Keep editing".
unfoldable pub confirm_close : TabBar → Option TabBar
unfolding close_now
confirm_close b = confirmed b.pending_close b

unfoldable pub keep_editing : TabBar → TabBar
keep_editing b = record b { pending_close = none }

unfoldable pub handle_drag_start : Tab → TabBar → TabBar
handle_drag_start tab b = record b { drag_src_id = some tab.id }

unfoldable pub handle_drag_over : Tab → TabBar → TabBar
handle_drag_over tab b =
    if is_some_of b.drag_src_id tab.id then b else record b { drag_over_id = some tab.id }

unfoldable pub handle_drag_leave : Tab → TabBar → TabBar
handle_drag_leave tab b =
    if is_some_of b.drag_over_id tab.id then record b { drag_over_id = none } else b

unfoldable pub handle_drag_end : TabBar → TabBar
handle_drag_end b = record b { drag_src_id = none; drag_over_id = none }

abbrev pub reordered : Option ℕ → Option ℕ → TabsState → Option TabsState
reordered none to s = some s
reordered (some from) none s = some s
reordered (some from) (some to) s = reorder_tabs s from to

-- `dataTransfer.getData("text/plain") || dragSrcIdRef.current`
abbrev pub source_of : String → Option String → Option String
source_of dropped src = if truthy dropped then some dropped else src

abbrev pub dropped_on : Option String → Tab → TabBar → Option TabBar
dropped_on none tab b = some b
dropped_on (some src_id) tab b =
    if not (truthy src_id) || src_id == tab.id
    then some b
    else Option.map
        (λ (s : TabsState). record b { tabs = s; drag_src_id = none; drag_over_id = none })
        (reordered (find_index (has_id src_id) b.tabs.tabs) (find_index (has_id tab.id) b.tabs.tabs)
          b.tabs)

unfoldable pub handle_drop : String → Tab → TabBar → Option TabBar
unfolding reorder_tabs
handle_drop dropped tab b = dropped_on (source_of dropped b.drag_src_id) tab b
