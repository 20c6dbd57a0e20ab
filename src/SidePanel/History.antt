-- ===== src/SidePanel/History.antt =====
-- gui/web/src/components/layout/side-panel.tsx, `HistoryPanel`: the pages of the history. What the
-- server answers is a parameter.
use reqlet.Common.{ℕ, ◌+◌, Bool, false, List, [], ◌∷◌, ◌++◌, if◌then◌else◌, nat_eq, length}
use reqlet.Backend.Types.{HistoryEntry}

abbrev pub page_size : ℕ
page_size = 50

pub record History : Type 0 where
  pub offset : ℕ
  pub entries : List HistoryEntry
  pub has_more : Bool

abbrev pub no_history : History
no_history = record { offset = 0; entries = []; has_more = false }

-- The effect of a page that arrives for the offset.
unfoldable pub show_page : List HistoryEntry → History → History
show_page page h = record h {
  entries = if nat_eq h.offset 0 then page else h.entries ++ page;
  has_more = nat_eq (length page) page_size;
}

-- `setOffset((o) => o + PAGE_SIZE)`
unfoldable pub load_more : History → History
load_more h = record h { offset = h.offset + page_size }

unfoldable pub reload : History → History
reload h = record h { offset = 0; entries = [] }

-- What happens to the panel: the effect of the data of its offset, which runs each time the query has
-- new data for it, a click on "Load more", whose button is there where more may follow, and `reload`.
pub data HistoryEvent : Type 0 where
  arrives : List HistoryEntry → HistoryEvent
  loads_more : HistoryEvent
  reloads : HistoryEvent

unfoldable pub history_event : History → HistoryEvent → History
unfolding show_page load_more reload
history_event h (arrives page) = show_page page h
history_event h loads_more = if h.has_more then load_more h else h
history_event h reloads = reload h

unfoldable pub history_all : History → List HistoryEvent → History
unfolding history_event
history_all h [] = h
history_all h (e ∷ rest) = history_all (history_event h e) rest
