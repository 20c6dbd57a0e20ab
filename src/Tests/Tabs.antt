-- ===== src/Tests/Tabs.antt =====
-- The tabs: runs of the actions of gui/web/src/store/tabs.ts.
use reqlet.Common.{◌≡◌, refl, some, List, [], ◌∷◌, ◌++◌, if◌then◌else◌, string_dec, ◌==◌}
use reqlet.Types.Tab.{Tab}
use reqlet.Tabs.State.{
  TabsState, initial_tabs, new_request_tab, next_id, open_new_tab, reopen_last_closed_tab,
}
use reqlet.Tabs.Actions.{close_tab}
use reqlet.Tabs.Valid.{Valid}
use reqlet.Tabs.Reopen.{Around, next_active, close_tab_lem, reopen_last_closed_tab-close_tab}
use reqlet.Tabs.Steps.{here, next, opens_new, Reach-Valid}
use reqlet.Tests.Data.{three_tabs}
use reqlet.Tests.Unique.{three_tabs-Valid}

abbrev after_opening : TabsState
after_opening = open_new_tab "12345678-90ab" initial_tabs

Reach-Valid_example : Valid after_opening
unfolding string_dec next_id
Reach-Valid_example = Reach-Valid (next here (opens_new "12345678-90ab" refl))

abbrev before_it : List Tab
before_it = new_request_tab "t-1" ∷ []

abbrev after_it : List Tab
after_it = new_request_tab "t-3" ∷ []

middle : Around three_tabs before_it (new_request_tab "t-2") after_it
unfolding string_dec
middle = record { tabs = refl; not_before = refl; not_after = refl }

abbrev closed_state : TabsState
closed_state = record {
  tabs = before_it ++ after_it;
  active_tab_id = "t-3";
  closed_tabs = new_request_tab "t-2" ∷ [];
}

close_tab_lem_example :
    close_tab three_tabs "t-2"
    ≡ some (record {
      tabs = before_it ++ after_it;
      active_tab_id = if "t-2" == "t-2" then next_active before_it after_it else "t-2";
      closed_tabs = new_request_tab "t-2" ∷ [];
    })
close_tab_lem_example =
    close_tab_lem three_tabs before_it after_it (new_request_tab "t-2") middle three_tabs-Valid

closes_middle : close_tab three_tabs "t-2" ≡ some closed_state
unfolding string_dec
closes_middle = close_tab_lem_example

reopen_last_closed_tab-close_tab_example :
    reopen_last_closed_tab "12345678-90ab" closed_state ≡ record {
      tabs =
          (before_it ++ after_it)
          ++ (record (new_request_tab "t-2") { id = next_id "12345678-90ab" } ∷ []);
      active_tab_id = next_id "12345678-90ab";
      closed_tabs = [];
    }
reopen_last_closed_tab-close_tab_example =
    reopen_last_closed_tab-close_tab "12345678-90ab" three_tabs before_it after_it
      (new_request_tab "t-2") closed_state middle three_tabs-Valid closes_middle
