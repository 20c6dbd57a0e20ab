-- ===== src/HeaderBar.antt =====
-- The choice of the environment and the rail of panels: gui/web/src/components/layout/header-bar.tsx
-- and icon-rail.tsx, and what status-bar.tsx shows.
use reqlet.Common.{
  ℕ, ◌≡◌, refl, sym, inl, inr, String, true, Option, none, some, List, if◌then◌else◌, ◌==◌, given,
  Bool-cases, ==-eq, length, filter, find,
}
use reqlet.Types.Collection.{Environment}
use reqlet.Tabs.State.{TabsState}
use reqlet.Ui.Panels.{
  UiState, SidePanel, set_active_environment, set_search_open, set_settings_open, toggle_panel,
}

-- `activeEnvironmentId ?? "__none__"`
unfoldable pub select_value : UiState → String
select_value ui = given ui.active_environment_id "__none__"

unfoldable pub pick_environment : String → UiState → UiState
unfolding set_active_environment
pick_environment v ui = set_active_environment ui (if v == "__none__" then none else some v)

unfoldable pub open_search : UiState → UiState
unfolding set_search_open
open_search ui = set_search_open ui true

unfoldable pub open_settings : UiState → UiState
unfolding set_settings_open
open_settings ui = set_settings_open ui true

unfoldable pub click_rail : SidePanel → UiState → UiState
unfolding toggle_panel
click_rail panel ui = toggle_panel ui panel

-- The environment's name and the number of tabs with changes in the status bar.
abbrev pub name_or_none : Option Environment → String
name_or_none none = "No Environment"
name_or_none (some e) = e.name

unfoldable pub shown_environment : List Environment → UiState → String
shown_environment environments ui = elim ui.active_environment_id [
  | none ↦ "No Environment"
  | some id ↦ name_or_none (find (λ e. e.id == id) environments)
]

unfoldable pub dirty_count : TabsState → ℕ
dirty_count s = length (filter (λ t. t.dirty) s.tabs)

-- Picking a value leaves the select showing it.
pub select_value-pick_environment :
    (v : String) (ui : UiState) → select_value (pick_environment v ui) ≡ v
unfolding select_value pick_environment set_active_environment
select_value-pick_environment v ui = elim (Bool-cases (v == "__none__")) [
  | inl e ↦ rw e (sym (==-eq v "__none__" e))
  | inr e ↦ rw e refl
]
