-- ===== src/Ui/Panels.antt =====
-- gui/web/src/store/ui.ts: `useUiStore`.
use reqlet.Common.{
  ◌≡◌, refl, sym, ap, inl, inr, String, Bool, true, false, Option, none, some, if◌then◌else◌,
  Bool-cases, Option-cases,
}

pub data SidePanel : Type 0 where
  collections : SidePanel
  environments : SidePanel
  history : SidePanel

pub record UiState : Type 0 where
  pub active_panel : Option SidePanel
  pub active_environment_id : Option String
  pub search_open : Bool
  pub settings_open : Bool

abbrev pub initial_ui : UiState
initial_ui = record {
  active_panel = some collections;
  active_environment_id = some "env-dev";
  search_open = false;
  settings_open = false;
}

abbrev pub same_panel : SidePanel → SidePanel → Bool
same_panel collections collections = true
same_panel environments environments = true
same_panel history history = true
same_panel _ _ = false

abbrev pub is_panel : Option SidePanel → SidePanel → Bool
is_panel none panel = false
is_panel (some active) panel = same_panel active panel

unfoldable pub set_active_panel : UiState → Option SidePanel → UiState
set_active_panel s panel = record s { active_panel = panel }

unfoldable pub toggle_panel : UiState → SidePanel → UiState
toggle_panel s panel = record s {
  active_panel = if is_panel s.active_panel panel then none else some panel;
}

unfoldable pub set_active_environment : UiState → Option String → UiState
set_active_environment s id = record s { active_environment_id = id }

unfoldable pub set_search_open : UiState → Bool → UiState
set_search_open s is_open = record s { search_open = is_open }

unfoldable pub set_settings_open : UiState → Bool → UiState
set_settings_open s is_open = record s { settings_open = is_open }

-- What is kept over a restart.
pub record Persisted : Type 0 where
  pub active_panel : Option SidePanel
  pub active_environment_id : Option String

unfoldable pub partialize : UiState → Persisted
partialize s = record {
  active_panel = s.active_panel;
  active_environment_id = s.active_environment_id;
}

same_panel_refl : (p : SidePanel) → same_panel p p ≡ true
same_panel_refl collections = refl
same_panel_refl environments = refl
same_panel_refl history = refl

same_panel-eq : (p q : SidePanel) → same_panel p q ≡ true → p ≡ q
same_panel-eq collections collections h = refl
same_panel-eq environments environments h = refl
same_panel-eq history history h = refl
same_panel-eq collections environments h = cc
same_panel-eq collections history h = cc
same_panel-eq environments collections h = cc
same_panel-eq environments history h = cc
same_panel-eq history collections h = cc
same_panel-eq history environments h = cc

-- Two presses of a panel's button close every panel, but for the panel that was open: that one is
-- closed by the first and opened by the second.
pub toggle_panel_twice :
    (s : UiState) (p : SidePanel)
    → (toggle_panel (toggle_panel s p) p).active_panel
      ≡ (if is_panel s.active_panel p then s.active_panel else none)
unfolding toggle_panel
toggle_panel_twice s p = elim (Option-cases s.active_panel) [
  | inl e ↦ rw e (rw (same_panel_refl p) refl)
  | inr (q, e) ↦ elim (Bool-cases (same_panel q p)) [
    | inl h ↦ rw (e, h) (ap some (sym (same_panel-eq q p h)))
    | inr h ↦ rw (e, h) (rw (same_panel_refl p) refl)
  ]
]
