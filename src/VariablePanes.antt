-- ===== src/VariablePanes.antt =====
-- The rows of variables and the panes that hold them: gui/web/src/components/layout/
-- environment-pane.tsx, globals-pane.tsx and `VariableRow` of collection-pane.tsx.
use reqlet.Common.{
  ℕ, ◌≡◌, refl, ap, ◌∙◌, ◌≢◌, inl, inr, String, Bool, true, false, not, Option, none, some, List,
  [], ◌∷◌, if◌then◌else◌, ◌==◌, Bool-cases, ==-eq, ==-false, filter, find,
}
use reqlet.Types.Collection.{Environment, EnvVariable}
use reqlet.Types.Tab.{Tab}
use reqlet.Workspace.Store.{WorkspaceState}
use reqlet.Workspace.Variables.{
  VariablePatch, add_environment_variable, delete_environment_variable, update_environment_variable,
  add_collection_variable, delete_collection_variable, update_collection_variable,
  add_global_variable, delete_global_variable, update_global_variable, delete_environment,
}
use reqlet.Tabs.State.{TabsState, is_environment}
use reqlet.Tabs.Actions.{has_id, close_tab}
use reqlet.Hooks.{Confirming, request_delete}

-- Where the variables of a pane are.
pub data VariableOwner : Type 0 where
  of_globals : VariableOwner
  of_environment of_collection : String → VariableOwner

-- The box and the three inputs of a row.
pub data VariableEdit : Type 0 where
  sets_enabled : Bool → VariableEdit
  sets_key sets_initial_value sets_current_value : String → VariableEdit

abbrev pub empty_variable_patch : VariablePatch
empty_variable_patch = record {
  id = none;
  enabled = none;
  key = none;
  initial_value = none;
  current_value = none;
}

abbrev pub variable_patch : VariableEdit → VariablePatch
variable_patch (sets_enabled b) = record empty_variable_patch { enabled = some b }
variable_patch (sets_key s) = record empty_variable_patch { key = some s }
variable_patch (sets_initial_value s) = record empty_variable_patch { initial_value = some s }
variable_patch (sets_current_value s) = record empty_variable_patch { current_value = some s }

unfoldable pub change_variable :
    VariableOwner → String → VariableEdit → WorkspaceState → WorkspaceState
unfolding update_environment_variable update_collection_variable update_global_variable
change_variable of_globals var_id e w = update_global_variable w var_id (variable_patch e)
change_variable (of_environment id) var_id e w =
    update_environment_variable w id var_id (variable_patch e)
change_variable (of_collection id) var_id e w =
    update_collection_variable w id var_id (variable_patch e)

unfoldable pub remove_variable : VariableOwner → String → WorkspaceState → WorkspaceState
unfolding delete_environment_variable delete_collection_variable delete_global_variable
remove_variable of_globals var_id w = delete_global_variable w var_id
remove_variable (of_environment id) var_id w = delete_environment_variable w id var_id
remove_variable (of_collection id) var_id w = delete_collection_variable w id var_id

-- The bin of a row asks before it deletes.
unfoldable pub ask_remove :
    VariableOwner → EnvVariable → Confirming WorkspaceState → Confirming WorkspaceState
unfolding request_delete remove_variable
ask_remove owner v c = request_delete v.key (remove_variable owner v.id) c

unfoldable pub append_variable : (ℕ → String) → VariableOwner → WorkspaceState → WorkspaceState
unfolding add_environment_variable add_collection_variable add_global_variable
append_variable uuid of_globals w = add_global_variable uuid w
append_variable uuid (of_environment id) w = add_environment_variable uuid w id
append_variable uuid (of_collection id) w = add_collection_variable uuid w id

-- `environments.find((e) => e.id === activeTab?.environmentId)`
abbrev pub environment_of : Option String → List Environment → Option Environment
environment_of none es = none
environment_of (some id) es = find (λ e. e.id == id) es

-- The effect of the environment's pane: a tab whose environment is gone is closed.
abbrev pub close_shown : TabsState → WorkspaceState → Option Tab → Option TabsState
close_shown s w none = some s
close_shown s w (some t) =
    if is_environment t.type
    then elim (environment_of t.environment_id w.environments) [
      | none ↦ close_tab s t.id
      | some env ↦ some s
    ]
    else some s

unfoldable pub close_gone : WorkspaceState → TabsState → Option TabsState
unfolding close_tab
close_gone w s = close_shown s w (find (has_id s.active_tab_id) s.tabs)

find_deleted :
    (id : String) (es : List Environment)
    → find (λ e. e.id == id) (filter (λ e. not (e.id == id)) es) ≡ none
find_deleted id [] = refl
find_deleted id (e ∷ es) = elim (Bool-cases (e.id == id)) [
  | inl h ↦ rw h (find_deleted id es)
  | inr h ↦ rw (h, h) (find_deleted id es)
]

find_kept :
    (id other : String) (es : List Environment)
    → (other == id) ≡ false
    → find (λ e. e.id == other) (filter (λ e. not (e.id == id)) es) ≡ find (λ e. e.id == other) es
find_kept id other [] h = refl
find_kept id other (e ∷ es) h = elim (Bool-cases (e.id == other)) [
  | inl k ↦
      let apart : (e.id == id) ≡ false = ap (λ i. i == id) (==-eq e.id other k) ∙ h in
      rw (apart, k) refl
  | inr k ↦ elim (Bool-cases (e.id == id)) [
    | inl f ↦ rw (f, k) (find_kept id other es h)
    | inr f ↦ rw (f, k) (find_kept id other es h)
  ]
]

close_shown-found :
    (s : TabsState) (w : WorkspaceState) (t : Tab)
    → find (has_id s.active_tab_id) s.tabs ≡ some t
    → close_gone w s ≡ close_shown s w (some t)
unfolding close_gone
close_shown-found s w t h = ap (close_shown s w) h

-- After an environment is deleted, the effect closes the active tab if it shows that environment,
-- and leaves the tabs as they are if it shows another one that is there.
pub close_gone-delete_environment :
    (w : WorkspaceState) (s : TabsState) (t : Tab) (id other : String)
    → find (has_id s.active_tab_id) s.tabs ≡ some t
    → is_environment t.type ≡ true
    → t.environment_id ≡ some other
    → ((other ≡ id) → close_gone (delete_environment w id) s ≡ close_tab s t.id)
      × ((e : Environment)
          → other ≢ id
          → find (λ e. e.id == other) w.environments ≡ some e
          → close_gone (delete_environment w id) s ≡ some s)
unfolding close_gone delete_environment
close_gone-delete_environment w s t id other active env shown = (
  λ is.
      let gone : find (λ e. e.id == other) (delete_environment w id).environments ≡ none =
        ap (λ i. find (λ e. e.id == i) (delete_environment w id).environments) is
        ∙ find_deleted id w.environments in
      close_shown-found s (delete_environment w id) t active ∙ rw (env, shown, gone) refl,
  λ e ne found.
      let there : find (λ e. e.id == other) (delete_environment w id).environments ≡ some e =
        find_kept id other w.environments (==-false other id ne) ∙ found in
      close_shown-found s (delete_environment w id) t active ∙ rw (env, shown, there) refl,
)
