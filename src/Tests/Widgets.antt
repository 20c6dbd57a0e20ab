-- ===== src/Tests/Widgets.antt =====
-- Widgets of the page: runs of the tab bar, the side panel's width, the completion of variables, the
-- authentication panel and the search, in gui/web/src/components.
use reqlet.Common.{
  ◌≤◌, ◌≡◌, refl, ◌↔◌, String, ◌<>◌, true, false, none, some, List, [], ◌∷◌, if◌then◌else◌,
  string_dec, nat_eq, All,
}
use reqlet.Backend.Types.{ServerSettings}
use reqlet.Backend.{returns}
use reqlet.Ui.Settings.{default_settings}
use reqlet.SettingsDialog.{FormState, Dialog, timeout, start_save, finish_save}
use reqlet.SettingsDialog.Saved.{Saved, patch_all, finish_save_lem}
use reqlet.Types.Auth.{AuthConfig, AuthType, AddTo, auth_of_type}
use reqlet.AuthPanel.Selects.{jwt_add_to, api_key_add_to, selected, pick, select_place}
use reqlet.Tabs.State.{new_request_tab, initial_tabs}
use reqlet.Tabs.Reopen.{Around}
use reqlet.TabBar.{TabBar, handle_close, handle_close_others, handle_close_right}
use reqlet.TabBar.Kept.{Keeps, handle_close-Keeps}
use reqlet.Ui.Width.{
  MouseEvent, down, right, left, up, initial_width, on_mouse_all, on_mouse_all_bounds,
}
use reqlet.Ui.Panels.{initial_ui}
use reqlet.Completion.{
  Input, no_dropdown, arrow_down, enter, apply_completion, first_chars, has_close, without_close,
}
use reqlet.Completion.Bounds.{Event, key, change, react_all, InList, react_all-InList}
use reqlet.Completion.Applied.{apply_completion_lem}
use reqlet.Completion.LastOpen.{has_open}
use reqlet.Scope.Template.{chars, token}
use Prim.Native.String.{◌∷◌}
use reqlet.Scope.Template.Laws.{drop_chars}
use reqlet.AuthPanel.Fields.{bearer_token, jwt_secret, shown, edit, place}
use reqlet.AuthPanel.Laws.{shown-edit}
use reqlet.Search.{all_results}
use reqlet.Search.Select.{handle_select}
use reqlet.Search.Opens.{ShowsResult, IsFirst, handle_select_opens}
use reqlet.Tests.Data.{demo, three_tabs}
use reqlet.Tests.Unique.{three_tabs-Valid}

abbrev bar : TabBar
bar = record { tabs = three_tabs; drag_src_id = none; drag_over_id = none; pending_close = none }

middle_place :
    Around three_tabs
      (new_request_tab "t-1" ∷ [])
      (new_request_tab "t-2")
      (new_request_tab "t-3" ∷ [])
unfolding string_dec
middle_place = record { tabs = refl; not_before = refl; not_after = refl }

handle_close-Keeps_example :
    Keeps bar (handle_close (new_request_tab "t-2") bar)
    × Keeps bar (handle_close_others (new_request_tab "t-2") bar)
    × Keeps bar (handle_close_right (new_request_tab "t-2") bar)
handle_close-Keeps_example =
    handle_close-Keeps bar (new_request_tab "t-1" ∷ []) (new_request_tab "t-3" ∷ [])
      (new_request_tab "t-2") middle_place three_tabs-Valid

abbrev wide_drag : List MouseEvent
wide_drag = down ∷ (right 900 ∷ (left 30 ∷ (up ∷ [])))

on_mouse_all_bounds_example :
    (180 ≤ (on_mouse_all initial_width wide_drag).width)
    × ((on_mouse_all initial_width wide_drag).width ≤ 480)
on_mouse_all_bounds_example = on_mouse_all_bounds wide_drag

abbrev empty_input : Input
empty_input = record { value = ""; cursor = 0; dropdown = no_dropdown }

abbrev typing : List Event
typing =
    change ("host" ∷ ("home" ∷ [])) "{{ho" 4
    ∷ (key arrow_down ∷ (key arrow_down ∷ (key enter ∷ [])))

react_all-InList_example : InList (react_all (λ s. s) empty_input typing).dropdown
react_all-InList_example = react_all-InList (λ s. s) empty_input typing (λ h. cc)

typed_name : (react_all (λ s. s) empty_input typing).value ≡ "{{home}}"
unfolding react_all string_dec
typed_name = refl

completes_host : apply_completion "a{{ho}}/x" 5 "host" ≡ some ("a{{host}}/x", 9)
unfolding apply_completion
completes_host = refl

apply_completion_lem_example : (apply_completion "a{{ho}}/x" 5 "host" ≡ some ("a{{host}}/x", 9)) ↔ (
    (before partial : String) × (first_chars 5 "a{{ho}}/x" ≡ before <> ("{{" <> partial))
    × (has_open ("{" ∷ partial) ≡ false)
    × (has_close partial ≡ false)
    × ("a{{host}}/x" ≡ before <> (token "host" <> without_close (drop_chars 5 "a{{ho}}/x")))
    × (9 ≡ chars (before <> token "host"))
    × (first_chars 9 "a{{host}}/x" ≡ before <> token "host"))
apply_completion_lem_example = apply_completion_lem "a{{ho}}/x" "host" "a{{host}}/x" 5 9

abbrev inherited : AuthConfig
inherited = auth_of_type AuthType.inherit

shown-edit_example :
    ((shown bearer_token (edit jwt_secret "s3cret" inherited) ≡ (
        if nat_eq (place jwt_secret) (place bearer_token)
        then "s3cret"
        else shown bearer_token inherited))
      × (selected jwt_add_to (edit jwt_secret "s3cret" inherited) ≡ selected jwt_add_to inherited)
      × ((edit jwt_secret "s3cret" inherited).type ≡ inherited.type))
    × ((selected jwt_add_to (pick api_key_add_to AddTo.query inherited) ≡ (
          if nat_eq (select_place api_key_add_to) (select_place jwt_add_to)
          then AddTo.query
          else selected jwt_add_to inherited))
        × (shown bearer_token (pick api_key_add_to AddTo.query inherited)
            ≡ shown bearer_token inherited)
        × ((pick api_key_add_to AddTo.query inherited).type ≡ inherited.type))
shown-edit_example =
    shown-edit jwt_secret bearer_token api_key_add_to jwt_add_to "s3cret" AddTo.query inherited

each-IsFirst : All (IsFirst demo.collections) demo.collections
unfolding string_dec
each-IsFirst = (refl, (refl, tt))

handle_select_opens_example :
    All
      (λ r. ShowsResult r (handle_select "u" demo.collections (initial_ui, initial_tabs) r).1)
      (all_results demo.collections [])
handle_select_opens_example =
    handle_select_opens "u" demo.collections initial_ui initial_tabs each-IsFirst

abbrev server_settings : ServerSettings
server_settings = record {
  proxy_url = "";
  proxy_username = "";
  proxy_password = "";
  no_proxy = "localhost";
  ssl_verification = false;
  use_system_proxy = false;
  respect_env_proxy = true;
  max_response_size_mb = 50;
  script_timeout_ms = 5000;
}

abbrev edited_form : FormState
edited_form = record {
  backend = server_settings;
  local = record {
    follow_redirects_default = true;
    timeout_default = 10000;
    no_cache_header = true;
  };
}

abbrev open_settings : Dialog
open_settings = record {
  settings_open = true;
  form = some edited_form;
  saving = false;
  local_store = default_settings;
  toasts = [];
}

abbrev saved_settings : Dialog
saved_settings =
    finish_save edited_form (returns server_settings)
      (patch_all (timeout none ∷ []) (start_save open_settings).0)

finish_save_lem_example :
    ((start_save open_settings).1 ≡ some edited_form)
    × (saved_settings.saving ≡ false)
    × Saved edited_form (timeout none ∷ []) (returns server_settings) open_settings saved_settings
finish_save_lem_example =
    finish_save_lem open_settings edited_form (timeout none ∷ []) (returns server_settings) refl
