-- ===== src/SettingsDialog.antt =====
-- gui/web/src/components/layout/settings-dialog.tsx: `SettingsDialog`. The form holds the server's
-- settings and three of the page's; the answers of the server arrive on their own.
pub mod Saved
use reqlet.Common.{
  ℕ, ◌+◌, String, Bool, true, false, Option, none, some, List, [], ◌∷◌, ◌++◌, if◌then◌else◌, nat_eq,
}
use reqlet.Backend.Types.{ServerSettings}
use reqlet.Backend.{Result, returns, throws, Thrown, backend_error, other_error}
use reqlet.Ui.Settings.{AppSettings, SettingsPatch, update}
use mathlib.Core.Option

-- `Pick<LocalSettings, …>`
pub record LocalForm : Type 0 where
  pub follow_redirects_default : Bool
  pub timeout_default : ℕ
  pub no_cache_header : Bool

pub record FormState : Type 0 where
  pub backend : ServerSettings
  pub local : LocalForm

-- The dialog with the settings of the page, and the texts that were shown.
pub record Dialog : Type 0 where
  pub settings_open : Bool
  pub form : Option FormState
  pub saving : Bool
  pub local_store : AppSettings
  pub toasts : List String

abbrev pub picked : AppSettings → LocalForm
picked s = record {
  follow_redirects_default = s.follow_redirects_default;
  timeout_default = s.timeout_default;
  no_cache_header = s.no_cache_header;
}

abbrev pub toast : String → Dialog → Dialog
toast text d = record d { toasts = d.toasts ++ (text ∷ []) }

-- The dialog opens, and the server is asked for its settings.
unfoldable pub open_dialog : Dialog → Dialog
open_dialog d = record d { settings_open = true }

-- The answer of `getSettings`, with the page's settings of the time of the question.
unfoldable pub settings_arrive : AppSettings → Result ServerSettings → Dialog → Dialog
settings_arrive asked (returns backend) d = record d {
  form = some (record { backend = backend; local = picked asked });
}
settings_arrive asked (throws e) d = toast "Failed to load settings" d

-- The fields of the form. A number that is not read or is 0 gives way to the field's default.
pub data FormEdit : Type 0 where
  ssl_verification follow_redirects no_cache use_system_proxy respect_env_proxy : Bool → FormEdit
  timeout max_response_size script_timeout : Option ℕ → FormEdit
  proxy_url proxy_username proxy_password no_proxy : String → FormEdit

-- `parseInt(text) || fallback`
abbrev pub number_or : ℕ → Option ℕ → ℕ
number_or fallback none = fallback
number_or fallback (some n) = if nat_eq n 0 then fallback else n

abbrev pub with_backend : FormState → ServerSettings → FormState
with_backend f backend = record f { backend = backend }

abbrev pub with_local : FormState → LocalForm → FormState
with_local f local = record f { local = local }

unfoldable pub edit_form : FormEdit → FormState → FormState
edit_form (ssl_verification v) f = with_backend f (record f.backend { ssl_verification = v })
edit_form (follow_redirects v) f = with_local f (record f.local { follow_redirects_default = v })
edit_form (no_cache v) f = with_local f (record f.local { no_cache_header = v })
edit_form (use_system_proxy v) f = with_backend f (record f.backend { use_system_proxy = v })
edit_form (respect_env_proxy v) f = with_backend f (record f.backend { respect_env_proxy = v })
edit_form (timeout n) f = with_local f (record f.local { timeout_default = number_or 0 n })
edit_form (max_response_size n) f =
    with_backend f (record f.backend { max_response_size_mb = number_or 50 n })
edit_form (script_timeout n) f =
    with_backend f (record f.backend { script_timeout_ms = number_or 5000 n })
edit_form (proxy_url v) f = with_backend f (record f.backend { proxy_url = v })
edit_form (proxy_username v) f = with_backend f (record f.backend { proxy_username = v })
edit_form (proxy_password v) f = with_backend f (record f.backend { proxy_password = v })
edit_form (no_proxy v) f = with_backend f (record f.backend { no_proxy = v })

-- `setForm((prev) => prev ? … : prev)`
unfoldable pub patch : FormEdit → Dialog → Dialog
unfolding edit_form
patch e d = record d { form = Option.map (edit_form e) d.form }

-- `handleSave` up to the call, with what is sent and the form of the time.
abbrev pub asked_save : Option FormState → Dialog → Dialog × Option FormState
asked_save none d = (d, none)
asked_save (some f) d = (record d { saving = true }, some f)

unfoldable pub start_save : Dialog → Dialog × Option FormState
start_save d = asked_save d.form d

abbrev pub local_patch : LocalForm → SettingsPatch
local_patch l = record {
  ssl_verify_default = none;
  follow_redirects_default = some l.follow_redirects_default;
  timeout_default = some l.timeout_default;
  no_cache_header = some l.no_cache_header;
  proxy = none;
  editor_font_size = none;
  editor_word_wrap = none;
}

abbrev pub error_text : Thrown → String
error_text (backend_error code message) = message
error_text (other_error reason) = "Failed to save settings"

-- The rest of `handleSave`, for the form that was sent.
unfoldable pub finish_save : FormState → Result ServerSettings → Dialog → Dialog
unfolding update
finish_save sent (returns updated) d = toast "Settings saved" (record d {
  settings_open = false;
  form = Option.map (λ (f : FormState). with_backend f updated) d.form;
  saving = false;
  local_store = update d.local_store (local_patch sent.local);
})
finish_save sent (throws e) d = toast (error_text e) (record d { saving = false })

unfoldable pub handle_cancel : Dialog → Dialog
handle_cancel d = record d { form = none; settings_open = false }
