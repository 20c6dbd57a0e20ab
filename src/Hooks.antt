-- ===== src/Hooks.antt =====
-- gui/web/src/hooks/use-theme.ts, use-delete-confirm.tsx and use-keyboard-shortcut.ts. What the page
-- prefers is a parameter; so are the keys' names in lower case.
use reqlet.Common.{
  String, Bool, true, false, not, ◌&&◌, ◌||◌, Option, none, some, if◌then◌else◌, ◌==◌,
}

pub data ThemeSetting : Type 0 where
  light dark system : ThemeSetting

unfoldable pub read_setting : Option String → ThemeSetting
read_setting none = system
read_setting (some stored) =
    if stored == "light" then light else if stored == "dark" then dark else system

-- Whether the page is dark; the class of the document follows it.
unfoldable pub is_dark : Bool → ThemeSetting → Bool
is_dark prefers_dark light = false
is_dark prefers_dark dark = true
is_dark prefers_dark system = prefers_dark

unfoldable pub toggle_theme : ThemeSetting → ThemeSetting
toggle_theme light = dark
toggle_theme dark = system
toggle_theme system = light

-- The text that is stored.
unfoldable pub setting_text : ThemeSetting → String
setting_text light = "light"
setting_text dark = "dark"
setting_text system = "system"

-- A deletion that waits for its confirmation, over a state that it changes.
pub record Pending (S : Type 0) : Type 0 where
  pub label : String
  pub on_confirm : S → S

pub record Confirming (S : Type 0) : Type 0 where
  pub pending : Option (Pending S)
  pub state : S

module _ {S : Type 0} where
  unfoldable pub request_delete : String → (S → S) → Confirming S → Confirming S
  request_delete label on_confirm c = record c {
    pending = some (record { label = label; on_confirm = on_confirm });
  }

  unfoldable pub cancel_delete : Confirming S → Confirming S
  cancel_delete c = record c { pending = none }

  abbrev confirmed : Option (Pending S) → Confirming S → Confirming S
  confirmed none c = c
  confirmed (some p) c = record { pending = none; state = p.on_confirm c.state }

  -- The action of the dialog, which is there only while a deletion waits.
  unfoldable pub confirm_delete : Confirming S → Confirming S
  confirm_delete c = confirmed c.pending c

pub record KeyPress : Type 0 where
  pub key : String
  pub ctrl_key : Bool
  pub meta_key : Bool
  pub shift_key : Bool
  pub alt_key : Bool

abbrev same_bool : Bool → Bool → Bool
same_bool true b = b
same_bool false b = not b

-- The test of the listener; both keys are in lower case.
unfoldable pub matches_shortcut : String → Bool → Bool → Bool → KeyPress → Bool
matches_shortcut key ctrl shift alt e =
    (e.key == key)
    && (if ctrl then e.ctrl_key || e.meta_key else not e.ctrl_key && not e.meta_key)
    && same_bool shift e.shift_key
    && same_bool alt e.alt_key
