-- ===== src/Ui/Settings.antt =====
-- gui/web/src/store/settings.ts: `useSettingsStore`.
use reqlet.Common.{ℕ, ◌≡◌, refl, Bool, true, false, Option, none, some, or_else, given}
use reqlet.Types.Request.{Proxy, no_proxy}

pub record AppSettings : Type 0 where
  pub ssl_verify_default : Bool
  pub follow_redirects_default : Bool
  pub timeout_default : ℕ
  pub no_cache_header : Bool
  pub proxy : Proxy
  pub editor_font_size : ℕ
  pub editor_word_wrap : Bool

abbrev pub default_settings : AppSettings
default_settings = record {
  ssl_verify_default = true;
  follow_redirects_default = true;
  timeout_default = 30000;
  no_cache_header = false;
  proxy = no_proxy;
  editor_font_size = 12;
  editor_word_wrap = true;
}

-- `Partial<AppSettings>`
pub record SettingsPatch : Type 0 where
  pub ssl_verify_default : Option Bool
  pub follow_redirects_default : Option Bool
  pub timeout_default : Option ℕ
  pub no_cache_header : Option Bool
  pub proxy : Option Proxy
  pub editor_font_size : Option ℕ
  pub editor_word_wrap : Option Bool

unfoldable pub update : AppSettings → SettingsPatch → AppSettings
update s p = record {
  ssl_verify_default = given p.ssl_verify_default s.ssl_verify_default;
  follow_redirects_default = given p.follow_redirects_default s.follow_redirects_default;
  timeout_default = given p.timeout_default s.timeout_default;
  no_cache_header = given p.no_cache_header s.no_cache_header;
  proxy = given p.proxy s.proxy;
  editor_font_size = given p.editor_font_size s.editor_font_size;
  editor_word_wrap = given p.editor_word_wrap s.editor_word_wrap;
}

unfoldable pub reset_settings : AppSettings → AppSettings
reset_settings s = default_settings

-- The patch that two patches in a row amount to.
abbrev pub then_patch : SettingsPatch → SettingsPatch → SettingsPatch
then_patch p q = record {
  ssl_verify_default = or_else q.ssl_verify_default p.ssl_verify_default;
  follow_redirects_default = or_else q.follow_redirects_default p.follow_redirects_default;
  timeout_default = or_else q.timeout_default p.timeout_default;
  no_cache_header = or_else q.no_cache_header p.no_cache_header;
  proxy = or_else q.proxy p.proxy;
  editor_font_size = or_else q.editor_font_size p.editor_font_size;
  editor_word_wrap = or_else q.editor_word_wrap p.editor_word_wrap;
}

given-given {ℓ} :
    {A : Type ℓ} (p q : Option A) (a : A) → given q (given p a) ≡ given (or_else q p) a
given-given p none a = refl
given-given p (some b) a = refl

-- Two updates amount to one by a patch in which the later fields win.
pub update_twice :
    (s : AppSettings) (p q : SettingsPatch) → update (update s p) q ≡ update s (then_patch p q)
unfolding update
update_twice s p q =
    rw
      (
        given-given p.ssl_verify_default q.ssl_verify_default s.ssl_verify_default,
        given-given p.follow_redirects_default q.follow_redirects_default
            s.follow_redirects_default,
        given-given p.timeout_default q.timeout_default s.timeout_default,
        given-given p.no_cache_header q.no_cache_header s.no_cache_header,
        given-given p.proxy q.proxy s.proxy,
        given-given p.editor_font_size q.editor_font_size s.editor_font_size,
        given-given p.editor_word_wrap q.editor_word_wrap s.editor_word_wrap,
      )
      refl
