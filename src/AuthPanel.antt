-- ===== src/AuthPanel.antt =====
-- gui/web/src/components/layout/auth-panel.tsx: the editor of authentication settings.
pub mod Tokens
pub mod Signed
pub mod Fields
pub mod Selects
pub mod Laws
use reqlet.Types.Auth.{AuthConfig, AuthType}

-- The type selector.
unfoldable pub change_type : AuthType → AuthConfig → AuthConfig
change_type type auth = record auth { type = type }
