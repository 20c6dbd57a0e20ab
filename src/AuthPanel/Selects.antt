-- ===== src/AuthPanel/Selects.antt =====
-- gui/web/src/components/layout/auth-panel.tsx: the three selects of where a token is added.
use reqlet.Common.{ℕ}
use reqlet.Types.Auth.{AuthConfig, AddTo}
use reqlet.AuthPanel.Tokens.{jwt_or, api_key_or, change_jwt_add_to, change_api_key_add_to}
use reqlet.AuthPanel.Signed.{oauth2_or, change_oauth2_add_token_to}

pub data Select : Type 0 where
  jwt_add_to api_key_add_to oauth2_add_token_to : Select

-- `auth.x?.addTo ?? "header"`
abbrev pub selected : Select → AuthConfig → AddTo
selected jwt_add_to auth = (jwt_or auth.jwt).add_to
selected api_key_add_to auth = (api_key_or auth.api_key).add_to
selected oauth2_add_token_to auth = (oauth2_or auth.oauth2).add_token_to

abbrev pub pick : Select → AddTo → AuthConfig → AuthConfig
pick jwt_add_to a = change_jwt_add_to a
pick api_key_add_to a = change_api_key_add_to a
pick oauth2_add_token_to a = change_oauth2_add_token_to a

abbrev pub select_place : Select → ℕ
select_place jwt_add_to = 0
select_place api_key_add_to = 1
select_place oauth2_add_token_to = 2
