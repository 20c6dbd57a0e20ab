-- ===== src/AuthPanel/Tokens.antt =====
-- gui/web/src/components/layout/auth-panel.tsx: the fields of the bearer, basic, JWT, digest, NTLM and
-- API key settings. A field that is changed fills the other fields with their defaults.
use reqlet.Common.{String, Option, none, some}
use reqlet.Types.Auth.{AuthConfig, AddTo, header, ApiKey, Bearer, Jwt, Login, Ntlm}
use reqlet.Send.Request.{non_empty}

abbrev pub bearer_or : Option Bearer → Bearer
bearer_or none = record { token = "" }
bearer_or (some a) = a

unfoldable pub change_bearer_token : String → AuthConfig → AuthConfig
change_bearer_token v auth = record auth {
  bearer = some (record (bearer_or auth.bearer) { token = v });
}

abbrev pub login_or : Option Login → Login
login_or none = record { username = ""; password = "" }
login_or (some a) = a

unfoldable pub change_basic_username : String → AuthConfig → AuthConfig
change_basic_username v auth = record auth {
  basic = some (record (login_or auth.basic) { username = v });
}

unfoldable pub change_basic_password : String → AuthConfig → AuthConfig
change_basic_password v auth = record auth {
  basic = some (record (login_or auth.basic) { password = v });
}

abbrev pub jwt_or : Option Jwt → Jwt
jwt_or none = record { algorithm = "HS256"; secret = ""; payload = "{}"; add_to = header }
jwt_or (some a) = a

unfoldable pub change_jwt_algorithm : String → AuthConfig → AuthConfig
change_jwt_algorithm v auth = record auth {
  jwt = some (record (jwt_or auth.jwt) { algorithm = v });
}

unfoldable pub change_jwt_secret : String → AuthConfig → AuthConfig
change_jwt_secret v auth = record auth { jwt = some (record (jwt_or auth.jwt) { secret = v }) }

unfoldable pub change_jwt_payload : String → AuthConfig → AuthConfig
change_jwt_payload v auth = record auth { jwt = some (record (jwt_or auth.jwt) { payload = v }) }

unfoldable pub change_jwt_add_to : AddTo → AuthConfig → AuthConfig
change_jwt_add_to v auth = record auth { jwt = some (record (jwt_or auth.jwt) { add_to = v }) }

unfoldable pub change_digest_username : String → AuthConfig → AuthConfig
change_digest_username v auth = record auth {
  digest = some (record (login_or auth.digest) { username = v });
}

unfoldable pub change_digest_password : String → AuthConfig → AuthConfig
change_digest_password v auth = record auth {
  digest = some (record (login_or auth.digest) { password = v });
}

abbrev pub ntlm_or : Option Ntlm → Ntlm
ntlm_or none = record { username = ""; password = ""; domain = none; workstation = none }
ntlm_or (some a) = a

unfoldable pub change_ntlm_username : String → AuthConfig → AuthConfig
change_ntlm_username v auth = record auth {
  ntlm = some (record (ntlm_or auth.ntlm) { username = v });
}

unfoldable pub change_ntlm_password : String → AuthConfig → AuthConfig
change_ntlm_password v auth = record auth {
  ntlm = some (record (ntlm_or auth.ntlm) { password = v });
}

unfoldable pub change_ntlm_domain : String → AuthConfig → AuthConfig
change_ntlm_domain v auth = record auth {
  ntlm = some (record (ntlm_or auth.ntlm) { domain = non_empty v });
}

unfoldable pub change_ntlm_workstation : String → AuthConfig → AuthConfig
change_ntlm_workstation v auth = record auth {
  ntlm = some (record (ntlm_or auth.ntlm) { workstation = non_empty v });
}

abbrev pub api_key_or : Option ApiKey → ApiKey
api_key_or none = record { key = ""; value = ""; add_to = header }
api_key_or (some a) = a

unfoldable pub change_api_key_key : String → AuthConfig → AuthConfig
change_api_key_key v auth = record auth {
  api_key = some (record (api_key_or auth.api_key) { key = v });
}

unfoldable pub change_api_key_value : String → AuthConfig → AuthConfig
change_api_key_value v auth = record auth {
  api_key = some (record (api_key_or auth.api_key) { value = v });
}

unfoldable pub change_api_key_add_to : AddTo → AuthConfig → AuthConfig
change_api_key_add_to v auth = record auth {
  api_key = some (record (api_key_or auth.api_key) { add_to = v });
}
