-- ===== src/AuthPanel/Fields.antt =====
-- gui/web/src/components/layout/auth-panel.tsx: the text fields of the panel, each with what it shows
-- and what typing into it does.
use reqlet.Common.{ℕ, String, Option, none, some}
use reqlet.Types.Auth.{AuthConfig}
use reqlet.AuthPanel.Tokens.{
  bearer_or, login_or, jwt_or, ntlm_or, api_key_or, change_bearer_token, change_basic_username,
  change_basic_password, change_jwt_algorithm, change_jwt_secret, change_jwt_payload,
  change_digest_username, change_digest_password, change_ntlm_username, change_ntlm_password,
  change_ntlm_domain, change_ntlm_workstation, change_api_key_key, change_api_key_value,
}
use reqlet.AuthPanel.Signed.{
  asap_or, aws_signature_or, hawk_or, akamai_edgegrid_or, oauth1_or, oauth2_or,
  change_oauth1_consumer_key, change_oauth1_consumer_secret, change_oauth1_token,
  change_oauth1_token_secret, change_oauth1_signature_method, change_oauth2_grant_type,
  change_oauth2_access_token, change_oauth2_token_type, change_hawk_auth_id, change_hawk_auth_key,
  change_hawk_algorithm, change_aws_signature_access_key, change_aws_signature_secret_key,
  change_aws_signature_region, change_aws_signature_service, change_aws_signature_session_token,
  change_akamai_edgegrid_access_token, change_akamai_edgegrid_client_token,
  change_akamai_edgegrid_client_secret, change_akamai_edgegrid_base_url, change_asap_issuer,
  change_asap_audience, change_asap_key_id, change_asap_private_key,
}

pub data Field : Type 0 where
  bearer_token basic_username basic_password jwt_algorithm jwt_secret jwt_payload digest_username
        digest_password oauth1_consumer_key oauth1_consumer_secret oauth1_token oauth1_token_secret
        oauth1_signature_method oauth2_grant_type oauth2_access_token oauth2_token_type hawk_auth_id
        hawk_auth_key hawk_algorithm aws_signature_access_key aws_signature_secret_key
        aws_signature_region aws_signature_service aws_signature_session_token ntlm_username
        ntlm_password ntlm_domain ntlm_workstation api_key_key api_key_value
        akamai_edgegrid_access_token akamai_edgegrid_client_token akamai_edgegrid_client_secret
        akamai_edgegrid_base_url asap_issuer asap_audience asap_key_id asap_private_key :
      Field

abbrev pub or_empty : Option String → String
or_empty none = ""
or_empty (some s) = s

-- `auth.x?.y ?? default`
abbrev pub shown : Field → AuthConfig → String
shown bearer_token auth = (bearer_or auth.bearer).token
shown basic_username auth = (login_or auth.basic).username
shown basic_password auth = (login_or auth.basic).password
shown jwt_algorithm auth = (jwt_or auth.jwt).algorithm
shown jwt_secret auth = (jwt_or auth.jwt).secret
shown jwt_payload auth = (jwt_or auth.jwt).payload
shown digest_username auth = (login_or auth.digest).username
shown digest_password auth = (login_or auth.digest).password
shown oauth1_consumer_key auth = (oauth1_or auth.oauth1).consumer_key
shown oauth1_consumer_secret auth = (oauth1_or auth.oauth1).consumer_secret
shown oauth1_token auth = (oauth1_or auth.oauth1).token
shown oauth1_token_secret auth = (oauth1_or auth.oauth1).token_secret
shown oauth1_signature_method auth = (oauth1_or auth.oauth1).signature_method
shown oauth2_grant_type auth = (oauth2_or auth.oauth2).grant_type
shown oauth2_access_token auth = (oauth2_or auth.oauth2).access_token
shown oauth2_token_type auth = (oauth2_or auth.oauth2).token_type
shown hawk_auth_id auth = (hawk_or auth.hawk).auth_id
shown hawk_auth_key auth = (hawk_or auth.hawk).auth_key
shown hawk_algorithm auth = (hawk_or auth.hawk).algorithm
shown aws_signature_access_key auth = (aws_signature_or auth.aws_signature).access_key
shown aws_signature_secret_key auth = (aws_signature_or auth.aws_signature).secret_key
shown aws_signature_region auth = (aws_signature_or auth.aws_signature).region
shown aws_signature_service auth = (aws_signature_or auth.aws_signature).service
shown aws_signature_session_token auth =
    or_empty (aws_signature_or auth.aws_signature).session_token
shown ntlm_username auth = (ntlm_or auth.ntlm).username
shown ntlm_password auth = (ntlm_or auth.ntlm).password
shown ntlm_domain auth = or_empty (ntlm_or auth.ntlm).domain
shown ntlm_workstation auth = or_empty (ntlm_or auth.ntlm).workstation
shown api_key_key auth = (api_key_or auth.api_key).key
shown api_key_value auth = (api_key_or auth.api_key).value
shown akamai_edgegrid_access_token auth = (akamai_edgegrid_or auth.akamai_edgegrid).access_token
shown akamai_edgegrid_client_token auth = (akamai_edgegrid_or auth.akamai_edgegrid).client_token
shown akamai_edgegrid_client_secret auth = (akamai_edgegrid_or auth.akamai_edgegrid).client_secret
shown akamai_edgegrid_base_url auth = (akamai_edgegrid_or auth.akamai_edgegrid).base_url
shown asap_issuer auth = (asap_or auth.asap).issuer
shown asap_audience auth = (asap_or auth.asap).audience
shown asap_key_id auth = (asap_or auth.asap).key_id
shown asap_private_key auth = (asap_or auth.asap).private_key

abbrev pub edit : Field → String → AuthConfig → AuthConfig
edit bearer_token v = change_bearer_token v
edit basic_username v = change_basic_username v
edit basic_password v = change_basic_password v
edit jwt_algorithm v = change_jwt_algorithm v
edit jwt_secret v = change_jwt_secret v
edit jwt_payload v = change_jwt_payload v
edit digest_username v = change_digest_username v
edit digest_password v = change_digest_password v
edit oauth1_consumer_key v = change_oauth1_consumer_key v
edit oauth1_consumer_secret v = change_oauth1_consumer_secret v
edit oauth1_token v = change_oauth1_token v
edit oauth1_token_secret v = change_oauth1_token_secret v
edit oauth1_signature_method v = change_oauth1_signature_method v
edit oauth2_grant_type v = change_oauth2_grant_type v
edit oauth2_access_token v = change_oauth2_access_token v
edit oauth2_token_type v = change_oauth2_token_type v
edit hawk_auth_id v = change_hawk_auth_id v
edit hawk_auth_key v = change_hawk_auth_key v
edit hawk_algorithm v = change_hawk_algorithm v
edit aws_signature_access_key v = change_aws_signature_access_key v
edit aws_signature_secret_key v = change_aws_signature_secret_key v
edit aws_signature_region v = change_aws_signature_region v
edit aws_signature_service v = change_aws_signature_service v
edit aws_signature_session_token v = change_aws_signature_session_token v
edit ntlm_username v = change_ntlm_username v
edit ntlm_password v = change_ntlm_password v
edit ntlm_domain v = change_ntlm_domain v
edit ntlm_workstation v = change_ntlm_workstation v
edit api_key_key v = change_api_key_key v
edit api_key_value v = change_api_key_value v
edit akamai_edgegrid_access_token v = change_akamai_edgegrid_access_token v
edit akamai_edgegrid_client_token v = change_akamai_edgegrid_client_token v
edit akamai_edgegrid_client_secret v = change_akamai_edgegrid_client_secret v
edit akamai_edgegrid_base_url v = change_akamai_edgegrid_base_url v
edit asap_issuer v = change_asap_issuer v
edit asap_audience v = change_asap_audience v
edit asap_key_id v = change_asap_key_id v
edit asap_private_key v = change_asap_private_key v

abbrev pub place : Field → ℕ
place bearer_token = 0
place basic_username = 1
place basic_password = 2
place jwt_algorithm = 3
place jwt_secret = 4
place jwt_payload = 5
place digest_username = 6
place digest_password = 7
place oauth1_consumer_key = 8
place oauth1_consumer_secret = 9
place oauth1_token = 10
place oauth1_token_secret = 11
place oauth1_signature_method = 12
place oauth2_grant_type = 13
place oauth2_access_token = 14
place oauth2_token_type = 15
place hawk_auth_id = 16
place hawk_auth_key = 17
place hawk_algorithm = 18
place aws_signature_access_key = 19
place aws_signature_secret_key = 20
place aws_signature_region = 21
place aws_signature_service = 22
place aws_signature_session_token = 23
place ntlm_username = 24
place ntlm_password = 25
place ntlm_domain = 26
place ntlm_workstation = 27
place api_key_key = 28
place api_key_value = 29
place akamai_edgegrid_access_token = 30
place akamai_edgegrid_client_token = 31
place akamai_edgegrid_client_secret = 32
place akamai_edgegrid_base_url = 33
place asap_issuer = 34
place asap_audience = 35
place asap_key_id = 36
place asap_private_key = 37
