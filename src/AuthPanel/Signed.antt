-- ===== src/AuthPanel/Signed.antt =====
-- gui/web/src/components/layout/auth-panel.tsx: the fields of the OAuth, Hawk, AWS, Akamai and ASAP
-- settings.
use reqlet.Common.{String, Option, none, some}
use reqlet.Types.Auth.{
  AuthConfig, AddTo, header, AkamaiEdgegrid, Asap, AwsSignature, Hawk, OAuth1, OAuth2,
}
use reqlet.Send.Request.{non_empty}

abbrev pub oauth1_or : Option OAuth1 → OAuth1
oauth1_or none = record {
  consumer_key = "";
  consumer_secret = "";
  token = "";
  token_secret = "";
  signature_method = "HMAC-SHA1";
}
oauth1_or (some a) = a

unfoldable pub change_oauth1_consumer_key : String → AuthConfig → AuthConfig
change_oauth1_consumer_key v auth = record auth {
  oauth1 = some (record (oauth1_or auth.oauth1) { consumer_key = v });
}

unfoldable pub change_oauth1_consumer_secret : String → AuthConfig → AuthConfig
change_oauth1_consumer_secret v auth = record auth {
  oauth1 = some (record (oauth1_or auth.oauth1) { consumer_secret = v });
}

unfoldable pub change_oauth1_token : String → AuthConfig → AuthConfig
change_oauth1_token v auth = record auth {
  oauth1 = some (record (oauth1_or auth.oauth1) { token = v });
}

unfoldable pub change_oauth1_token_secret : String → AuthConfig → AuthConfig
change_oauth1_token_secret v auth = record auth {
  oauth1 = some (record (oauth1_or auth.oauth1) { token_secret = v });
}

unfoldable pub change_oauth1_signature_method : String → AuthConfig → AuthConfig
change_oauth1_signature_method v auth = record auth {
  oauth1 = some (record (oauth1_or auth.oauth1) { signature_method = v });
}

abbrev pub oauth2_or : Option OAuth2 → OAuth2
oauth2_or none = record {
  grant_type = "authorization_code";
  access_token = "";
  token_type = "Bearer";
  add_token_to = header;
}
oauth2_or (some a) = a

unfoldable pub change_oauth2_grant_type : String → AuthConfig → AuthConfig
change_oauth2_grant_type v auth = record auth {
  oauth2 = some (record (oauth2_or auth.oauth2) { grant_type = v });
}

unfoldable pub change_oauth2_access_token : String → AuthConfig → AuthConfig
change_oauth2_access_token v auth = record auth {
  oauth2 = some (record (oauth2_or auth.oauth2) { access_token = v });
}

unfoldable pub change_oauth2_token_type : String → AuthConfig → AuthConfig
change_oauth2_token_type v auth = record auth {
  oauth2 = some (record (oauth2_or auth.oauth2) { token_type = v });
}

unfoldable pub change_oauth2_add_token_to : AddTo → AuthConfig → AuthConfig
change_oauth2_add_token_to v auth = record auth {
  oauth2 = some (record (oauth2_or auth.oauth2) { add_token_to = v });
}

abbrev pub hawk_or : Option Hawk → Hawk
hawk_or none = record { auth_id = ""; auth_key = ""; algorithm = "sha256" }
hawk_or (some a) = a

unfoldable pub change_hawk_auth_id : String → AuthConfig → AuthConfig
change_hawk_auth_id v auth = record auth {
  hawk = some (record (hawk_or auth.hawk) { auth_id = v });
}

unfoldable pub change_hawk_auth_key : String → AuthConfig → AuthConfig
change_hawk_auth_key v auth = record auth {
  hawk = some (record (hawk_or auth.hawk) { auth_key = v });
}

unfoldable pub change_hawk_algorithm : String → AuthConfig → AuthConfig
change_hawk_algorithm v auth = record auth {
  hawk = some (record (hawk_or auth.hawk) { algorithm = v });
}

abbrev pub aws_signature_or : Option AwsSignature → AwsSignature
aws_signature_or none = record {
  access_key = "";
  secret_key = "";
  region = "";
  service = "";
  session_token = none;
}
aws_signature_or (some a) = a

unfoldable pub change_aws_signature_access_key : String → AuthConfig → AuthConfig
change_aws_signature_access_key v auth = record auth {
  aws_signature = some (record (aws_signature_or auth.aws_signature) { access_key = v });
}

unfoldable pub change_aws_signature_secret_key : String → AuthConfig → AuthConfig
change_aws_signature_secret_key v auth = record auth {
  aws_signature = some (record (aws_signature_or auth.aws_signature) { secret_key = v });
}

unfoldable pub change_aws_signature_region : String → AuthConfig → AuthConfig
change_aws_signature_region v auth = record auth {
  aws_signature = some (record (aws_signature_or auth.aws_signature) { region = v });
}

unfoldable pub change_aws_signature_service : String → AuthConfig → AuthConfig
change_aws_signature_service v auth = record auth {
  aws_signature = some (record (aws_signature_or auth.aws_signature) { service = v });
}

unfoldable pub change_aws_signature_session_token : String → AuthConfig → AuthConfig
change_aws_signature_session_token v auth = record auth {
  aws_signature =
      some (record (aws_signature_or auth.aws_signature) { session_token = non_empty v });
}

abbrev pub akamai_edgegrid_or : Option AkamaiEdgegrid → AkamaiEdgegrid
akamai_edgegrid_or none = record {
  access_token = "";
  client_token = "";
  client_secret = "";
  base_url = "";
}
akamai_edgegrid_or (some a) = a

unfoldable pub change_akamai_edgegrid_access_token : String → AuthConfig → AuthConfig
change_akamai_edgegrid_access_token v auth = record auth {
  akamai_edgegrid = some (record (akamai_edgegrid_or auth.akamai_edgegrid) { access_token = v });
}

unfoldable pub change_akamai_edgegrid_client_token : String → AuthConfig → AuthConfig
change_akamai_edgegrid_client_token v auth = record auth {
  akamai_edgegrid = some (record (akamai_edgegrid_or auth.akamai_edgegrid) { client_token = v });
}

unfoldable pub change_akamai_edgegrid_client_secret : String → AuthConfig → AuthConfig
change_akamai_edgegrid_client_secret v auth = record auth {
  akamai_edgegrid = some (record (akamai_edgegrid_or auth.akamai_edgegrid) { client_secret = v });
}

unfoldable pub change_akamai_edgegrid_base_url : String → AuthConfig → AuthConfig
change_akamai_edgegrid_base_url v auth = record auth {
  akamai_edgegrid = some (record (akamai_edgegrid_or auth.akamai_edgegrid) { base_url = v });
}

abbrev pub asap_or : Option Asap → Asap
asap_or none = record { issuer = ""; audience = ""; key_id = ""; private_key = "" }
asap_or (some a) = a

unfoldable pub change_asap_issuer : String → AuthConfig → AuthConfig
change_asap_issuer v auth = record auth { asap = some (record (asap_or auth.asap) { issuer = v }) }

unfoldable pub change_asap_audience : String → AuthConfig → AuthConfig
change_asap_audience v auth = record auth {
  asap = some (record (asap_or auth.asap) { audience = v });
}

unfoldable pub change_asap_key_id : String → AuthConfig → AuthConfig
change_asap_key_id v auth = record auth { asap = some (record (asap_or auth.asap) { key_id = v }) }

unfoldable pub change_asap_private_key : String → AuthConfig → AuthConfig
change_asap_private_key v auth = record auth {
  asap = some (record (asap_or auth.asap) { private_key = v });
}
