-- ===== src/Types/Auth.antt =====
-- gui/web/src/types.ts: the authentication settings of a request, folder or collection.
use reqlet.Common.{String, Option, none}

pub data AuthType : Type 0 where
  inherit no_auth basic bearer jwt digest oauth1 oauth2 hawk : AuthType
  aws_signature ntlm api_key akamai_edgegrid asap : AuthType

pub data AddTo : Type 0 where
  header query : AddTo

pub record Bearer : Type 0 where
  pub token : String

-- The fields of `basic`, and of `digest`.
pub record Login : Type 0 where
  pub username : String
  pub password : String

pub record ApiKey : Type 0 where
  pub key : String
  pub value : String
  pub add_to : AddTo

pub record Jwt : Type 0 where
  pub algorithm : String
  pub secret : String
  pub payload : String
  pub add_to : AddTo

pub record OAuth1 : Type 0 where
  pub consumer_key : String
  pub consumer_secret : String
  pub token : String
  pub token_secret : String
  pub signature_method : String

pub record OAuth2 : Type 0 where
  pub grant_type : String
  pub access_token : String
  pub token_type : String
  pub add_token_to : AddTo

pub record Hawk : Type 0 where
  pub auth_id : String
  pub auth_key : String
  pub algorithm : String

pub record AwsSignature : Type 0 where
  pub access_key : String
  pub secret_key : String
  pub region : String
  pub service : String
  pub session_token : Option String

pub record Ntlm : Type 0 where
  pub username : String
  pub password : String
  pub domain : Option String
  pub workstation : Option String

pub record AkamaiEdgegrid : Type 0 where
  pub access_token : String
  pub client_token : String
  pub client_secret : String
  pub base_url : String

pub record Asap : Type 0 where
  pub issuer : String
  pub audience : String
  pub key_id : String
  pub private_key : String

pub record AuthConfig : Type 0 where
  pub type : AuthType
  pub bearer : Option Bearer
  pub basic : Option Login
  pub api_key : Option ApiKey
  pub jwt : Option Jwt
  pub digest : Option Login
  pub oauth1 : Option OAuth1
  pub oauth2 : Option OAuth2
  pub hawk : Option Hawk
  pub aws_signature : Option AwsSignature
  pub ntlm : Option Ntlm
  pub akamai_edgegrid : Option AkamaiEdgegrid
  pub asap : Option Asap

-- The literal `{ type: t }`.
abbrev pub auth_of_type : AuthType → AuthConfig
auth_of_type t = record {
  type = t;
  bearer = none;
  basic = none;
  api_key = none;
  jwt = none;
  digest = none;
  oauth1 = none;
  oauth2 = none;
  hawk = none;
  aws_signature = none;
  ntlm = none;
  akamai_edgegrid = none;
  asap = none;
}
