-- ===== src/Types/Request.antt =====
-- gui/web/src/types.ts: the editable part of a request, and its defaults.
use reqlet.Common.{ℕ, String, Bool, true, false, Option, none, some, List, []}
use reqlet.Types.Auth.{AuthConfig, auth_of_type, AuthType}

pub data HttpMethod : Type 0 where
  get post put patch delete options head : HttpMethod

pub data BodyType : Type 0 where
  no_body raw form_data x_www_form_urlencoded binary graphql : BodyType

pub data RawContentType : Type 0 where
  application_json application_xml text_plain text_html application_javascript : RawContentType

pub record KeyValuePair : Type 0 where
  pub id : String
  pub enabled : Bool
  pub key : String
  pub value : String
  pub description : String

pub data ValueType : Type 0 where
  text file : ValueType

pub record FormDataItem : Type 0 where
  pub id : String
  pub enabled : Bool
  pub key : String
  pub value_type : ValueType
  pub value : String
  pub file_name : Option String
  pub file_content : Option String
  pub description : String

pub record RequestBody : Type 0 where
  pub type : BodyType
  pub raw : String
  pub raw_content_type : RawContentType
  pub form_data : List FormDataItem
  pub urlencoded : List KeyValuePair
  pub graphql_query : String
  pub graphql_variables : String
  pub binary_file_name : Option String
  pub binary_file_content : Option String

pub data HttpVersion : Type 0 where
  auto http1 http2 : HttpVersion

pub record Proxy : Type 0 where
  pub enabled : Bool
  pub url : String
  pub username : String
  pub password : String

pub record RequestSettings : Type 0 where
  pub follow_redirects : Bool
  pub max_redirects : ℕ
  pub follow_original_method : Bool
  pub follow_auth_header : Bool
  pub remove_referer : Bool
  pub ssl_verify : Bool
  pub timeout : ℕ
  pub http_version : HttpVersion
  pub encode_url : Bool
  pub cookie_jar : Bool
  pub proxy : Proxy

abbrev pub no_proxy : Proxy
no_proxy = record { enabled = false; url = ""; username = ""; password = "" }

abbrev pub default_request_settings : RequestSettings
default_request_settings = record {
  follow_redirects = true;
  max_redirects = 10;
  follow_original_method = false;
  follow_auth_header = true;
  remove_referer = false;
  ssl_verify = true;
  timeout = 30000;
  http_version = auto;
  encode_url = true;
  cookie_jar = true;
  proxy = no_proxy;
}

pub record RequestState : Type 0 where
  pub method : HttpMethod
  pub url : String
  pub params : List KeyValuePair
  pub headers : List KeyValuePair
  pub body : RequestBody
  pub auth : AuthConfig
  pub pre_request_script : String
  pub test_script : String
  pub path_variables : Option (List KeyValuePair)
  pub settings : Option RequestSettings

abbrev pub empty_body : RequestBody
empty_body = record {
  type = no_body;
  raw = "";
  raw_content_type = application_json;
  form_data = [];
  urlencoded = [];
  graphql_query = "";
  graphql_variables = "";
  binary_file_name = none;
  binary_file_content = none;
}

abbrev pub default_request : RequestState
default_request = record {
  method = get;
  url = "";
  params = [];
  headers = [];
  body = empty_body;
  auth = auth_of_type AuthType.inherit;
  pre_request_script = "";
  test_script = "";
  path_variables = some [];
  settings = some default_request_settings;
}
