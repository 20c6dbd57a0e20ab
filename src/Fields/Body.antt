-- ===== src/Fields/Body.antt =====
-- gui/web/src/components/layout/request-pane.tsx: the handlers of `BodyTab`, `ScriptsTab` and
-- `SettingsTab`. A number from a text field is what `parseInt(…) || 0` gives, a parameter.
use reqlet.Common.{
  ℕ, String, Bool, true, not, Option, none, some, [], ◌∷◌, ◌++◌, map, if◌then◌else◌, ◌==◌, given,
  filter,
}
use reqlet.Types.Auth.{AuthConfig}
use reqlet.Types.Request.{
  FormDataItem, ValueType, RequestBody, BodyType, RawContentType, RequestState, RequestSettings,
  HttpVersion, default_request_settings,
}
use reqlet.Fields.{Cell, change_pair, delete_pair, make_kv}

-- `Partial<FormDataItem>`
pub record FormPatch : Type 0 where
  pub id : Option String
  pub enabled : Option Bool
  pub key : Option String
  pub value_type : Option ValueType
  pub value : Option String
  pub file_name : Option (Option String)
  pub file_content : Option (Option String)
  pub description : Option String

abbrev pub patch_form : FormPatch → FormDataItem → FormDataItem
patch_form p item = record {
  id = given p.id item.id;
  enabled = given p.enabled item.enabled;
  key = given p.key item.key;
  value_type = given p.value_type item.value_type;
  value = given p.value item.value;
  file_name = given p.file_name item.file_name;
  file_content = given p.file_content item.file_content;
  description = given p.description item.description;
}

abbrev pub new_form_item : String → FormDataItem
new_form_item uuid = record {
  id = uuid;
  enabled = true;
  key = "";
  value_type = ValueType.text;
  value = "";
  file_name = none;
  file_content = none;
  description = "";
}

-- A change that `BodyTab` reports.
pub data BodyEdit : Type 0 where
  picks_type : BodyType → BodyEdit
  picks_content_type : RawContentType → BodyEdit
  types_raw : String → BodyEdit
  changes_form : String → FormPatch → BodyEdit
  deletes_form : String → BodyEdit
  adds_form : String → BodyEdit
  changes_urlencoded : String → Cell → BodyEdit
  deletes_urlencoded : String → BodyEdit
  adds_urlencoded : String → BodyEdit
  reads_file : String → Option String → BodyEdit
  types_query : String → BodyEdit
  types_variables : String → BodyEdit

-- `(…).split(",")[1] ?? ""`
abbrev pub base64_of : Option String → String
base64_of none = ""
base64_of (some s) = s

unfoldable pub edit_body : RequestBody → BodyEdit → RequestBody
edit_body body (picks_type t) = record body { type = t }
edit_body body (picks_content_type t) = record body { raw_content_type = t }
edit_body body (types_raw v) = record body { raw = v }
edit_body body (changes_form id updates) = record body {
  form_data = map (λ item. if item.id == id then patch_form updates item else item) body.form_data;
}
edit_body body (deletes_form id) = record body {
  form_data = filter (λ item. not (item.id == id)) body.form_data;
}
edit_body body (adds_form uuid) = record body {
  form_data = body.form_data ++ (new_form_item uuid ∷ []);
}
edit_body body (changes_urlencoded id cell) = record body {
  urlencoded = change_pair id cell body.urlencoded;
}
edit_body body (deletes_urlencoded id) = record body { urlencoded = delete_pair id body.urlencoded }
edit_body body (adds_urlencoded uuid) = record body {
  urlencoded = body.urlencoded ++ (make_kv uuid ∷ []);
}
edit_body body (reads_file name content) = record body {
  binary_file_name = some name;
  binary_file_content = some (base64_of content);
}
edit_body body (types_query v) = record body { graphql_query = v }
edit_body body (types_variables v) = record body { graphql_variables = v }

-- `set(key, value)` of `SettingsTab`, and its reset.
pub data SettingsEdit : Type 0 where
  follow_redirects : Bool → SettingsEdit
  max_redirects : ℕ → SettingsEdit
  timeout : ℕ → SettingsEdit
  encode_url : Bool → SettingsEdit
  cookie_jar : Bool → SettingsEdit
  ssl_verify : Bool → SettingsEdit
  http_version : HttpVersion → SettingsEdit
  follow_original_method : Bool → SettingsEdit
  follow_auth_header : Bool → SettingsEdit
  remove_referer : Bool → SettingsEdit
  proxy_enabled : Bool → SettingsEdit
  proxy_url : String → SettingsEdit
  proxy_username : String → SettingsEdit
  proxy_password : String → SettingsEdit
  defaults : SettingsEdit

unfoldable pub edit_settings : RequestSettings → SettingsEdit → RequestSettings
edit_settings s (follow_redirects v) = record s { follow_redirects = v }
edit_settings s (max_redirects v) = record s { max_redirects = v }
edit_settings s (timeout v) = record s { timeout = v }
edit_settings s (encode_url v) = record s { encode_url = v }
edit_settings s (cookie_jar v) = record s { cookie_jar = v }
edit_settings s (ssl_verify v) = record s { ssl_verify = v }
edit_settings s (http_version v) = record s { http_version = v }
edit_settings s (follow_original_method v) = record s { follow_original_method = v }
edit_settings s (follow_auth_header v) = record s { follow_auth_header = v }
edit_settings s (remove_referer v) = record s { remove_referer = v }
edit_settings s (proxy_enabled v) = record s { proxy = record s.proxy { enabled = v } }
edit_settings s (proxy_url v) = record s { proxy = record s.proxy { url = v } }
edit_settings s (proxy_username v) = record s { proxy = record s.proxy { username = v } }
edit_settings s (proxy_password v) = record s { proxy = record s.proxy { password = v } }
edit_settings s defaults = default_request_settings

abbrev shown_settings : Option RequestSettings → RequestSettings
shown_settings none = default_request_settings
shown_settings (some s) = s

-- What the tabs of the pane do with the request of the active tab.
unfoldable pub settings_change : SettingsEdit → RequestState → RequestState
unfolding edit_settings
settings_change e r = record r { settings = some (edit_settings (shown_settings r.settings) e) }

unfoldable pub body_change : BodyEdit → RequestState → RequestState
unfolding edit_body
body_change e r = record r { body = edit_body r.body e }

unfoldable pub auth_change : AuthConfig → RequestState → RequestState
auth_change auth r = record r { auth = auth }

unfoldable pub pre_script_change : String → RequestState → RequestState
pre_script_change script r = record r { pre_request_script = script }

unfoldable pub test_script_change : String → RequestState → RequestState
test_script_change script r = record r { test_script = script }
