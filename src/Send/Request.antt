-- ===== src/Send/Request.antt =====
-- gui/web/src/components/layout/request-pane.tsx: the argument of `sendRequest` in `handleSend`.
use reqlet.Common.{
  ℕ, ◌+◌, String, Bool, true, false, not, ◌&&◌, Option, none, some, List, [], ◌∷◌, ◌++◌, map,
  if◌then◌else◌, leb, nat_eq, truthy, any,
}
use Prim.Native.Char.{code}
use Prim.Native.Nat.{◌+◌}
use reqlet.Types.Request.{KeyValuePair, FormDataItem, RequestSettings, Proxy}
use reqlet.Types.Response.{VariableMutations}
use reqlet.Types.Tab.{Tab}
use reqlet.Scope.Template.{apply_variables}
use reqlet.Scope.Merge.{VariableScope}
use reqlet.Ui.Settings.{AppSettings}
use reqlet.Backend.Types.{SendRequest, Header, FormPart}

-- `s.toLowerCase() === t` for a lower-case ASCII text t without i and k: no other letter becomes one
-- of its letters.
abbrev pub lower_code : ℕ → ℕ
lower_code n = if leb b'A' n && leb n b'Z' then n + 32 else n

abbrev pub is_lower : String → String → Bool
is_lower String.[] String.[] = true
is_lower String.[] (String.◌∷◌ d t) = false
is_lower (String.◌∷◌ c s) String.[] = false
is_lower (String.◌∷◌ c s) (String.◌∷◌ d t) = nat_eq (lower_code (code c)) (code d) && is_lower s t

abbrev pub sent_pair : (String → String) → KeyValuePair → Header
sent_pair resolve h = record { key = h.key; value = resolve h.value; enabled = h.enabled }

abbrev pub sent_part : (String → String) → FormDataItem → FormPart
sent_part resolve h = record {
  key = h.key;
  value = resolve h.value;
  enabled = h.enabled;
  value_type = some h.value_type;
  file_name = h.file_name;
  file_content = h.file_content;
}

abbrev pub is_cache_control : Header → Bool
is_cache_control h = h.enabled && is_lower h.key "cache-control"

abbrev pub no_cache : Header
no_cache = record { key = "Cache-Control"; value = "no-cache"; enabled = true }

unfoldable pub sent_headers : (String → String) → Bool → List KeyValuePair → List Header
sent_headers resolve no_cache_header headers =
    let mapped = map (sent_pair resolve) headers in
    if no_cache_header && not (any is_cache_control mapped)
    then mapped ++ (no_cache ∷ [])
    else mapped

-- `s || undefined`, for a text
abbrev pub non_empty : String → Option String
non_empty s = if truthy s then some s else none

-- The same for a text that may be missing.
abbrev pub some_non_empty : Option String → Option String
some_non_empty none = none
some_non_empty (some s) = non_empty s

-- `s ? resolveStr(s) : undefined`
abbrev pub resolved_non_empty : (String → String) → String → Option String
resolved_non_empty resolve s = if truthy s then some (resolve s) else none

-- `settings?.x ?? fallback`
abbrev pub setting {ℓ} : {A : Type ℓ} → Option RequestSettings → (RequestSettings → A) → A → A
setting none get fallback = fallback
setting (some settings) get fallback = get settings

-- `settings?.x`
abbrev pub setting? {ℓ} : {A : Type ℓ} → Option RequestSettings → (RequestSettings → A) → Option A
setting? none get = none
setting? (some settings) get = some (get settings)

-- `settings?.proxy.enabled ? get(settings.proxy) : undefined`
abbrev pub proxy_field : Option RequestSettings → (Proxy → Option String) → Option String
proxy_field none get = none
proxy_field (some settings) get = if settings.proxy.enabled then get settings.proxy else none

abbrev pub scope_variables : VariableScope → VariableMutations
scope_variables scope = record {
  globals = some scope.globals;
  environment = some scope.environment;
  collection_variables = some scope.collection_variables;
}

unfoldable pub send_request_of : AppSettings → VariableScope → Tab → SendRequest
unfolding apply_variables sent_headers
send_request_of defaults scope tab =
    let resolve = λ (s : String). apply_variables s scope.resolved_map in
    let request = tab.request in
    record {
      method = request.method;
      url = resolve request.url;
      headers = sent_headers resolve defaults.no_cache_header request.headers;
      body_type = request.body.type;
      body_raw = resolve request.body.raw;
      body_raw_content_type = request.body.raw_content_type;
      body_form_data = map (sent_part resolve) request.body.form_data;
      body_urlencoded = map (sent_pair resolve) request.body.urlencoded;
      body_graphql_query = resolved_non_empty resolve request.body.graphql_query;
      body_graphql_variables = resolved_non_empty resolve request.body.graphql_variables;
      body_binary_content = some_non_empty request.body.binary_file_content;
      body_binary_name = some_non_empty request.body.binary_file_name;
      auth = some request.auth;
      follow_redirects =
          setting request.settings (λ s. s.follow_redirects) defaults.follow_redirects_default;
      max_redirects = setting? request.settings (λ s. s.max_redirects);
      follow_original_method = setting? request.settings (λ s. s.follow_original_method);
      follow_auth_header = setting? request.settings (λ s. s.follow_auth_header);
      remove_referer = setting? request.settings (λ s. s.remove_referer);
      ssl_verification = setting request.settings (λ s. s.ssl_verify) true;
      timeout = setting request.settings (λ s. s.timeout) defaults.timeout_default;
      http_version = setting? request.settings (λ s. s.http_version);
      ignore_proxy = false;
      request_proxy_url = proxy_field request.settings (λ p. non_empty p.url);
      request_proxy_username = proxy_field request.settings (λ p. some p.username);
      request_proxy_password = proxy_field request.settings (λ p. some p.password);
      pre_request_script = non_empty request.pre_request_script;
      test_script = non_empty request.test_script;
      variables = some (scope_variables scope);
      request_name = some tab.title;
      request_id = tab.request_id;
    }
