-- ===== src/CodeGen.antt =====
-- gui/web/src/components/code-gen-dialog.tsx: the snippets that a request is shown as. `btoa` of the browser is a parameter: `none` is its error for a text with a
-- character past Latin-1, which ends the generator.
pub mod Quoting
pub mod Scripts
use reqlet.Common.{
  ◌+◌, ◌-◌, ◌<◌, String, ◌<>◌, Bool, Option, none, some, List, [], ◌∷◌, ◌++◌, map, if◌then◌else◌,
  nat_eq, truthy, filter,
}
use Prim.Native.Char.{Char, code}
use Prim.Native.String as Text
use mathlib.Core.Option
use reqlet.Types.Auth.{AuthType, AuthConfig, AddTo}
use reqlet.Types.Request.{HttpMethod, BodyType, RawContentType, KeyValuePair, RequestState}
use reqlet.Query.{before, is_question, is_sent, join_pairs, with_query}

unfoldable pub build_final_url : String → List KeyValuePair → String
unfolding before
build_final_url url params = elim (filter is_sent params) [
  | [] ↦ url
  | p ∷ ps ↦ with_query (before is_question url) (p ∷ ps)
]

abbrev pub method_text : HttpMethod → String
method_text HttpMethod.get = "GET"
method_text HttpMethod.post = "POST"
method_text HttpMethod.put = "PUT"
method_text HttpMethod.patch = "PATCH"
method_text HttpMethod.delete = "DELETE"
method_text HttpMethod.options = "OPTIONS"
method_text HttpMethod.head = "HEAD"

abbrev pub content_type_text : RawContentType → String
content_type_text RawContentType.application_json = "application/json"
content_type_text RawContentType.application_xml = "application/xml"
content_type_text RawContentType.text_plain = "text/plain"
content_type_text RawContentType.text_html = "text/html"
content_type_text RawContentType.application_javascript = "application/javascript"

abbrev pub Headers : Type 0
Headers = List (String × String)

abbrev pub bearer_entries : AuthConfig → Headers
bearer_entries auth = elim auth.bearer [
  | none ↦ []
  | some b ↦ if truthy b.token then ("Authorization", "Bearer " <> b.token) ∷ [] else []
]

abbrev pub basic_entries : (String → Option String) → AuthConfig → Option Headers
basic_entries btoa auth = elim auth.basic [
  | none ↦ some []
  | some b ↦
      Option.map (λ coded. ("Authorization", "Basic " <> coded) ∷ [])
        (btoa (b.username <> (":" <> b.password)))
]

abbrev pub api_key_entries : AuthConfig → Headers
api_key_entries auth = elim auth.api_key [
  | none ↦ []
  | some k ↦ elim k.add_to [ AddTo.header ↦ (k.key, k.value) ∷ [] | AddTo.query ↦ [] ]
]

abbrev pub get_auth_entries : (String → Option String) → AuthConfig → Option Headers
get_auth_entries btoa auth = elim auth.type [
  | AuthType.bearer ↦ some (bearer_entries auth)
  | AuthType.basic ↦ basic_entries btoa auth
  | AuthType.api_key ↦ some (api_key_entries auth)
  | _ ↦ some []
]

abbrev pub base_headers : List KeyValuePair → Headers
base_headers hs = map (λ h. (h.key, h.value)) (filter is_sent hs)

unfoldable pub all_headers : (String → Option String) → RequestState → Option Headers
all_headers btoa req =
    Option.map (λ entries. base_headers req.headers ++ entries) (get_auth_entries btoa req.auth)

abbrev pub join_sent : List KeyValuePair → String
join_sent [] = ""
join_sent (p ∷ ps) = join_pairs p ps

unfoldable pub body_string : RequestState → String
body_string req = elim req.body.type [
  | BodyType.raw ↦ req.body.raw
  | BodyType.x_www_form_urlencoded ↦ join_sent (filter is_sent req.body.urlencoded)
  | _ ↦ ""
]

abbrev pub is_quote : Char → Bool
is_quote c = nat_eq (code c) b'\''

-- `body.replace(/'/g, "'\\''")`
unfoldable pub escape_quotes : String → String
escape_quotes Text.[] = ""
escape_quotes (Text.◌∷◌ c s) =
    let rest = escape_quotes s in
    if is_quote c
    then Text.◌∷◌ "'" (Text.◌∷◌ "\\" (Text.◌∷◌ "'" (Text.◌∷◌ "'" rest)))
    else Text.◌∷◌ c rest

abbrev pub quoted : String → String
quoted body = "'" <> (escape_quotes body <> "'")

-- `lines.join(separator)` of lines that begin with l
abbrev pub join_lines : String → String → List String → String
join_lines separator l [] = l
join_lines separator l (m ∷ ls) = l <> (separator <> join_lines separator m ls)

abbrev pub curl_header : String × String → String
curl_header (k, v) = "  -H '" <> (k <> (": " <> (v <> "'")))

abbrev pub curl_content_type : RequestState → List String
curl_content_type req = elim req.body.type [
  | BodyType.raw ↦
      ("  -H 'Content-Type: " <> (content_type_text req.body.raw_content_type <> "'")) ∷ []
  | _ ↦ []
]

abbrev pub curl_body : String → List String
curl_body body = if truthy body then ("  -d " <> quoted body) ∷ [] else []

unfoldable pub gen_curl : (String → Option String) → RequestState → Option String
unfolding build_final_url all_headers body_string escape_quotes
gen_curl btoa req =
    Option.map
      (λ headers.
        join_lines " \\\n"
          ("curl -X "
            <> (method_text req.method <> (" '" <> (build_final_url req.url req.params <> "'"))))
          (map curl_header headers ++ (curl_content_type req ++ curl_body (body_string req))))
      (all_headers btoa req)

abbrev pub raw_content_type_header : RequestState → Headers
raw_content_type_header req = elim req.body.type [
  | BodyType.raw ↦ ("Content-Type", content_type_text req.body.raw_content_type) ∷ []
  | _ ↦ []
]

abbrev pub js_header : String × String → String
js_header (k, v) = "    '" <> (k <> ("': '" <> (v <> "',")))

abbrev pub js_headers : Headers → List String
js_headers [] = []
js_headers (h ∷ hs) = "  headers: {" ∷ (map js_header (h ∷ hs) ++ ("  }" ∷ []))

-- `body.replace` of each backtick by an escaped one
unfoldable pub escape_backticks : String → String
escape_backticks Text.[] = ""
escape_backticks (Text.◌∷◌ c s) =
    let rest = escape_backticks s in
    if nat_eq (code c) b'`' then Text.◌∷◌ "\\" (Text.◌∷◌ "`" rest) else Text.◌∷◌ c rest

abbrev pub js_body : String → List String
js_body body = if truthy body then ("  body: `" <> (escape_backticks body <> "`")) ∷ [] else []

-- The options of the call, a line each.
abbrev pub js_options : RequestState → Headers → List String
js_options req headers =
    ("  method: '" <> (method_text req.method <> "'"))
    ∷ (js_headers (headers ++ raw_content_type_header req) ++ js_body (body_string req))

unfoldable pub gen_js : (String → Option String) → RequestState → Option String
unfolding build_final_url all_headers body_string escape_backticks
gen_js btoa req =
    Option.map
      (λ headers.
        join_lines "\n"
          ("const response = await fetch('" <> (build_final_url req.url req.params <> "', {"))
          (map (λ l. l <> ",") (js_options req headers)
            ++ ("});"
                ∷ ("" ∷ ("const data = await response.text();" ∷ ("console.log(data);" ∷ []))))))
      (all_headers btoa req)
