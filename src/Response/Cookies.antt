-- ===== src/Response/Cookies.antt =====
-- gui/web/src/components/layout/response-pane.tsx, `parseCookies`: the cookies of a response. A lower
-- case name is compared as `toLowerCase` makes it; no letter outside ASCII becomes one of the names.
use reqlet.Common.{
  String, Bool, true, false, Option, none, some, List, map, if◌then◌else◌, nat_eq, or_else, filter,
}
use reqlet.Common.Dict.{Dict, lookup}
use Prim.Native.Char.{Char, code}
use reqlet.Common.Trim.{trim}
use reqlet.Query.{is_equals, before, after, split, non_empty}
use reqlet.Send.Request.{is_lower}

-- `string | boolean`
pub data Attribute : Type 0 where
  text : String → Attribute
  flag : Attribute

pub record Cookie : Type 0 where
  pub name : String
  pub value : String
  pub domain : Attribute
  pub path : Attribute
  pub expires : Attribute
  pub http_only : Bool
  pub secure : Bool

abbrev is_newline : Char → Bool
is_newline c = nat_eq (code c) 10

abbrev is_semicolon : Char → Bool
is_semicolon c = nat_eq (code c) b';'

-- The value of an attribute, or `true` where it has none.
abbrev pub attribute_value : String → Attribute
attribute_value a = elim (after is_equals a) [ none ↦ flag | some v ↦ text v ]

-- `attrMap[key]`: the last attribute of the name.
unfoldable pub attribute : String → List String → Option Attribute
unfolding before after
attribute key List.[] = none
attribute key (List.◌∷◌ a attrs) =
    or_else (attribute key attrs)
      (if is_lower (before is_equals a) key then some (attribute_value a) else none)

abbrev pub attribute_or : String → Option Attribute → Attribute
attribute_or fallback none = text fallback
attribute_or fallback (some a) = a

abbrev pub is_given : Option Attribute → Bool
is_given none = false
is_given (some a) = true

abbrev pub trimmed_value : Option String → String
trimmed_value none = ""
trimmed_value (some v) = trim v

-- A name is what stands before "=", or the whole text.
abbrev pub cookie_name : String → String
cookie_name name_val = elim (after is_equals name_val) [
  | none ↦ name_val
  | some v ↦ trim (before is_equals name_val)
]

unfoldable pub cookie_of : List String → Cookie
unfolding attribute before after trim
cookie_of List.[] = record {
  name = "";
  value = "";
  domain = text "";
  path = text "/";
  expires = text "";
  http_only = false;
  secure = false;
}
cookie_of (List.◌∷◌ name_val attrs) = record {
  name = cookie_name name_val;
  value = trimmed_value (after is_equals name_val);
  domain = attribute_or "" (attribute "domain" attrs);
  path = attribute_or "/" (attribute "path" attrs);
  expires = attribute_or "" (attribute "expires" attrs);
  http_only = is_given (attribute "httponly" attrs);
  secure = is_given (attribute "secure" attrs);
}

-- `headers["set-cookie"] ?? headers["Set-Cookie"] ?? ""`
abbrev pub raw_cookies : Dict String → String
raw_cookies headers = elim (or_else (lookup "set-cookie" headers) (lookup "Set-Cookie" headers)) [
  | none ↦ ""
  | some raw ↦ raw
]

unfoldable pub parse_cookies : Dict String → List Cookie
unfolding cookie_of split trim
parse_cookies headers =
    map (λ line. cookie_of (map trim (split is_semicolon line)))
      (filter non_empty (split is_newline (raw_cookies headers)))
