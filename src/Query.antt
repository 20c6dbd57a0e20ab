-- ===== src/Query.antt =====
-- gui/web/src/components/layout/request-pane.tsx: the parameters in a URL (`parseQueryParams`,
-- `buildUrlWithParams`). Texts are read by code points, where `indexOf`, `slice` and `split` agree
-- on these separators with UTF-16 units.
pub mod Roundtrip
use Prim.Native.Char.{Char, code}
use Prim.Native.String.{[], ◌∷◌}
use mathlib.Core.List
use reqlet.Common.{
  ℕ, suc, String, ◌<>◌, Bool, true, false, ◌&&◌, nat_eq, Option, none, some, List, filter,
  if◌then◌else◌,
}
use reqlet.Types.Request.{KeyValuePair}

abbrev pub is_question : Char → Bool
is_question c = nat_eq (code c) b'?'

abbrev pub is_amp : Char → Bool
is_amp c = nat_eq (code c) b'&'

abbrev pub is_equals : Char → Bool
is_equals c = nat_eq (code c) b'='

-- `s.slice(0, s.indexOf(c))`, or the whole text if c does not occur
unfoldable pub before : (Char → Bool) → String → String
before is [] = ""
before is (c ∷ s) = let rest = before is s in if is c then "" else c ∷ rest

-- `s.slice(s.indexOf(c) + 1)`, if c occurs
unfoldable pub after : (Char → Bool) → String → Option String
after is [] = none
after is (c ∷ s) = let rest = after is s in if is c then some s else rest

abbrev pub push_char : Char → List String → List String
push_char c List.[] = List.◌∷◌ (c ∷ []) List.[]
push_char c (List.◌∷◌ p ps) = List.◌∷◌ (c ∷ p) ps

-- `s.split(c)`
unfoldable pub split : (Char → Bool) → String → List String
split is [] = List.◌∷◌ "" List.[]
split is (c ∷ s) = let rest = split is s in if is c then List.◌∷◌ "" rest else push_char c rest

abbrev pub non_empty : String → Bool
non_empty [] = false
non_empty (c ∷ s) = true

abbrev pub or_empty : Option String → String
or_empty none = ""
or_empty (some s) = s

abbrev pub read_pair : String → String → KeyValuePair
read_pair id pair = record {
  id = id;
  enabled = true;
  key = before is_equals pair;
  value = or_empty (after is_equals pair);
  description = "";
}

abbrev pub read_pairs : (ℕ → String) → ℕ → List String → List KeyValuePair
read_pairs uuid n List.[] = List.[]
read_pairs uuid n (List.◌∷◌ pair ps) =
    List.◌∷◌ (read_pair (uuid n) pair) (read_pairs uuid (suc n) ps)

abbrev pub read_query : (ℕ → String) → Option String → List KeyValuePair
read_query uuid none = List.[]
read_query uuid (some qs) = read_pairs uuid 0 (filter non_empty (split is_amp qs))

unfoldable pub parse_query_params : (ℕ → String) → String → List KeyValuePair
unfolding before after split
parse_query_params uuid url = read_query uuid (after is_question url)

abbrev pub is_sent : KeyValuePair → Bool
is_sent p = p.enabled && non_empty p.key

abbrev pub pair_text : KeyValuePair → String
pair_text p = p.key <> ("=" <> p.value)

-- `enabled.map(…).join("&")` of a list that begins with p
abbrev pub join_pairs : KeyValuePair → List KeyValuePair → String
join_pairs p List.[] = pair_text p
join_pairs p (List.◌∷◌ q ps) = pair_text p <> ("&" <> join_pairs q ps)

abbrev pub with_query : String → List KeyValuePair → String
with_query base List.[] = base
with_query base (List.◌∷◌ p ps) = base <> ("?" <> join_pairs p ps)

unfoldable pub build_url_with_params : String → List KeyValuePair → String
unfolding before
build_url_with_params url params = with_query (before is_question url) (filter is_sent params)
