-- ===== src/Fields/InSync.antt =====
-- gui/web/src/components/layout/request-pane.tsx: the URL and the parameters follow each other.
use reqlet.Common.{
  ℕ, suc, ◌≡◌, refl, sym, ap, ◌∙◌, ◌⊎◌, ◌↔◌, inl, inr, String, true, Option, none, some, List, [],
  ◌∷◌, ◌++◌, map, arith, filter, All,
}
use reqlet.Fields.{
  params, headers, given_query, params_of_query, has_query, make_kv, delete_pair, change_pair,
  is_question, KeyValuePair, after, PairField, Cell, kv_change, kv_delete, kv_add, url_change,
  method_change, path_variable_change,
}
use reqlet.Query.{
  read_pairs, read_pair, read_query, split, is_amp, non_empty, parse_query_params, is_sent,
}
use reqlet.Query.Roundtrip.{IsPlain, parse_query_params-build_url_with_params, parts}
use reqlet.Types.Request.{RequestState, HttpMethod}
use reqlet.Fields.Body.{BodyEdit, body_change}

-- The query of the URL is read as the parameters that are enabled and have a key.
abbrev pub InSync : RequestState → Type 0
InSync r =
    (uuid : ℕ → String)
    → map parts (parse_query_params uuid r.url) ≡ map parts (filter is_sent r.params)

pub data Edit : Type 0 where
  changes : PairField → String → Cell → Edit
  deletes : PairField → String → Edit
  adds : PairField → String → Edit
  types_url : (ℕ → String) → String → Edit
  picks_method : HttpMethod → Edit
  changes_path_variable : String → String → Edit
  changes_body : BodyEdit → Edit

abbrev pub edit : RequestState → Edit → RequestState
edit r (changes field id cell) = kv_change field id cell r
edit r (deletes field id) = kv_delete field id r
edit r (adds field uuid) = kv_add field uuid r
edit r (types_url uuid url) = url_change uuid url r
edit r (picks_method method) = method_change method r
edit r (changes_path_variable id value) = path_variable_change id value r
edit r (changes_body e) = body_change e r

abbrev pub edit_all : RequestState → List Edit → RequestState
edit_all r [] = r
edit_all r (e ∷ es) = edit_all (edit r e) es

-- The premises of an edit: no "&" or "=" in a key and no "&" in a value of the parameters; in a
-- typed URL no parameter without a key, and a query if parameters are sent.
abbrev pub Fits : RequestState → Edit → Type 0
Fits r (changes params id cell) = All IsPlain (change_pair id cell r.params)
Fits r (changes headers id cell) = Unit
Fits r (deletes params id) = All IsPlain (delete_pair id r.params)
Fits r (deletes headers id) = Unit
Fits r (adds field uuid) = Unit
Fits r (types_url uuid url) =
    (filter is_sent (parse_query_params uuid url) ≡ parse_query_params uuid url)
    × ((has_query url ≡ true) ⊎ (filter is_sent r.params ≡ []))
Fits r (picks_method method) = Unit
Fits r (changes_path_variable id value) = Unit
Fits r (changes_body e) = Unit

abbrev pub FitsAll : RequestState → List Edit → Type 0
FitsAll r [] = Unit
FitsAll r (e ∷ es) = Fits r e × FitsAll (edit r e) es

filter-add :
    (pairs : List KeyValuePair) (uuid : String)
    → filter is_sent (pairs ++ (make_kv uuid ∷ [])) ≡ filter is_sent pairs
filter-add [] uuid = refl
filter-add (p ∷ ps) uuid = ground (arith, filter-add ps uuid)

parts-read_pairs :
    (u v : ℕ → String) (n : ℕ) (ps : List String)
    → map parts (read_pairs u n ps) ≡ map parts (read_pairs v n ps)
parts-read_pairs u v n [] = refl
parts-read_pairs u v n (p ∷ ps) =
    ap (λ l. parts (read_pair "" p) ∷ l) (parts-read_pairs u v (suc n) ps)

-- The ids do not matter to what is read.
parts-read_query :
    (u v : ℕ → String) (q : Option String) → map parts (read_query u q) ≡ map parts (read_query v q)
parts-read_query u v none = refl
parts-read_query u v (some qs) = parts-read_pairs u v 0 (filter non_empty (split is_amp qs))

-- The parameters after a typed URL, by what stands after its question mark.
kept_params :
    (uuid : ℕ → String) (old : List KeyValuePair) (q : Option String)
    → filter is_sent (read_query uuid q) ≡ read_query uuid q
    → ((given_query q ≡ true) ⊎ (filter is_sent old ≡ []))
    → read_query uuid q ≡ filter is_sent (params_of_query (given_query q) (read_query uuid q) old)
kept_params uuid old none e (inl h) = cc
kept_params uuid old none e (inr h) = sym h
kept_params uuid old (some qs) e c = ground arith

InSync-url_change :
    (uuid : ℕ → String) (url : String) (r : RequestState)
    → Fits r (types_url uuid url)
    → InSync (url_change uuid url r)
unfolding url_change parse_query_params
InSync-url_change uuid url r (named, complete) u =
    parts-read_query u uuid (after is_question url)
    ∙ ap (map parts) (kept_params uuid r.params (after is_question url) named complete)

InSync-edit : (r : RequestState) (e : Edit) → InSync r → Fits r e → InSync (edit r e)
unfolding kv_change kv_delete kv_add method_change path_variable_change body_change
InSync-edit r (changes params id cell) s fits u =
    parse_query_params-build_url_with_params u r.url (change_pair id cell r.params) fits
InSync-edit r (changes headers id cell) s fits u = s u
InSync-edit r (deletes params id) s fits u =
    parse_query_params-build_url_with_params u r.url (delete_pair id r.params) fits
InSync-edit r (deletes headers id) s fits u = s u
InSync-edit r (adds params uuid) s fits u = s u ∙ ap (map parts) (sym (filter-add r.params uuid))
InSync-edit r (adds headers uuid) s fits u = s u
InSync-edit r (types_url uuid url) s fits u = InSync-url_change uuid url r fits u
InSync-edit r (picks_method method) s fits u = s u
InSync-edit r (changes_path_variable id value) s fits u = s u
InSync-edit r (changes_body e) s fits u = s u

InSync-edit_all :
    (r : RequestState) (es : List Edit) → InSync r → FitsAll r es → InSync (edit_all r es)
InSync-edit_all r [] s fits = s
InSync-edit_all r (e ∷ es) s (fits, rest) =
    InSync-edit_all (edit r e) es (InSync-edit r e s fits) rest

none_of_map : (pairs : List KeyValuePair) → [] ≡ map parts pairs → pairs ≡ []
none_of_map [] e = refl
none_of_map (p ∷ ps) e = absurd (ground (arith, e))

left_behind :
    (uuid : ℕ → String) (old : List KeyValuePair) (q : Option String)
    → map parts (read_query uuid q)
      ≡ map parts (filter is_sent (params_of_query (given_query q) (read_query uuid q) old))
    → (given_query q ≡ true) ⊎ (filter is_sent old ≡ [])
left_behind uuid old none e = inr (none_of_map (filter is_sent old) e)
left_behind uuid old (some qs) e = inl refl

-- The URL and the parameters of a request agree when the URL's query is read as the enabled
-- parameters with a key. From such a request any edits of cells of parameters and headers,
-- deletions, additions, typed URLs, and changes of the method, of a path variable and of the body
-- lead to such a request if, after each change or deletion of a parameter, no parameter has "&" or
-- "=" in its key or "&" in its value, and if each typed URL has no parameter without a key, and has
-- a "?" unless the request has no enabled parameter with a key at that time. The last condition is
-- exact: after another typed URL without a parameter that lacks a key, the two agree if and only if
-- it has a "?" or the request has no enabled parameter with a key. So a URL typed without "?" while
-- there is one leaves the two out of step.
pub edit_all-InSync :
    (r : RequestState) (es : List Edit) (uuid : ℕ → String) (url : String)
    → InSync r
    → FitsAll r es
    → filter is_sent (parse_query_params uuid url) ≡ parse_query_params uuid url
    → InSync (edit_all r es)
      × (InSync (url_change uuid url (edit_all r es))
          ↔ ((has_query url ≡ true) ⊎ (filter is_sent (edit_all r es).params ≡ [])))
unfolding url_change parse_query_params
edit_all-InSync r es uuid url s fits named = (
  InSync-edit_all r es s fits,
  (
    λ agrees. left_behind uuid (edit_all r es).params (after is_question url) (agrees uuid),
    λ given. InSync-url_change uuid url (edit_all r es) (named, given),
  ),
)
