-- ===== src/Fields.antt =====
-- gui/web/src/components/layout/request-pane.tsx: the handlers of the fields of a request. Those of
-- the parameters, of the headers and of the URL, with the parameters and the URL that follow each
-- other, and those of the path variables.
pub mod Body
pub mod FormRow
pub mod InSync
pub mod PathVariables
pub mod PathRows
use reqlet.Common.{
  ℕ, ◌+◌, String, Bool, true, false, not, ◌||◌, Option, none, some, List, [], ◌∷◌, ◌++◌, map,
  if◌then◌else◌, ◌==◌, truthy, filter, any,
}
use reqlet.Types.Request.{KeyValuePair, RequestState, HttpMethod}
use reqlet.Tabs.State.{TabsState}
use reqlet.Tabs.Actions.{update_tab, update_tab_request}
use reqlet.Query.{is_question, after, parse_query_params, build_url_with_params}
use reqlet.Send.{empty_patch}

-- `makeKV()`
abbrev pub make_kv : String → KeyValuePair
make_kv uuid = record { id = uuid; enabled = true; key = ""; value = ""; description = "" }

-- `[key]: value` of a change of one cell.
pub data Cell : Type 0 where
  id : String → Cell
  enabled : Bool → Cell
  key : String → Cell
  value : String → Cell
  description : String → Cell

abbrev pub set_cell : Cell → KeyValuePair → KeyValuePair
set_cell (id v) kv = record kv { id = v }
set_cell (enabled v) kv = record kv { enabled = v }
set_cell (key v) kv = record kv { key = v }
set_cell (value v) kv = record kv { value = v }
set_cell (description v) kv = record kv { description = v }

abbrev pub change_pair : String → Cell → List KeyValuePair → List KeyValuePair
change_pair pair_id cell = map (λ kv. if kv.id == pair_id then set_cell cell kv else kv)

abbrev pub delete_pair : String → List KeyValuePair → List KeyValuePair
delete_pair pair_id = filter (λ kv. not (kv.id == pair_id))

pub data PairField : Type 0 where
  params headers : PairField

-- What the handlers do with the new pairs of a field.
abbrev pub with_params : RequestState → List KeyValuePair → RequestState
with_params r pairs = record r { params = pairs; url = build_url_with_params r.url pairs }

unfoldable pub kv_change : PairField → String → Cell → RequestState → RequestState
unfolding build_url_with_params
kv_change params pair_id cell r = with_params r (change_pair pair_id cell r.params)
kv_change headers pair_id cell r = record r { headers = change_pair pair_id cell r.headers }

unfoldable pub kv_delete : PairField → String → RequestState → RequestState
unfolding build_url_with_params
kv_delete params pair_id r = with_params r (delete_pair pair_id r.params)
kv_delete headers pair_id r = record r { headers = delete_pair pair_id r.headers }

unfoldable pub kv_add : PairField → String → RequestState → RequestState
kv_add params uuid r = record r { params = r.params ++ (make_kv uuid ∷ []) }
kv_add headers uuid r = record r { headers = r.headers ++ (make_kv uuid ∷ []) }

-- `newUrl.includes("?")`, from what stands after the question mark
abbrev pub given_query : Option String → Bool
given_query none = false
given_query (some q) = true

abbrev pub has_query : String → Bool
has_query url = given_query (after is_question url)

-- `parsed.length > 0 ? parsed : newUrl.includes("?") ? [] : r.params`
abbrev pub params_of_query : Bool → List KeyValuePair → List KeyValuePair → List KeyValuePair
params_of_query includes [] old = if includes then [] else old
params_of_query includes (p ∷ parsed) old = p ∷ parsed

unfoldable pub url_change : (ℕ → String) → String → RequestState → RequestState
unfolding after parse_query_params
url_change uuid url r = record r {
  url = url;
  params = params_of_query (has_query url) (parse_query_params uuid url) r.params;
}

abbrev title_of_url : String → String
title_of_url url = if truthy url then url else "New Request"

-- The handler of the URL bar.
unfoldable pub change_url : (ℕ → String) → String → TabsState → TabsState
unfolding update_tab update_tab_request url_change
change_url uuid url s =
    let titled =
      update_tab s s.active_tab_id
        (record empty_patch { title = some (title_of_url url); dirty = some true }) in
    update_tab_request titled s.active_tab_id (url_change uuid url)

unfoldable pub method_change : HttpMethod → RequestState → RequestState
method_change method r = record r { method = method }

abbrev pub is_path_variable : String → KeyValuePair → Bool
is_path_variable pair_id p = (p.id == pair_id) || (p.key == pair_id)

abbrev pub stored_variables : Option (List KeyValuePair) → List KeyValuePair
stored_variables none = []
stored_variables (some pairs) = pairs

abbrev pub set_path_variable : String → String → List KeyValuePair → List KeyValuePair
set_path_variable pair_id new existing =
    if any (is_path_variable pair_id) existing
    then map (λ p. if is_path_variable pair_id p then record p { value = new } else p) existing
    else existing
      ++ (record { id = pair_id; enabled = true; key = pair_id; value = new; description = "" }
          ∷ [])

-- The handler of a path variable's value.
unfoldable pub path_variable_change : String → String → RequestState → RequestState
path_variable_change pair_id new r = record r {
  path_variables = some (set_path_variable pair_id new (stored_variables r.path_variables));
}
