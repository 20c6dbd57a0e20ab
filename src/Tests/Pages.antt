-- ===== src/Tests/Pages.antt =====
-- Orphan tabs, search and snippets: runs of gui/web/src/components/layout/app-layout.tsx,
-- components/search-modal.tsx and components/code-gen-dialog.tsx.
use reqlet.Common.{
  ℕ, ◌≡◌, refl, String, Bool, true, false, not, none, some, List, [], ◌∷◌, string_dec, filter,
}
use reqlet.Common.Dict.{lookup}
use reqlet.Types.Tab.{Tab}
use reqlet.Types.Request.{KeyValuePair, RequestState, default_request}
use reqlet.Tabs.State.{TabsState, new_request_tab}
use reqlet.Tabs.Valid.{Valid}
use reqlet.Orphans.{is_orphan, orphan_tab_cleanup}
use reqlet.Orphans.Laws.{orphan_tab_cleanup_lem}
use reqlet.CodeGen.{quoted, gen_curl, gen_js}
use reqlet.CodeGen.Scripts.{gen_python}
use reqlet.Types.Run.{RunEvent, RunEventType}
use reqlet.Rows.{add_events}
use reqlet.Rows.Laws.{cell_of, last_result, cell_of-lookup-add_events}
use reqlet.CodeGen.Quoting.{shell_word, outside, shell_word-quoted}
use reqlet.Tests.Data.{demo, three_tabs}
use reqlet.Tests.Unique.{three_tabs-Valid}

abbrev gone_tab : Tab
gone_tab = record (new_request_tab "t-4") { collection_id = some "c1"; request_id = some "r9" }

gone_is_orphan : is_orphan demo.collections gone_tab ≡ true
unfolding is_orphan string_dec
gone_is_orphan = refl

orphan_tab_cleanup_lem_example :
    (t : TabsState) × (orphan_tab_cleanup demo.collections three_tabs ≡ some t)
    × Valid t
    × (t.tabs ≡ filter (λ x. not (is_orphan demo.collections x)) three_tabs.tabs)
orphan_tab_cleanup_lem_example = orphan_tab_cleanup_lem demo.collections three_tabs three_tabs-Valid

shell_word-quoted_example : shell_word outside (quoted "it's") ≡ some "it's"
shell_word-quoted_example = shell_word-quoted "it's"

abbrev one_header : KeyValuePair
one_header = record { id = "h1"; enabled = true; key = "Accept"; value = "*/*"; description = "" }

abbrev with_header : RequestState
with_header = record default_request { url = "http://h"; headers = one_header ∷ [] }

-- Each line of the options ends with a comma, the opening brace of the headers too.
js_with_header :
    gen_js (λ s. some s) with_header
    ≡ some
        "const response = await fetch('http://h', {\n  method: 'GET',\n  headers: {,\n    'Accept': '*/*',,\n  },\n});\n\nconst data = await response.text();\nconsole.log(data);"
unfolding gen_js string_dec
js_with_header = refl

curl_with_header :
    gen_curl (λ s. some s) with_header ≡ some "curl -X GET 'http://h' \\\n  -H 'Accept: */*'"
unfolding gen_curl string_dec
curl_with_header = refl

python_with_header :
    gen_python (λ s. some s) with_header
    ≡ some
        "import requests\n\nurl = \"http://h\"\nheaders = {\n    \"Accept\": \"*/*\",\n}\n\nresponse = requests.get(url, headers=headers)\nprint(response.status_code)\nprint(response.text)"
unfolding gen_python string_dec
python_with_header = refl

abbrev run_event : String → ℕ → Bool → RunEvent
run_event name iteration passed = record {
  type = RunEventType.request;
  total = none;
  iterations = none;
  iteration = some iteration;
  index = none;
  name = some name;
  method = none;
  url = none;
  status = some 200;
  duration_ms = some 5;
  tests = none;
  passed = passed;
  skipped = none;
  error = none;
  summary = none;
}

abbrev three_events : List RunEvent
three_events =
    run_event "Login" 0 true ∷ (run_event "Login" 1 false ∷ (run_event "Logout" 0 true ∷ []))

cell_of-lookup-add_events_example :
    cell_of 1 (lookup "GET::Login" (add_events three_events []))
    ≡ last_result "GET::Login" 1 three_events
cell_of-lookup-add_events_example = cell_of-lookup-add_events "GET::Login" 1 three_events
