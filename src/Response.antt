-- ===== src/Response.antt =====
-- gui/web/src/components/layout/response-pane.tsx: what the pane reads of a response.
pub mod Cookies
use reqlet.Common.{
  ℕ, ◌<◌, String, ◌<>◌, Bool, ◌||◌, Option, none, some, List, [], ◌∷◌, if◌then◌else◌, truthy,
  length, filter,
}
use Prim.Native.String.{[], ◌∷◌}
use reqlet.Completion.{starts_with}
use reqlet.Types.Response.{ResponseData, TestResult}
use reqlet.Types.Tab.{Tab}

-- `s.includes(t)`
unfoldable pub includes : String → String → Bool
unfolding starts_with
includes t [] = starts_with t []
includes t (c ∷ s) = starts_with t (c ∷ s) || includes t s

unfoldable pub guess_language : String → String
unfolding includes
guess_language content_type =
    if includes "json" content_type
    then "json"
    else if includes "xml" content_type
    then "xml"
    else if includes "html" content_type
    then "html"
    else if includes "javascript" content_type
    then "javascript"
    else if includes "css" content_type
    then "css"
    else "plaintext"

-- The name of the file of `downloadBody`.
unfoldable pub download_name : String → String
unfolding includes
download_name content_type =
    "response"
    <> (if includes "json" content_type
        then ".json"
        else if includes "xml" content_type
        then ".xml"
        else if includes "html" content_type
        then ".html"
        else if includes "css" content_type
        then ".css"
        else if includes "javascript" content_type
        then ".js"
        else ".txt")

-- What the pane shows of the active tab.
pub data Shown : Type 0 where
  loading : Shown
  empty : Shown
  response : ResponseData → Shown

abbrev pub shown_response : Option ResponseData → Shown
shown_response none = empty
shown_response (some r) = response r

unfoldable pub shown_of : Option Tab → Shown
shown_of none = empty
shown_of (some tab) = if tab.is_sending then loading else shown_response tab.response

-- `TestResults`: an error, nothing, or how many passed of how many.
pub data Tests : Type 0 where
  failed : String → Tests
  no_tests : Tests
  passed_of : ℕ → ℕ → Tests

abbrev pub counted : Option (List TestResult) → Tests
counted none = no_tests
counted (some []) = no_tests
counted (some (r ∷ rs)) = passed_of (length (filter (λ t. t.passed) (r ∷ rs))) (length (r ∷ rs))

abbrev pub non_empty_error : Option String → Option String
non_empty_error none = none
non_empty_error (some e) = if truthy e then some e else none

unfoldable pub test_results : Option (List TestResult) → Option String → Tests
test_results results error = elim (non_empty_error error) [
  | some e ↦ failed e
  | none ↦ counted results
]
