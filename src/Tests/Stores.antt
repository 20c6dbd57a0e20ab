-- ===== src/Tests/Stores.antt =====
-- Runs, synchronization, changes by scripts and parameters: runs of gui/web/src/store/runs.ts,
-- hooks/use-workspace-sync.ts and components/layout/request-pane.tsx.
use reqlet.Common.{
  ◌≡◌, refl, String, Bool, true, false, none, some, List, [], ◌∷◌, map, string_dec, filter,
}
use reqlet.Common.Dict.{lookup}
use reqlet.Types.Request.{KeyValuePair}
use reqlet.Types.Run.{RunSummary}
use reqlet.Types.Collection.{Collection}
use reqlet.Runs.{no_runs}
use reqlet.Runs.Machine.{Action, start, finish, fail, perform_all, steps, lookup-perform_all}
use reqlet.Runs.Consistent.{ConsistentIfAny, perform_all-Consistent}
use reqlet.Sync.{delete, create, update, sync_diff, sync_collection_diff}
use reqlet.Sync.Server.{answers, held, Distinct, held-sync_diff}
use reqlet.Types.Response.{VariableMutations}
use reqlet.Query.{parse_query_params, build_url_with_params, is_sent}
use reqlet.Query.Roundtrip.{parts, parse_query_params-build_url_with_params}
use reqlet.Tests.Data.{demo, second_collection, collection_named, uuid}

abbrev summary_of_run : RunSummary
summary_of_run = record {
  run_id = "run-1";
  collection_id = "c1";
  started_at = "2024";
  duration_ms = 12;
  total = 2;
  passed = 2;
  failed = 0;
}

abbrev two_runs : List Action
two_runs =
    start "2024" "run-1" "c1" none
    ∷ (start "2025" "run-2" "c2" (some "f1")
        ∷ (finish "run-1" summary_of_run ∷ (fail "run-2" "timeout" ∷ [])))

lookup-perform_all_example :
    lookup "run-1" (perform_all no_runs two_runs).runs
    ≡ steps "run-1" (lookup "run-1" no_runs.runs) two_runs
lookup-perform_all_example = lookup-perform_all no_runs two_runs "run-1"

perform_all-Consistent_example :
    ConsistentIfAny (lookup "run-2" (perform_all no_runs two_runs).runs)
perform_all-Consistent_example = perform_all-Consistent two_runs "run-2"

-- Each object of the new list was made anew.
abbrev never_same : Collection → Collection → Bool
never_same a b = false

abbrev collection_id : Collection → String
collection_id c = c.id

before_change-Distinct : Distinct collection_id demo.collections
unfolding string_dec
before_change-Distinct = (refl, (refl, tt))

abbrev after_change : List Collection
after_change = second_collection ∷ (collection_named "c3" [] second_collection.items ∷ [])

after_change-Distinct : Distinct collection_id after_change
unfolding string_dec
after_change-Distinct = (refl, (refl, tt))

calls_of_change :
    sync_collection_diff never_same false after_change demo.collections
    ≡ delete "c1"
      ∷ (update "c2" second_collection
          ∷ (create (collection_named "c3" [] second_collection.items) ∷ []))
unfolding sync_collection_diff string_dec
calls_of_change = refl

held-sync_diff_example :
    answers collection_id
      (sync_diff collection_id never_same false after_change demo.collections)
      (held collection_id demo.collections)
      "c1"
    ≡ held collection_id after_change "c1"
held-sync_diff_example =
    held-sync_diff collection_id never_same after_change demo.collections before_change-Distinct
      false (λ h. cc) (λ a b h. cc) after_change-Distinct "c1"

abbrev two_mutations : VariableMutations
two_mutations = record {
  globals = none;
  environment = some (("name", "prod") ∷ (("new", "c") ∷ []));
  collection_variables = some [];
}

abbrev one_parameter : KeyValuePair
one_parameter = record { id = "p1"; enabled = true; key = "q"; value = "a=b"; description = "" }

builds_url :
    build_url_with_params "http://h/?old=1"
      (one_parameter ∷ (record one_parameter { key = "" } ∷ []))
    ≡ "http://h/?q=a=b"
unfolding build_url_with_params
builds_url = refl

parse_query_params-build_url_with_params_example :
    map parts
      (parse_query_params uuid (build_url_with_params "http://h/?old=1" (one_parameter ∷ [])))
    ≡ map parts (filter is_sent (one_parameter ∷ []))
parse_query_params-build_url_with_params_example =
    parse_query_params-build_url_with_params uuid "http://h/?old=1" (one_parameter ∷ [])
      (((refl, tt), (refl, tt), (refl, (refl, (refl, tt)))), tt)
