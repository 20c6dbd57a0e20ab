-- ===== src/Search/Laws.antt =====
-- How often the search of gui/web/src/components/search-modal.tsx offers an id.
use reqlet.Common.{ℕ, ◌+◌, ◌≡◌, ◌∙◌, String, List, [], ◌∷◌, ◌++◌, arith, hits}
use reqlet.Types.Collection.{Items, nil, cons_request, cons_folder, Collection}
use reqlet.Workspace.Tree.Count.{count_id}
use reqlet.Workspace.Store.Move.{count_collections, total}
use reqlet.Search.{
  SearchResult, of_collection, of_folder, of_request, collect_results, all_results, crumb,
}

abbrev pub result_id : SearchResult → String
result_id (of_collection id label c) = id
result_id (of_folder f) = f.id
result_id (of_request r) = r.id

abbrev pub count_results : String → List SearchResult → ℕ
count_results a [] = 0
count_results a (r ∷ rs) = hits (result_id r) a + count_results a rs

count_results-append :
    (a : String) (rs ss : List SearchResult)
    → count_results a (rs ++ ss) ≡ count_results a rs + count_results a ss
count_results-append a [] ss = omega arith
count_results-append a (r ∷ rs) ss = omega (arith, count_results-append a rs ss)

count_results-collect_results :
    (a : String) (items : Items) (collection_id prefix : String) (out : List SearchResult)
    → count_results a (collect_results items collection_id prefix out)
      ≡ count_results a out + count_id a items
unfolding collect_results count_id
count_results-collect_results a nil collection_id prefix out = omega arith
count_results-collect_results a (cons_request r rest) collection_id prefix out =
    count_results-collect_results a rest collection_id prefix _
    ∙ omega (arith, count_results-append a out _)
count_results-collect_results a (cons_folder f kids rest) collection_id prefix out =
    count_results-collect_results a rest collection_id prefix _
    ∙ omega (
      arith,
      count_results-collect_results a kids collection_id (crumb prefix f.name) _,
      count_results-append a out _,
    )

-- Each id is offered as often as it occurs among the collections and the items at any depth.
pub count_results-all_results :
    (a : String) (cs : List Collection) (results : List SearchResult)
    → count_results a (all_results cs results)
      ≡ count_results a results + (count_collections a cs + total a cs)
unfolding all_results
count_results-all_results a [] results = omega arith
count_results-all_results a (c ∷ cs) results =
    count_results-all_results a cs _
    ∙ omega (
      arith,
      count_results-collect_results a c.items c.id c.name
          (results ++ (of_collection c.id c.name c ∷ [])),
      count_results-append a results (of_collection c.id c.name c ∷ []),
    )
