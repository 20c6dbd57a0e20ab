-- ===== src/Search.antt =====
-- gui/web/src/components/search-modal.tsx: what the search offers (`collectResults` and the loop of
-- `SearchModal`).
pub mod Laws
pub mod Select
pub mod Opens
use reqlet.Common.{◌+◌, ◌<◌, String, ◌<>◌, List, [], ◌∷◌, ◌++◌, if◌then◌else◌, truthy}
use reqlet.Types.Request.{HttpMethod}
use reqlet.Types.Collection.{Items, nil, cons_request, cons_folder, Collection}

pub record FolderResult : Type 0 where
  pub id : String
  pub label : String
  pub collection_id : String
  pub breadcrumb : String

pub record RequestResult : Type 0 where
  pub id : String
  pub label : String
  pub method : HttpMethod
  pub url : String
  pub collection_id : String

pub data SearchResult : Type 0 where
  of_collection : String → String → Collection → SearchResult
  of_folder : FolderResult → SearchResult
  of_request : RequestResult → SearchResult

-- `prefix ? `${prefix} / ${item.name}` : item.name`
abbrev pub crumb : String → String → String
crumb prefix name = if truthy prefix then prefix <> (" / " <> name) else name

unfoldable pub collect_results : Items → String → String → List SearchResult → List SearchResult
collect_results nil collection_id prefix out = out
collect_results (cons_request r rest) collection_id prefix out =
    collect_results rest collection_id prefix (
      out
      ++ (of_request (record {
        id = r.id;
        label = r.name;
        method = r.method;
        url = r.url;
        collection_id = collection_id;
      })
          ∷ []))
collect_results (cons_folder f kids rest) collection_id prefix out =
    collect_results rest collection_id prefix (
      collect_results kids collection_id (crumb prefix f.name) (
        out
        ++ (of_folder (record {
          id = f.id;
          label = f.name;
          collection_id = collection_id;
          breadcrumb = crumb prefix f.name;
        })
            ∷ [])))

-- `results` of `SearchModal`, after those found so far
unfoldable pub all_results : List Collection → List SearchResult → List SearchResult
unfolding collect_results
all_results [] results = results
all_results (c ∷ cs) results =
    all_results cs
      (collect_results c.items c.id c.name (results ++ (of_collection c.id c.name c ∷ [])))
