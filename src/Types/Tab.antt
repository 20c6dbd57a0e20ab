-- ===== src/Types/Tab.antt =====
-- gui/web/src/types.ts: a tab of the workbench.
use reqlet.Common.{String, Bool, Option}
use reqlet.Types.Request.{RequestState}
use reqlet.Types.Response.{ResponseData}
use reqlet.Types.Run.{RunOptions}

pub data RequestSubTab : Type 0 where
  params auth headers body scripts settings code : RequestSubTab

pub data ResponseSubTab : Type 0 where
  body headers cookies tests timeline visualize : ResponseSubTab

-- `CollectionSubTab`; `FolderSubTab` lacks `variables`, so the union of both is this type.
pub data CollectionSubTab : Type 0 where
  overview authorization variables scripts runs : CollectionSubTab

pub data TabType : Type 0 where
  request collection folder environment globals : TabType

-- An optional field is an `Option`; `runSelectedRunId` is `undefined` and `null` alike for `none`.
pub record Tab : Type 0 where
  pub id : String
  pub type : TabType
  pub title : String
  pub dirty : Bool
  pub request_id : Option String
  pub collection_id : Option String
  pub folder_id : Option String
  pub environment_id : Option String
  pub request : RequestState
  pub is_sending : Bool
  pub response : Option ResponseData
  pub request_sub_tab : RequestSubTab
  pub response_sub_tab : ResponseSubTab
  pub collection_sub_tab : CollectionSubTab
  pub run_options : Option RunOptions
  pub run_selected_run_id : Option String
