-- ===== src/Tabs/Patch.antt =====
-- `Partial<Tab>` of gui/web/src/store/tabs.ts: for each field, a new value or none. An optional
-- field that is present may itself be undefined.
use reqlet.Common.{given, String, Bool, Option}
use reqlet.Types.Request.{RequestState}
use reqlet.Types.Response.{ResponseData}
use reqlet.Types.Run.{RunOptions}
use reqlet.Types.Tab.{Tab, TabType, RequestSubTab, ResponseSubTab, CollectionSubTab}

pub record TabPatch : Type 0 where
  pub id : Option String
  pub type : Option TabType
  pub title : Option String
  pub dirty : Option Bool
  pub request_id : Option (Option String)
  pub collection_id : Option (Option String)
  pub folder_id : Option (Option String)
  pub environment_id : Option (Option String)
  pub request : Option RequestState
  pub is_sending : Option Bool
  pub response : Option (Option ResponseData)
  pub request_sub_tab : Option RequestSubTab
  pub response_sub_tab : Option ResponseSubTab
  pub collection_sub_tab : Option CollectionSubTab
  pub run_options : Option (Option RunOptions)
  pub run_selected_run_id : Option (Option String)

-- `{ ...t, ...patch }`
abbrev pub patch_tab : TabPatch → Tab → Tab
patch_tab p t = record {
  id = given p.id t.id;
  type = given p.type t.type;
  title = given p.title t.title;
  dirty = given p.dirty t.dirty;
  request_id = given p.request_id t.request_id;
  collection_id = given p.collection_id t.collection_id;
  folder_id = given p.folder_id t.folder_id;
  environment_id = given p.environment_id t.environment_id;
  request = given p.request t.request;
  is_sending = given p.is_sending t.is_sending;
  response = given p.response t.response;
  request_sub_tab = given p.request_sub_tab t.request_sub_tab;
  response_sub_tab = given p.response_sub_tab t.response_sub_tab;
  collection_sub_tab = given p.collection_sub_tab t.collection_sub_tab;
  run_options = given p.run_options t.run_options;
  run_selected_run_id = given p.run_selected_run_id t.run_selected_run_id;
}
