-- ===== src/Types/Collection.antt =====
-- gui/web/src/types.ts: collections of requests in nested folders, and environments.
-- `CollectionItem[]` is `Items`: an item is told apart by its constructor, as the source does by
-- `"method" in item`, and the items of a folder stand beside its other fields.
use reqlet.Common.{String, Bool, List}
use reqlet.Types.Auth.{AuthConfig}
use reqlet.Types.Request.{HttpMethod, KeyValuePair, RequestBody}

pub record RequestItem : Type 0 where
  pub id : String
  pub name : String
  pub method : HttpMethod
  pub url : String
  pub params : List KeyValuePair
  pub headers : List KeyValuePair
  pub body : RequestBody
  pub auth : AuthConfig
  pub pre_request_script : String
  pub test_script : String

-- A `FolderItem` without its items.
pub record FolderItem : Type 0 where
  pub id : String
  pub name : String
  pub auth : AuthConfig
  pub pre_request_script : String
  pub test_script : String

-- `CollectionItem[]`: no item, a request and more items, or a folder, its items and more items.
pub data Items : Type 0 where
  nil : Items
  cons_request : RequestItem → Items → Items
  cons_folder : FolderItem → Items → Items → Items

-- One item: a request, or a folder with its items.
pub data CollectionItem : Type 0 where
  request : RequestItem → CollectionItem
  folder : FolderItem → Items → CollectionItem

pub record EnvVariable : Type 0 where
  pub id : String
  pub enabled : Bool
  pub key : String
  pub initial_value : String
  pub current_value : String

pub record Collection : Type 0 where
  pub id : String
  pub name : String
  pub description : String
  pub auth : AuthConfig
  pub variables : List EnvVariable
  pub pre_request_script : String
  pub test_script : String
  pub items : Items

pub record Environment : Type 0 where
  pub id : String
  pub name : String
  pub variables : List EnvVariable

abbrev pub cons_item : CollectionItem → Items → Items
cons_item (request r) rest = cons_request r rest
cons_item (folder f kids) rest = cons_folder f kids rest

abbrev pub item_id : CollectionItem → String
item_id (request r) = r.id
item_id (folder f kids) = f.id

-- `[...items, item]`
abbrev pub append_item : Items → CollectionItem → Items
append_item nil item = cons_item item nil
append_item (cons_request r rest) item = cons_request r (append_item rest item)
append_item (cons_folder f kids rest) item = cons_folder f kids (append_item rest item)
