-- ===== src/SidePanel/Drag.antt =====
-- gui/web/src/components/layout/side-panel.tsx: an item that is dragged and dropped on a folder or a
-- collection, and the import of a file.
use reqlet.Common.{
  String, Bool, ◌&&◌, Option, none, some, List, if◌then◌else◌, ◌==◌, truthy, any, is_some_of,
}
use reqlet.Types.Collection.{Collection, Environment}
use reqlet.Workspace.Store.{WorkspaceState, move_item}

pub record DragSource : Type 0 where
  pub id : String
  pub collection_id : String

pub record Drag : Type 0 where
  pub source : Option DragSource
  pub dragged_id : Option String
  pub drag_over_id : Option String

unfoldable pub start_drag : String → String → Drag → Drag
start_drag id collection_id d = record d {
  source = some (record { id = id; collection_id = collection_id });
  dragged_id = some id;
}

unfoldable pub end_drag : Drag → Drag
end_drag d = record { source = none; dragged_id = none; drag_over_id = none }

abbrev pub moved : Option DragSource → String → Option String → WorkspaceState → WorkspaceState
moved none target target_folder w = w
moved (some src) target target_folder w =
    if is_some_of target_folder src.id
    then w
    else move_item w src.collection_id src.id target target_folder

unfoldable pub drop_on : String → Option String → WorkspaceState × Drag → WorkspaceState × Drag
unfolding end_drag move_item
drop_on target target_folder (w, d) = (moved d.source target target_folder w, end_drag d)

-- What an import of a collection's file does: the name that the file gives, if its text is JSON, and
-- whether the server takes it are parameters.
pub data Import : Type 0 where
  clashes : String → Import
  imports : Import
  fails : Import

unfoldable pub import_collection_file : List Collection → Option String → Bool → Import
import_collection_file collections none taken = fails
import_collection_file collections (some name) taken =
    if truthy name && any (λ c. c.name == name) collections
    then clashes name
    else if taken
    then imports
    else fails

-- The same for a file of an environment.
unfoldable pub import_environment_file : List Environment → Option String → Bool → Import
import_environment_file environments none taken = fails
import_environment_file environments (some name) taken =
    if truthy name && any (λ e. e.name == name) environments
    then clashes name
    else if taken
    then imports
    else fails
