-- ===== src/Workspace/Steps.antt =====
-- gui/web/src/store/workspace.ts: runs of the workspace's actions, one after another, in any order.
-- `setCollections` and `setEnvironments` load what the server holds, so they begin a run.
pub mod Edits
pub mod Moves
pub mod Invariant
use reqlet.Common.{ℕ, suc, ◌+◌, ◌≤◌, String, ◌==◌, if◌then◌else◌, Option, List, [], ◌∷◌}
use reqlet.Types.Auth.{AuthConfig}
use reqlet.Types.Collection.{Collection}
use reqlet.Workspace.Ids.{draws}
use reqlet.Workspace.Tree.{ScriptField}
use reqlet.Workspace.Tree.Count.{count_text, size}
use reqlet.Workspace.Store.{
  WorkspaceState, toggle_expand, add_collection, delete_collection, delete_item, rename_collection,
  rename_item, duplicate_collection, duplicate_item, add_request, add_folder,
  update_collection_script, update_item_script, update_collection_auth, update_item_auth, move_item,
}
use reqlet.Workspace.Store.Counts.{copied_in}
use reqlet.Workspace.Store.Move.{count_collections, total}
use reqlet.Workspace.Variables.{
  VariablePatch, add_environment, delete_environment, rename_environment, add_environment_variable,
  delete_environment_variable, update_environment_variable, add_collection_variable,
  delete_collection_variable, update_collection_variable, add_global_variable,
  delete_global_variable, update_global_variable,
}

-- The first k ids that the action draws are new to the collections and to the items, and no two of
-- them are the same.
abbrev pub Fresh : (ℕ → String) → ℕ → WorkspaceState → Type 0
Fresh uuid k s =
    (a : String)
    → (count_collections a s.collections + count_text a (draws uuid 0 k) ≤ 1)
      × (total a s.collections + count_text a (draws uuid 0 k) ≤ 1)

-- How many ids `duplicateCollection` draws: one for the collection and one for each item.
abbrev pub clone_draws : String → List Collection → ℕ
clone_draws id [] = 0
clone_draws id (c ∷ cs) = if c.id == id then suc (size c.items) else clone_draws id cs

-- One action. An action that copies or makes items or collections draws fresh ids, as many
-- as it makes or copies.
pub data Step (s : WorkspaceState) : WorkspaceState → Type 0 where
  toggles : (id : String) → Step s (toggle_expand s id)
  adds_collection :
      (uuid : ℕ → String) (name : String) → Fresh uuid 1 s → Step s (add_collection uuid s name).1
  deletes_collection : (id : String) → Step s (delete_collection s id)
  deletes_item : (id item : String) → Step s (delete_item s id item)
  renames_collection : (id name : String) → Step s (rename_collection s id name)
  renames_item : (id item name : String) → Step s (rename_item s id item name)
  duplicates_collection :
      (uuid : ℕ → String) (id : String)
      → Fresh uuid (clone_draws id s.collections) s
      → Step s (duplicate_collection uuid s id)
  duplicates_item :
      (uuid : ℕ → String) (id item : String)
      → Fresh uuid (copied_in uuid id item s.collections) s
      → Step s (duplicate_item uuid s id item)
  adds_request :
      (uuid : ℕ → String) (id : String) (folder : Option String)
      → Fresh uuid 1 s
      → Step s (add_request uuid s id folder).1
  adds_folder :
      (uuid : ℕ → String) (id : String) (folder : Option String)
      → Fresh uuid 1 s
      → Step s (add_folder uuid s id folder).1
  scripts_collection :
      (id : String) (field : ScriptField) (value : String)
      → Step s (update_collection_script s id field value)
  scripts_item :
      (id item : String) (field : ScriptField) (value : String)
      → Step s (update_item_script s id item field value)
  authorizes_collection :
      (id : String) (auth : AuthConfig) → Step s (update_collection_auth s id auth)
  authorizes_item :
      (id item : String) (auth : AuthConfig) → Step s (update_item_auth s id item auth)
  moves :
      (source item target : String) (folder : Option String)
      → Step s (move_item s source item target folder)
  adds_environment : (uuid : ℕ → String) (name : String) → Step s (add_environment uuid s name).1
  deletes_environment : (id : String) → Step s (delete_environment s id)
  renames_environment : (id name : String) → Step s (rename_environment s id name)
  adds_environment_variable :
      (uuid : ℕ → String) (id : String) → Step s (add_environment_variable uuid s id)
  deletes_environment_variable : (id var : String) → Step s (delete_environment_variable s id var)
  updates_environment_variable :
      (id var : String) (patch : VariablePatch)
      → Step s (update_environment_variable s id var patch)
  adds_collection_variable :
      (uuid : ℕ → String) (id : String) → Step s (add_collection_variable uuid s id)
  deletes_collection_variable : (id var : String) → Step s (delete_collection_variable s id var)
  updates_collection_variable :
      (id var : String) (patch : VariablePatch) → Step s (update_collection_variable s id var patch)
  adds_global_variable : (uuid : ℕ → String) → Step s (add_global_variable uuid s)
  deletes_global_variable : (var : String) → Step s (delete_global_variable s var)
  updates_global_variable :
      (var : String) (patch : VariablePatch) → Step s (update_global_variable s var patch)

-- Any number of actions.
pub data Reach (s : WorkspaceState) : WorkspaceState → Type 0 where
  here : Reach s s
  next : {t u : WorkspaceState} → Reach s t → Step t u → Reach s u
