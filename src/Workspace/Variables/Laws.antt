-- ===== src/Workspace/Variables/Laws.antt =====
-- What the edits of a variable change, as seen by a lookup of any variable of any environment.
use reqlet.Common.{
  ◌≡◌, String, ◌&&◌, Option, none, some, List, ◌∷◌, [], ◌==◌, if◌then◌else◌, map, find, arith,
}
use reqlet.Types.Collection.{Environment, EnvVariable}
use reqlet.Workspace.Store.{WorkspaceState}
use reqlet.Workspace.Variables.{
  VariablePatch, patch_variable, delete_variable, update_variable, delete_environment_variable,
  update_environment_variable,
}

abbrev pub find_variable : String → List EnvVariable → Option EnvVariable
find_variable id vars = find (λ v. v.id == id) vars

-- The variable of an id in the first environment of an id.
abbrev pub environment_variable_in : String → String → List Environment → Option EnvVariable
environment_variable_in env id [] = none
environment_variable_in env id (e ∷ es) =
    let later = environment_variable_in env id es in
    if e.id == env then find_variable id e.variables else later

abbrev pub patched : VariablePatch → Option EnvVariable → Option EnvVariable
patched p none = none
patched p (some v) = some (patch_variable p v)

find_variable-update_variable :
    (var id : String) (p : VariablePatch) (vars : List EnvVariable)
    → p.id ≡ none
    → find_variable id (update_variable var p vars)
      ≡ (if var == id then patched p (find_variable id vars) else find_variable id vars)
unfolding update_variable
find_variable-update_variable var id p [] h = ground arith
find_variable-update_variable var id p (v ∷ vars) h =
    ground (arith, find_variable-update_variable var id p vars h)

find_variable-delete_variable :
    (var id : String) (vars : List EnvVariable)
    → find_variable id (delete_variable var vars)
      ≡ (if var == id then none else find_variable id vars)
unfolding delete_variable
find_variable-delete_variable var id [] = ground arith
find_variable-delete_variable var id (v ∷ vars) =
    ground (arith, find_variable-delete_variable var id vars)

update_in :
    (env var env' id : String) (p : VariablePatch) (es : List Environment)
    → p.id ≡ none
    → environment_variable_in env' id (
        map
          (λ e.
            if e.id == env then record e { variables = update_variable var p e.variables } else e)
          es)
      ≡ (if (env == env') && (var == id)
          then patched p (environment_variable_in env' id es)
          else environment_variable_in env' id es)
update_in env var env' id p [] h = ground arith
update_in env var env' id p (e ∷ es) h =
    ground (
      arith,
      find_variable-update_variable var id p e.variables h,
      update_in env var env' id p es h,
    )

delete_in :
    (env var env' id : String) (es : List Environment)
    → environment_variable_in env' id (
        map
          (λ e. if e.id == env then record e { variables = delete_variable var e.variables } else e)
          es)
      ≡ (if (env == env') && (var == id) then none else environment_variable_in env' id es)
delete_in env var env' id [] = ground arith
delete_in env var env' id (e ∷ es) =
    ground (arith, find_variable-delete_variable var id e.variables, delete_in env var env' id es)

-- An update with no new id changes the variable that it names, in the environment that it names, by
-- the fields of the patch; any other variable of any environment is found as before.
pub update_environment_variable_lem :
    (s : WorkspaceState) (env var env' id : String) (p : VariablePatch)
    → p.id ≡ none
    → environment_variable_in env' id (update_environment_variable s env var p).environments ≡ (
        if (env == env') && (var == id)
        then patched p (environment_variable_in env' id s.environments)
        else environment_variable_in env' id s.environments)
unfolding update_environment_variable
update_environment_variable_lem s env var env' id p h = update_in env var env' id p s.environments h

-- A deleted variable is found no more, and any other variable of any environment as before.
pub delete_environment_variable_lem :
    (s : WorkspaceState) (env var env' id : String)
    → environment_variable_in env' id (delete_environment_variable s env var).environments ≡ (
        if (env == env') && (var == id)
        then none
        else environment_variable_in env' id s.environments)
unfolding delete_environment_variable
delete_environment_variable_lem s env var env' id = delete_in env var env' id s.environments
