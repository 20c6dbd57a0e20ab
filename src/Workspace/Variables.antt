-- ===== src/Workspace/Variables.antt =====
-- gui/web/src/store/workspace.ts: the environments and the variables of environments, collections
-- and the workspace.
pub mod Laws
use reqlet.Common.{
  given, ℕ, suc, String, true, Bool, not, Option, none, some, List, ◌∷◌, [], ◌++◌, ◌==◌,
  if◌then◌else◌, map, filter,
}
use reqlet.Types.Collection.{Collection, Environment, EnvVariable}
use reqlet.Workspace.Ids.{new_id}
use reqlet.Workspace.Store.{WorkspaceState, update_collection}

-- `Partial<EnvVariable>`
pub record VariablePatch : Type 0 where
  pub id : Option String
  pub enabled : Option Bool
  pub key : Option String
  pub initial_value : Option String
  pub current_value : Option String

-- `{ ...v, ...patch }`
abbrev pub patch_variable : VariablePatch → EnvVariable → EnvVariable
patch_variable p v = record {
  id = given p.id v.id;
  enabled = given p.enabled v.enabled;
  key = given p.key v.key;
  initial_value = given p.initial_value v.initial_value;
  current_value = given p.current_value v.current_value;
}

abbrev pub blank_variable : String → EnvVariable
blank_variable id = record {
  id = id;
  enabled = true;
  key = "";
  initial_value = "";
  current_value = "";
}

-- The three edits of a list of variables, which each owner repeats.
unfoldable pub add_variable : String → List EnvVariable → List EnvVariable
add_variable id vars = vars ++ (blank_variable id ∷ [])

unfoldable pub delete_variable : String → List EnvVariable → List EnvVariable
delete_variable var_id vars = filter (λ v. not (v.id == var_id)) vars

unfoldable pub update_variable : String → VariablePatch → List EnvVariable → List EnvVariable
update_variable var_id patch vars =
    map (λ v. if v.id == var_id then patch_variable patch v else v) vars

unfoldable pub add_environment :
    (ℕ → String) → WorkspaceState → String → Environment × WorkspaceState
add_environment uuid s name =
    let env : Environment = record { id = new_id uuid 0; name = name; variables = [] } in
    (env, record s { environments = s.environments ++ (env ∷ []) })

unfoldable pub delete_environment : WorkspaceState → String → WorkspaceState
delete_environment s id = record s { environments = filter (λ e. not (e.id == id)) s.environments }

-- `environments.map((e) => e.id === id ? f(e) : e)`
abbrev pub update_environment :
    String → (Environment → Environment) → WorkspaceState → WorkspaceState
update_environment id f s = record s {
  environments = map (λ e. if e.id == id then f e else e) s.environments;
}

unfoldable pub rename_environment : WorkspaceState → String → String → WorkspaceState
rename_environment s id name = update_environment id (λ e. record e { name = name }) s

-- `newId` is called once for each environment of the id.
abbrev pub add_environment_variable_from :
    (ℕ → String) → String → List Environment → ℕ → List Environment
add_environment_variable_from uuid env_id [] n = []
add_environment_variable_from uuid env_id (e ∷ es) n =
    let grown = record e { variables = add_variable (new_id uuid n) e.variables } in
    (if e.id == env_id then grown else e)
    ∷ add_environment_variable_from uuid env_id es (if e.id == env_id then suc n else n)

unfoldable pub add_environment_variable : (ℕ → String) → WorkspaceState → String → WorkspaceState
unfolding add_variable
add_environment_variable uuid s env_id = record s {
  environments = add_environment_variable_from uuid env_id s.environments 0;
}

unfoldable pub delete_environment_variable : WorkspaceState → String → String → WorkspaceState
unfolding delete_variable
delete_environment_variable s env_id var_id =
    update_environment env_id (λ e. record e { variables = delete_variable var_id e.variables }) s

unfoldable pub update_environment_variable :
    WorkspaceState → String → String → VariablePatch → WorkspaceState
unfolding update_variable
update_environment_variable s env_id var_id patch =
    update_environment env_id
      (λ e. record e { variables = update_variable var_id patch e.variables }) s

abbrev pub add_collection_variable_from :
    (ℕ → String) → String → List Collection → ℕ → List Collection
add_collection_variable_from uuid collection_id [] n = []
add_collection_variable_from uuid collection_id (c ∷ cs) n =
    let grown = record c { variables = add_variable (new_id uuid n) c.variables } in
    (if c.id == collection_id then grown else c)
    ∷ add_collection_variable_from uuid collection_id cs
        (if c.id == collection_id then suc n else n)

unfoldable pub add_collection_variable : (ℕ → String) → WorkspaceState → String → WorkspaceState
unfolding add_variable
add_collection_variable uuid s collection_id = record s {
  collections = add_collection_variable_from uuid collection_id s.collections 0;
}

unfoldable pub delete_collection_variable : WorkspaceState → String → String → WorkspaceState
unfolding delete_variable
delete_collection_variable s collection_id var_id =
    update_collection collection_id
      (λ c. record c { variables = delete_variable var_id c.variables }) s

unfoldable pub update_collection_variable :
    WorkspaceState → String → String → VariablePatch → WorkspaceState
unfolding update_variable
update_collection_variable s collection_id var_id patch =
    update_collection collection_id
      (λ c. record c { variables = update_variable var_id patch c.variables }) s

unfoldable pub add_global_variable : (ℕ → String) → WorkspaceState → WorkspaceState
unfolding add_variable
add_global_variable uuid s = record s {
  global_variables = add_variable (new_id uuid 0) s.global_variables;
}

unfoldable pub delete_global_variable : WorkspaceState → String → WorkspaceState
unfolding delete_variable
delete_global_variable s var_id = record s {
  global_variables = delete_variable var_id s.global_variables;
}

unfoldable pub update_global_variable : WorkspaceState → String → VariablePatch → WorkspaceState
unfolding update_variable
update_global_variable s var_id patch = record s {
  global_variables = update_variable var_id patch s.global_variables;
}
