-- ===== src/Mutations.antt =====
-- gui/web/src/components/layout/request-pane.tsx: the variables that a request's scripts set are
-- written back to the workspace (`patchVarList`, `applyVariableMutations`).
pub mod Laws
pub mod Scopes
use reqlet.Common.{
  ℕ, suc, ◌+◌, String, Bool, true, Option, none, some, List, [], ◌∷◌, ◌++◌, if◌then◌else◌, ◌==◌,
  any,
}
use reqlet.Common.Dict.{Dict}
use reqlet.Types.Collection.{EnvVariable, Environment, Collection}
use reqlet.Types.Response.{VariableMutations}
use reqlet.Workspace.Ids.{new_id}
use reqlet.Workspace.Store.{WorkspaceState}
use reqlet.Scope.Merge.{chosen}

abbrev pub has_key : String → List EnvVariable → Bool
has_key key vars = any (λ v. v.key == key) vars

-- `result[idx] = { ...result[idx], currentValue: value }`, at the first variable of the key
abbrev pub set_current : String → String → List EnvVariable → List EnvVariable
set_current key value [] = []
set_current key value (v ∷ vs) =
    let rest = set_current key value vs in
    if v.key == key then record v { current_value = value } ∷ vs else v ∷ rest

abbrev pub mutated_variable : String → String → String → EnvVariable
mutated_variable id key value = record {
  id = id;
  enabled = true;
  key = key;
  initial_value = value;
  current_value = value;
}

-- One round of the loop of `patchVarList`, with the number of ids drawn so far.
abbrev pub patch_var : (ℕ → String) → String → String → List EnvVariable → ℕ → List EnvVariable × ℕ
patch_var uuid key value result n =
    if has_key key result
    then (set_current key value result, n)
    else (result ++ (mutated_variable (new_id uuid n) key value ∷ []), suc n)

unfoldable pub patch_var_list :
    (ℕ → String) → List EnvVariable → Dict String → ℕ → List EnvVariable × ℕ
patch_var_list uuid result [] n = (result, n)
patch_var_list uuid result ((key, value) ∷ mutations) n =
    let (next, m) = patch_var uuid key value result n in patch_var_list uuid next mutations m

-- The environments with the one of the id patched.
unfoldable pub patch_environments :
    (ℕ → String) → String → Dict String → List Environment → ℕ → List Environment × ℕ
unfolding patch_var_list
patch_environments uuid id mutations [] n = ([], n)
patch_environments uuid id mutations (e ∷ es) n =
    if e.id == id
    then (let (variables, m) = patch_var_list uuid e.variables mutations n in
        let (rest, k) = patch_environments uuid id mutations es m in
        (record e { variables = variables } ∷ rest, k))
    else (let (rest, k) = patch_environments uuid id mutations es n in (e ∷ rest, k))

-- The same for collections.
unfoldable pub patch_collections :
    (ℕ → String) → String → Dict String → List Collection → ℕ → List Collection × ℕ
unfolding patch_var_list
patch_collections uuid id mutations [] n = ([], n)
patch_collections uuid id mutations (c ∷ cs) n =
    if c.id == id
    then (let (variables, m) = patch_var_list uuid c.variables mutations n in
        let (rest, k) = patch_collections uuid id mutations cs m in
        (record c { variables = variables } ∷ rest, k))
    else (let (rest, k) = patch_collections uuid id mutations cs n in (c ∷ rest, k))

-- `mutations.x && Object.keys(mutations.x).length > 0`
abbrev pub given_mutations : Option (Dict String) → Option (Dict String)
given_mutations none = none
given_mutations (some []) = none
given_mutations (some (m ∷ mutations)) = some (m ∷ mutations)

abbrev pub mutate_globals :
    (ℕ → String) → Option (Dict String) → List EnvVariable → ℕ → List EnvVariable × ℕ
mutate_globals uuid none vars n = (vars, n)
mutate_globals uuid (some mutations) vars n = patch_var_list uuid vars mutations n

abbrev pub mutate_environments :
    (ℕ → String)
    → Option (Dict String)
    → Option String
    → List Environment
    → ℕ
    → List Environment × ℕ
mutate_environments uuid none id es n = (es, n)
mutate_environments uuid (some mutations) none es n = (es, n)
mutate_environments uuid (some mutations) (some id) es n = patch_environments uuid id mutations es n

abbrev pub mutate_collections :
    (ℕ → String) → Option (Dict String) → Option String → List Collection → ℕ → List Collection × ℕ
mutate_collections uuid none id cs n = (cs, n)
mutate_collections uuid (some mutations) none cs n = (cs, n)
mutate_collections uuid (some mutations) (some id) cs n = patch_collections uuid id mutations cs n

unfoldable pub apply_variable_mutations :
    (ℕ → String)
    → VariableMutations
    → Option String
    → Option String
    → WorkspaceState
    → WorkspaceState
unfolding patch_var_list patch_environments patch_collections
apply_variable_mutations uuid mutations active_environment_id collection_id s =
    let (global_variables, n) =
      mutate_globals uuid (given_mutations mutations.globals) s.global_variables 0 in
    let (environments, m) =
      mutate_environments uuid (given_mutations mutations.environment)
        (chosen active_environment_id) s.environments n in
    let (collections, k) =
      mutate_collections uuid (given_mutations mutations.collection_variables)
        (chosen collection_id) s.collections m in
    record s {
      global_variables = global_variables;
      environments = environments;
      collections = collections;
    }
