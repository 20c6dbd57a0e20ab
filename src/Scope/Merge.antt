-- ===== src/Scope/Merge.antt =====
-- gui/web/src/hooks/use-variable-scope.ts, `useVariableScope`: the variables that a request sees, as
-- a function of the store's state.
pub mod Laws
use reqlet.Common.{
  String, ◌&&◌, Option, none, some, List, [], ◌∷◌, if◌then◌else◌, ◌==◌, truthy, find,
}
use reqlet.Common.Dict.{Dict, insert, keys}
use mathlib.Core.Option
use reqlet.Types.Collection.{EnvVariable, Collection, Environment}
use reqlet.Scope.Resolve.{resolve_recursive}

pub record VariableScope : Type 0 where
  pub resolved_map : Dict String
  pub all_keys : List String
  pub globals : Dict String
  pub environment : Dict String
  pub collection_variables : Dict String

-- `v.currentValue || v.initialValue`
abbrev pub value_of : EnvVariable → String
value_of v = if truthy (v.current_value) then v.current_value else v.initial_value

-- `if (v.enabled && v.key) map.set(v.key, …)`
abbrev pub set_variable : EnvVariable → Dict String → Dict String
set_variable v scope =
    if v.enabled && truthy (v.key) then insert (v.key) (value_of v) scope else scope

abbrev pub set_variables : List EnvVariable → Dict String → Dict String
set_variables [] scope = scope
set_variables (v ∷ vs) scope = set_variables vs (set_variable v scope)

unfoldable pub scope_of : List EnvVariable → Dict String
scope_of vs = set_variables vs []

-- `if (id)`, for an id that may be absent
abbrev pub chosen : Option String → Option String
chosen none = none
chosen (some id) = if truthy id then some id else none

unfoldable pub collection_scope : List Collection → Option String → Dict String
unfolding scope_of
collection_scope collections collection_id = elim (chosen collection_id) [
  | none ↦ []
  | some id ↦ elim (find (λ c. c.id == id) collections) [
    | none ↦ []
    | some col ↦ scope_of (col.variables)
  ]
]

unfoldable pub environment_scope : List Environment → Option String → Dict String
unfolding scope_of
environment_scope environments active_environment_id = elim (chosen active_environment_id) [
  | none ↦ []
  | some id ↦ elim (find (λ e. e.id == id) environments) [
    | none ↦ []
    | some env ↦ scope_of (env.variables)
  ]
]

-- `new Map([...low, ...high])`
abbrev pub set_all : Dict String → Dict String → Dict String
set_all low [] = low
set_all low ((k, v) ∷ high) = set_all (insert k v low) high

unfoldable pub merge_scopes : Dict String → Dict String → Dict String → Dict String
merge_scopes globals col env = set_all (set_all (set_all [] globals) col) env

abbrev variable_scope :
    Dict String → Dict String → Dict String → Dict String → Dict String → VariableScope
variable_scope resolved raw_map globals col env = record {
  resolved_map = resolved;
  all_keys = keys raw_map;
  globals = globals;
  environment = env;
  collection_variables = col;
}

unfoldable pub use_variable_scope :
    List EnvVariable
    → List Collection
    → List Environment
    → Option String
    → Option String
    → Option VariableScope
unfolding resolve_recursive merge_scopes collection_scope environment_scope scope_of
use_variable_scope global_variables collections environments collection_id active_environment_id =
    let globals = scope_of global_variables in
    let col = collection_scope collections collection_id in
    let env = environment_scope environments active_environment_id in
    let raw_map = merge_scopes globals col env in
    Option.map (λ resolved. variable_scope resolved raw_map globals col env)
      (resolve_recursive raw_map)
