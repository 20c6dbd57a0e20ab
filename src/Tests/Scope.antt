-- ===== src/Tests/Scope.antt =====
-- Variables and their references: runs of gui/web/src/hooks/use-variable-scope.ts and of the tokens
-- of gui/web/src/components/ui/variable-input.tsx.
use reqlet.Common.{
  ℕ, ◌<◌, ◌≡◌, refl, sym, inl, inr, String, false, some, List, [], ◌∷◌, arith, if◌then◌else◌,
  string_dec, ◌==◌, or_else, Bool-cases, ==-eq,
}
use reqlet.Common.Dict.{Dict, lookup}
use mathlib.Core.Path.{subst}
use mathlib.Core.Option
use reqlet.Types.Collection.{EnvVariable}
use reqlet.Scope.Template.{pieces, apply_variables, Token, tokenize_variables}
use reqlet.Scope.Template.Replace.{join, join-tokenize_variables}
use reqlet.Scope.Resolve.{resolve_recursive}
use reqlet.Scope.Resolve.Total.{Returns, resolve_recursive-Returns}
use reqlet.Scope.Resolve.Sound.{Ranked, Below}
use reqlet.Scope.Resolve.Fixpoint.{resolve_recursive_fixpoint}
use reqlet.Scope.Merge.{
  VariableScope, scope_of, collection_scope, environment_scope, merge_scopes, use_variable_scope,
}
use reqlet.Scope.Merge.Laws.{raw_scope, use_variable_scope_lem}
use reqlet.Tests.Data.{demo, variable_named}

abbrev host_and_name : Dict String
host_and_name = ("host", "{{name}}.test") ∷ (("name", "staging") ∷ [])

abbrev two_cyclic : Dict String
two_cyclic = ("a", "1{{b}}") ∷ (("b", "2{{a}}") ∷ [])

resolves_host :
    resolve_recursive host_and_name ≡ some (("name", "staging") ∷ (("host", "staging.test") ∷ []))
unfolding resolve_recursive string_dec pieces
resolves_host = refl

-- The key that is resolved second keeps the value that it got inside the first.
resolves_cycle : resolve_recursive two_cyclic ≡ some (("b", "2{{a}}") ∷ (("a", "12{{a}}") ∷ []))
unfolding resolve_recursive string_dec pieces
resolves_cycle = refl

tokens_of_braces :
    tokenize_variables "{{{a}}-{{b}" []
    ≡ Token.text "{" ∷ (Token.var "a" false "{{a}}" ∷ (Token.text "-{{b}" ∷ []))
unfolding tokenize_variables
tokens_of_braces = refl

abbrev rank : String → ℕ
rank k = if k == "host" then 1 else 0

name_below : (w : String) → lookup "name" host_and_name ≡ some w → rank "name" < 1
unfolding string_dec
name_below w h = ground arith

host-Below : Below host_and_name rank (rank "host") (pieces "{{name}}.test")
unfolding pieces string_dec
host-Below = (name_below, tt)

host_and_name-Ranked : Ranked host_and_name rank
unfolding pieces
host_and_name-Ranked k v h = elim (Bool-cases ("host" == k)) [
  | inl e ↦
      let is : "{{name}}.test" ≡ v = ground arith in
      subst (λ j. Below host_and_name rank (rank j) (pieces v)) (==-eq "host" k e)
        (subst (λ t. Below host_and_name rank (rank "host") (pieces t)) is host-Below)
  | inr e ↦ elim (Bool-cases ("name" == k)) [
    | inl f ↦
        let is : "staging" ≡ v = ground arith in
        subst (λ t. Below host_and_name rank (rank k) (pieces t)) is tt
    | inr f ↦ ground arith
  ]
]

resolve_recursive-Returns_example : Returns (resolve_recursive two_cyclic)
resolve_recursive-Returns_example = resolve_recursive-Returns two_cyclic

resolve_recursive_fixpoint_example :
    (resolved : Dict String) × (resolve_recursive host_and_name ≡ some resolved)
    × ((key : String)
        → lookup key resolved
          ≡ Option.map (λ v. apply_variables v resolved) (lookup key host_and_name))
resolve_recursive_fixpoint_example =
    resolve_recursive_fixpoint host_and_name rank host_and_name-Ranked

join-tokenize_variables_example : join (tokenize_variables "a{{b}}c" []) ≡ "a{{b}}c"
join-tokenize_variables_example = join-tokenize_variables "a{{b}}c" []

abbrev twice_named : List EnvVariable
twice_named = variable_named "v1" "host" "a" ∷ (variable_named "v2" "host" "b" ∷ [])

demo_scope : raw_scope [] demo.collections demo.environments (some "c1") (some "e1") ≡ host_and_name
unfolding string_dec collection_scope environment_scope scope_of merge_scopes
demo_scope = refl

demo-Ranked : Ranked (raw_scope [] demo.collections demo.environments (some "c1") (some "e1")) rank
demo-Ranked = subst (λ d. Ranked d rank) (sym demo_scope) host_and_name-Ranked

use_variable_scope_lem_example :
    (s : VariableScope) × (use_variable_scope [] demo.collections demo.environments
        (some "c1")
        (some "e1")
      ≡ some s)
    × ((key : String)
        → lookup key s.resolved_map
          ≡ Option.map
              (λ v. apply_variables v s.resolved_map)
              (or_else (lookup key (environment_scope demo.environments (some "e1"))) (
                or_else
                  (lookup key (collection_scope demo.collections (some "c1")))
                  (lookup key (scope_of [])))))
use_variable_scope_lem_example =
    use_variable_scope_lem [] demo.collections demo.environments (some "c1") (some "e1") rank
      demo-Ranked
