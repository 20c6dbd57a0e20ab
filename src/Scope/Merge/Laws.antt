-- ===== src/Scope/Merge/Laws.antt =====
-- The priority of the scopes and of the variables within a scope.
use reqlet.Common.{
  or_else-none, ℕ, ◌≡◌, refl, sym, ap, ◌∙◌, inl, inr, String, false, ◌&&◌, Option, none, some, List,
  [], ◌∷◌, arith, if◌then◌else◌, ◌==◌, truthy, or_else, Bool-cases, Option-cases, ==-eq, ==-ne,
  ==-false, find,
}
use reqlet.Common.Dict.{Dict, lookup, insert, lookup-insert}
use reqlet.Types.Collection.{EnvVariable, Collection, Environment}
use reqlet.Scope.Template.{apply_variables}
use reqlet.Scope.Resolve.Sound.{Ranked}
use reqlet.Scope.Resolve.Fixpoint.{resolve_recursive_fixpoint}
use reqlet.Scope.Merge.{
  variable_scope, VariableScope, value_of, set_variable, set_variables, scope_of, chosen,
  collection_scope, environment_scope, set_all, merge_scopes, use_variable_scope,
}
use mathlib.Core.Option

-- No key stands in a list of pairs twice, as in a `Map`.
abbrev pub Unique : Dict String → Type 0
Unique [] = Unit
Unique ((k, v) ∷ d) = (lookup k d ≡ none) × Unique d

Unique-insert : (k v : String) (d : Dict String) → Unique d → Unique (insert k v d)
Unique-insert k v [] u = (refl, tt)
Unique-insert k v ((j, w) ∷ d) (h, u) = elim (Bool-cases (j == k)) [
  | inl e ↦ rw e (h, u)
  | inr e ↦
      let back : (k == j) ≡ false = ==-false k j (λ p. ==-ne j k e (sym p)) in
      rw e (lookup-insert k j v d ∙ rw back h, Unique-insert k v d u)
]

Unique-set_variables :
    (vs : List EnvVariable) (d : Dict String) → Unique d → Unique (set_variables vs d)
Unique-set_variables [] d u = u
Unique-set_variables (v ∷ vs) d u =
    Unique-set_variables vs (set_variable v d) (elim (Bool-cases (v.enabled && truthy v.key)) [
      | inl e ↦ rw e (Unique-insert v.key (value_of v) d u)
      | inr e ↦ rw e u
    ])

Unique-scope_of : (vs : List EnvVariable) → Unique (scope_of vs)
unfolding scope_of
Unique-scope_of vs = Unique-set_variables vs [] tt

Unique-collection_scope :
    (cs : List Collection) (id : Option String) → Unique (collection_scope cs id)
unfolding collection_scope
Unique-collection_scope cs id = elim (Option-cases (chosen id)) [
  | inl z ↦ rw (collection_scope, z) tt
  | inr (i, z) ↦
      rw (collection_scope, z)
        (elim (Option-cases (find (λ c. c.id == i) cs)) [
          | inl y ↦ rw y tt
          | inr (c, y) ↦ rw y (Unique-scope_of c.variables)
        ])
]

Unique-environment_scope :
    (es : List Environment) (id : Option String) → Unique (environment_scope es id)
unfolding environment_scope
Unique-environment_scope es id = elim (Option-cases (chosen id)) [
  | inl z ↦ rw (environment_scope, z) tt
  | inr (i, z) ↦
      rw (environment_scope, z)
        (elim (Option-cases (find (λ e. e.id == i) es)) [
          | inl y ↦ rw y tt
          | inr (e, y) ↦ rw y (Unique-scope_of e.variables)
        ])
]

-- The value of the last variable of a list that is enabled and has the key.
abbrev pub last_enabled : String → List EnvVariable → Option String
last_enabled k [] = none
last_enabled k (v ∷ vs) =
    or_else (last_enabled k vs)
      (if v.enabled && (truthy v.key && v.key == k) then some (value_of v) else none)

or_else_assoc : (a b c : Option String) → or_else a (or_else b c) ≡ or_else (or_else a b) c
or_else_assoc none b c = refl
or_else_assoc (some x) b c = refl

lookup-set_variable :
    (k : String) (v : EnvVariable) (d : Dict String)
    → lookup k (set_variable v d)
      ≡ or_else
          (if v.enabled && (truthy v.key && v.key == k) then some (value_of v) else none)
          (lookup k d)
lookup-set_variable k v d = elim (Bool-cases (v.enabled && truthy v.key)) [
  | inl e ↦ rw e (lookup-insert v.key k (value_of v) d ∙ ground arith)
  | inr e ↦ rw e (ground arith)
]

lookup-set_variables :
    (k : String) (vs : List EnvVariable) (d : Dict String)
    → lookup k (set_variables vs d) ≡ or_else (last_enabled k vs) (lookup k d)
lookup-set_variables k [] d = refl
lookup-set_variables k (v ∷ vs) d =
    lookup-set_variables k vs (set_variable v d)
    ∙ (ap (or_else (last_enabled k vs)) (lookup-set_variable k v d)
        ∙ or_else_assoc (last_enabled k vs) _ (lookup k d))

-- A scope gives a key the value of the last of its enabled variables with that key: the current
-- value, or the initial value where the current one is empty.
pub lookup-scope_of :
    (k : String) (vs : List EnvVariable) → lookup k (scope_of vs) ≡ last_enabled k vs
unfolding scope_of
lookup-scope_of k vs = lookup-set_variables k vs [] ∙ or_else-none (last_enabled k vs)

lookup-set_all :
    (k : String) (low high : Dict String)
    → Unique high
    → lookup k (set_all low high) ≡ or_else (lookup k high) (lookup k low)
lookup-set_all k low [] u = refl
lookup-set_all k low ((j, v) ∷ high) (h, u) =
    lookup-set_all k (insert j v low) high u ∙ elim (Bool-cases (j == k)) [
      | inl e ↦
          let absent : lookup k high ≡ none = ap (λ i. lookup i high) (sym (==-eq j k e)) ∙ h in
          rw absent (lookup-insert j k v low ∙ rw e refl)
      | inr e ↦ rw (lookup-insert j k v low, e) refl
    ]

lookup-merge_scopes :
    (k : String) (globals col env : Dict String)
    → Unique globals
    → Unique col
    → Unique env
    → lookup k (merge_scopes globals col env)
      ≡ or_else (lookup k env) (or_else (lookup k col) (lookup k globals))
unfolding merge_scopes
lookup-merge_scopes k globals col env ug uc ue =
    lookup-set_all k _ env ue
    ∙ rw (lookup-set_all k (set_all [] globals) col uc, lookup-set_all k [] globals ug)
        (rw (or_else-none (lookup k globals)) refl)

module _ (global_variables : List EnvVariable) (collections : List Collection)
    (environments : List Environment) (collection_id active_environment_id : Option String) where
  abbrev pub raw_scope : Dict String
  raw_scope =
      merge_scopes (scope_of global_variables) (collection_scope collections collection_id)
        (environment_scope environments active_environment_id)

  -- If the values in scope do not refer to each other in a cycle, then a key has a resolved value
  -- exactly when one of the three scopes has it, and that value is the one of the environment, else
  -- of the collection, else of the globals, with its references replaced by the resolved values of
  -- their keys.
  pub use_variable_scope_lem :
      (rank : String → ℕ)
      → Ranked raw_scope rank
      → (s : VariableScope) × (use_variable_scope global_variables collections environments
            collection_id active_environment_id
          ≡ some s)
        × ((key : String)
            → lookup key s.resolved_map
              ≡ Option.map
                  (λ v. apply_variables v s.resolved_map)
                  (or_else (lookup key (environment_scope environments active_environment_id)) (
                    or_else
                      (lookup key (collection_scope collections collection_id))
                      (lookup key (scope_of global_variables)))))
  unfolding use_variable_scope
  use_variable_scope_lem rank ranked =
      let (resolved, e, fixed) = resolve_recursive_fixpoint raw_scope rank ranked in
      (
        variable_scope resolved raw_scope (scope_of global_variables)
            (collection_scope collections collection_id)
            (environment_scope environments active_environment_id),
        rw (use_variable_scope, e) refl,
        λ key.
            fixed key
            ∙ ap (Option.map (λ v. apply_variables v resolved)) (
                lookup-merge_scopes key (scope_of global_variables)
                  (collection_scope collections collection_id)
                  (environment_scope environments active_environment_id)
                  (Unique-scope_of global_variables)
                  (Unique-collection_scope collections collection_id)
                  (Unique-environment_scope environments active_environment_id)),
      )
