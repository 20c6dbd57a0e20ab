-- ===== src/Mutations/Laws.antt =====
-- The values of the variables after a script's changes are written back.
use reqlet.Common.{
  ℕ, ◌≡◌, refl, sym, ap, ◌∙◌, inl, inr, String, false, ◌&&◌, Option, none, some, List, [], ◌∷◌,
  ◌++◌, arith, if◌then◌else◌, ◌==◌, or_else, Bool-cases, ==-eq, or_else-none,
}
use reqlet.Common.Dict.{Dict, lookup}
use reqlet.Types.Collection.{EnvVariable}
use reqlet.Workspace.Ids.{new_id}
use reqlet.Mutations.{has_key, set_current, mutated_variable, patch_var, patch_var_list}

-- The current value of the first variable of a key.
abbrev pub first_value : String → List EnvVariable → Option String
first_value key [] = none
first_value key (v ∷ vs) =
    let rest = first_value key vs in if v.key == key then some v.current_value else rest

first_value-set_current :
    (key k value : String) (vars : List EnvVariable)
    → first_value k (set_current key value vars)
      ≡ (if (key == k) && has_key key vars then some value else first_value k vars)
first_value-set_current key k value [] = ground arith
first_value-set_current key k value (v ∷ vs) = elim (Bool-cases (v.key == key)) [
  | inl e ↦
      let same : v.key ≡ key = ==-eq v.key key e in
      rw e (rw same (elim (Bool-cases (key == k)) [ inl f ↦ rw f refl | inr f ↦ rw f refl ]))
  | inr e ↦ rw e (elim (Bool-cases (key == k)) [
    | inl f ↦
        let other : (v.key == k) ≡ false = ap (λ j. v.key == j) (sym (==-eq key k f)) ∙ e in
        rw (f, other) (first_value-set_current key k value vs ∙ rw f refl)
    | inr f ↦ rw f (elim (Bool-cases (v.key == k)) [
      | inl g ↦ rw g refl
      | inr g ↦ rw g (first_value-set_current key k value vs ∙ rw f refl)
    ])
  ])
]

first_value-append :
    (k : String) (vars : List EnvVariable) (v : EnvVariable)
    → first_value k (vars ++ (v ∷ []))
      ≡ or_else (first_value k vars) (if v.key == k then some v.current_value else none)
first_value-append k [] v = refl
first_value-append k (u ∷ vars) v = ground (arith, first_value-append k vars v)

first_value_absent :
    (k : String) (vars : List EnvVariable) → has_key k vars ≡ false → first_value k vars ≡ none
first_value_absent k [] h = refl
first_value_absent k (v ∷ vars) h = ground (arith, first_value_absent k vars)

first_value-patch_var :
    (uuid : ℕ → String) (key k value : String) (vars : List EnvVariable) (n : ℕ)
    → first_value k (patch_var uuid key value vars n).0
      ≡ (if key == k then some value else first_value k vars)
first_value-patch_var uuid key k value vars n = elim (Bool-cases (has_key key vars)) [
  | inl e ↦ rw e (
      first_value-set_current key k value vars
      ∙ rw e (elim (Bool-cases (key == k)) [ inl f ↦ rw f refl | inr f ↦ rw f refl ]))
  | inr e ↦ rw e (
      first_value-append k vars (mutated_variable (new_id uuid n) key value)
      ∙ elim (Bool-cases (key == k)) [
        | inl f ↦
            let none_yet : first_value k vars ≡ none =
              first_value_absent k vars (ap (λ j. has_key j vars) (sym (==-eq key k f)) ∙ e) in
            rw (f, none_yet) refl
        | inr f ↦ rw f (or_else-none (first_value k vars))
      ])
]

-- The keys of a dictionary are distinct.
abbrev pub DistinctKeys : Dict String → Type 0
DistinctKeys [] = Unit
DistinctKeys ((k, v) ∷ d) = (lookup k d ≡ none) × DistinctKeys d

-- After a patch, a key that the mutations give has its value there as the current one, and any other
-- key the one that it had.
pub first_value-patch_var_list :
    (uuid : ℕ → String) (k : String) (mutations : Dict String) (vars : List EnvVariable) (n : ℕ)
    → DistinctKeys mutations
    → first_value k (patch_var_list uuid vars mutations n).0
      ≡ or_else (lookup k mutations) (first_value k vars)
unfolding patch_var_list
first_value-patch_var_list uuid k [] vars n u = refl
first_value-patch_var_list uuid k ((key, value) ∷ mutations) vars n (h, u) =
    let step = patch_var uuid key value vars n in
    first_value-patch_var_list uuid k mutations step.0 step.1 u
    ∙ rw (first_value-patch_var uuid key k value vars n) (elim (Bool-cases (key == k)) [
      | inl e ↦
          let absent : lookup k mutations ≡ none =
            ap (λ j. lookup j mutations) (sym (==-eq key k e)) ∙ h in
          rw (absent, e) refl
      | inr e ↦ rw e refl
    ])
