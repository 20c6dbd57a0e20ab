-- ===== src/Scope/Resolve/Fixpoint.antt =====
-- What `resolveRecursive` returns when no value refers to its own key, directly or through others.
use reqlet.Scope.Resolve.Memo.{Within-none, Good, Settled, Extends, Good-Within, Settled-Extends}
use mathlib.Core.Path.{subst}
use mathlib.Core.Option
use reqlet.Common.{
  ℕ, suc, ◌≡◌, refl, sym, ap, ◌∙◌, inl, inr, String, none, some, List, [], ◌∷◌, arith, ◌==◌,
  Bool-cases, Option-cases, ==-eq, length, All,
}
use reqlet.Common.Dict.{Dict, lookup, keys}
use reqlet.Scope.Template.{apply_variables}
use reqlet.Scope.Resolve.Total.{resolve_recursive-Returns}
use reqlet.Scope.Resolve.{
  Resolved, memoize, resolve_value, second, resolve_entry, resolve_keys, resolve_recursive,
}
use reqlet.Scope.Resolve.Sound.{Ranked, memoize_sound, resolve_value-Sound}

second-some :
    (n : Dict String) (o : Resolved) → second o ≡ some n → (t : String) × (o ≡ some (t, n))
second-some n none e = cc
second-some n (some (t, m)) e = (t, cc)

module _ (raw_map : Dict String) (rank : String → ℕ) where
  resolve_entry_sound :
      Ranked raw_map rank
      → (fuel : ℕ) (key : String) (m n : Dict String) → Good raw_map m
      → resolve_entry raw_map fuel key m ≡ some n
      → Good raw_map n × Extends raw_map m n × Settled raw_map n key
  resolve_entry_sound ranked fuel key m n g e = elim (Option-cases (lookup key m)) [
    | inr (w, z) ↦
        let is : resolve_entry raw_map fuel key m ≡ some m = rw (resolve_entry, z) refl in
        let same : m ≡ n = cc in
        subst (λ t. Good raw_map t × Extends raw_map m t × Settled raw_map t key) same
          (g, λ k v f. f, inr (w, z))
    | inl z ↦ elim (Option-cases (lookup key raw_map)) [
      | inl y ↦
          let is : resolve_entry raw_map fuel key m ≡ some m = rw (resolve_entry, z, y) refl in
          let same : m ≡ n = cc in
          subst (λ t. Good raw_map t × Extends raw_map m t × Settled raw_map t key) same
            (g, λ k v f. f, inl y)
      | inr (v, y) ↦
          let is : resolve_entry raw_map fuel key m
              ≡ second (memoize key (resolve_value raw_map fuel (key ∷ []) v m)) =
            rw (resolve_entry, z, y) refl in
          let (s, f) =
            second-some n (memoize key (resolve_value raw_map fuel (key ∷ []) v m)) (sym is ∙ e) in
          let (good, x, same, settled) =
            memoize_sound raw_map rank
              (λ visiting value k. resolve_value raw_map fuel visiting value k) (suc (rank key)) []
              tt
              (λ j u t k l w under gk f.
                resolve_value-Sound raw_map rank ranked fuel (rank j) (j ∷ []) u t k l
                  (omega arith, tt) (ranked j u w) gk f)
              key v s m n y (omega arith) g f in
          (good, x, settled)
    ]
  ]

  resolve_keys_sound :
      Ranked raw_map rank
      → (fuel : ℕ) (ks : List String) (m n : Dict String) → Good raw_map m
      → resolve_keys raw_map fuel ks m ≡ some n
      → Good raw_map n × Extends raw_map m n × All (Settled raw_map n) ks
  unfolding resolve_keys
  resolve_keys_sound ranked fuel [] m n g e =
      let same : m ≡ n = cc in
      subst (λ t. Good raw_map t × Extends raw_map m t × Unit {0}) same (g, λ k v f. f, tt)
  resolve_keys_sound ranked fuel (key ∷ ks) m n g e =
      elim (Option-cases (resolve_entry raw_map fuel key m)) [
        | inl z ↦
            let stuck : resolve_keys raw_map fuel (key ∷ ks) m ≡ none = rw (resolve_keys, z) refl in
            cc
        | inr (k, z) ↦
            let step : resolve_keys raw_map fuel (key ∷ ks) m ≡ resolve_keys raw_map fuel ks k =
              rw (resolve_keys, z) refl in
            let (gk, xk, sk) = resolve_entry_sound ranked fuel key m k g z in
            let (gn, x, sn) = resolve_keys_sound ranked fuel ks k n gk (sym step ∙ e) in
            (gn, λ j w f. x j w (xk j w f), (Settled-Extends raw_map k n key x sk, sn))
      ]

All-keys {ℓ} :
    (P : String → Type ℓ) (d : Dict String) (key v : String)
    → All P (keys d)
    → lookup key d ≡ some v
    → P key
All-keys P [] key v a e = cc
All-keys P ((k, w) ∷ d) key v (p, a) e = elim (Bool-cases (k == key)) [
  | inl h ↦ subst P (==-eq k key h) p
  | inr h ↦ All-keys P d key v a (ground arith)
]

-- If the values of a map do not refer to each other in a cycle (each refers to keys of a lower rank
-- alone), then the resolved values are those of the map with every reference to a key of the map
-- replaced by the resolved value of that key, and no other key has a value.
pub resolve_recursive_fixpoint :
    (raw_map : Dict String) (rank : String → ℕ)
    → Ranked raw_map rank
    → (resolved : Dict String) × (resolve_recursive raw_map ≡ some resolved)
      × ((key : String)
          → lookup key resolved ≡ Option.map (λ v. apply_variables v resolved) (lookup key raw_map))
unfolding resolve_recursive apply_variables
resolve_recursive_fixpoint raw_map rank ranked =
    let (resolved, e) = resolve_recursive-Returns raw_map in
    let (good, x, settled) =
      resolve_keys_sound raw_map rank ranked (length raw_map) (keys raw_map) [] resolved
        (λ k w f. cc) e in
    (resolved, e, λ key. value_of resolved good settled key)
  where
    value_of :
        (resolved : Dict String)
        → Good raw_map resolved
        → All (Settled raw_map resolved) (keys raw_map)
        → (key : String)
        → lookup key resolved ≡ Option.map (λ v. apply_variables v resolved) (lookup key raw_map)
    value_of resolved good settled key = elim (Option-cases (lookup key raw_map)) [
      | inl z ↦ rw z (Within-none raw_map resolved key (Good-Within raw_map resolved good) z)
      | inr (v, z) ↦ elim (All-keys (Settled raw_map resolved) raw_map key v settled z) [
        | inl y ↦ cc
        | inr (w, f) ↦
            let (u, is, same, refs) = good key w f in
            let u_is_v : u ≡ v = cc in
            rw z (f ∙ ap some (same ∙ ap (λ t. apply_variables t resolved) u_is_v))
      ]
    ]
