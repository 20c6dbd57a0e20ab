-- ===== src/Scope/Resolve/Total.antt =====
-- The fuel of `resolve_recursive`, against the keys of the map that are not yet visited.
use reqlet.Common.{
  ℕ, zero, suc, ◌≤◌, ◌<◌, ◌≡◌, refl, ap, inl, inr, String, ◌<>◌, true, false, Option, some, List,
  [], ◌∷◌, arith, if◌then◌else◌, ◌==◌, Bool-cases, Option-cases, ==-refl, ==-eq, length,
}
use reqlet.Common.Dict.{Dict, lookup, insert, keys}
use reqlet.Scope.Template.{Piece, plain, variable, pieces}
use reqlet.Scope.Resolve.{
  Resolved, is_visited, memoize, resolve_key, prepend, resolve_pieces, resolve_value, second,
  resolve_entry, resolve_keys, resolve_recursive,
}

abbrev pub Returns {ℓ} : {A : Type ℓ} → Option A → Type ℓ
Returns {A} o = (a : A) × (o ≡ some a)

-- How many entries of a map have a key that is not visited.
abbrev unvisited : Dict String → List String → ℕ
unvisited [] visiting = 0
unvisited ((k, v) ∷ d) visiting =
    let rest = unvisited d visiting in if is_visited k visiting then rest else suc rest

unvisited_le :
    (d : Dict String) (key : String) (visiting : List String)
    → unvisited d (key ∷ visiting) ≤ unvisited d visiting
unvisited_le [] key visiting = omega arith
unvisited_le ((k, v) ∷ d) key visiting = ground (arith, unvisited_le d key visiting)

unvisited_lt :
    (d : Dict String) (key v : String) (visiting : List String)
    → lookup key d ≡ some v
    → is_visited key visiting ≡ false
    → unvisited d (key ∷ visiting) < unvisited d visiting
unvisited_lt [] key v visiting e h = cc
unvisited_lt ((k, w) ∷ d) key v visiting e h = elim (Bool-cases (k == key)) [
  | inl same ↦
      let is_key : k ≡ key = ==-eq k key same in
      let back : (key == k) ≡ true = rw is_key (==-refl key) in
      let fresh : is_visited k visiting ≡ false = rw is_key h in
      rw (back, fresh) (ground (arith, unvisited_le d key visiting))
  | inr differ ↦
      let later : lookup key d ≡ some v = ground arith in
      ground (arith, unvisited_lt d key v visiting later h)
]

Returns-prepend : (s : String) (o : Resolved) → Returns o → Returns (prepend s o)
Returns-prepend s o ((t, m), e) = rw e ((s <> t, m), refl)

Returns-memoize : (s : String) (o : Resolved) → Returns o → Returns (memoize s o)
Returns-memoize s o ((t, m), e) = rw e ((t, insert s t m), refl)

module _ (inner : List String → String → Dict String → Resolved) (raw_map : Dict String)
    (visiting : List String)
    (inner_returns : (key v : String) (m : Dict String)
      → lookup key raw_map ≡ some v
      → is_visited key visiting ≡ false
      → Returns (inner (key ∷ visiting) v m)) where
  Returns-resolve_key :
      (key : String) (m : Dict String) → Returns (resolve_key inner raw_map visiting key m)
  Returns-resolve_key key m = elim (Bool-cases (is_visited key visiting)) [
    | inl h ↦ rw h (_, refl)
    | inr h ↦ rw h (elim (Option-cases (lookup key raw_map)) [
      | inl e ↦ rw e (_, refl)
      | inr (v, e) ↦ rw e (elim (Option-cases (lookup key m)) [
        | inl z ↦ rw z (Returns-memoize key _ (inner_returns key v m e h))
        | inr (w, z) ↦ rw z (_, refl)
      ])
    ])
  ]

  Returns-resolve_pieces :
      (ps : List Piece) (m : Dict String) → Returns (resolve_pieces inner raw_map visiting ps m)
  unfolding resolve_pieces
  Returns-resolve_pieces [] m = (_, refl)
  Returns-resolve_pieces (plain c ∷ ps) m = Returns-prepend _ _ (Returns-resolve_pieces ps m)
  Returns-resolve_pieces (variable key ∷ ps) m =
      let ((value, after), e) = Returns-resolve_key key m in
      rw (resolve_pieces, e) (Returns-prepend value _ (Returns-resolve_pieces ps after))

Returns-resolve_value :
    (raw_map : Dict String) (fuel : ℕ) (visiting : List String) (value : String) (m : Dict String)
    → unvisited raw_map visiting < fuel
    → Returns (resolve_value raw_map fuel visiting value m)
unfolding resolve_value
Returns-resolve_value raw_map zero visiting value m h = ground arith
Returns-resolve_value raw_map (suc fuel) visiting value m h =
    Returns-resolve_pieces (resolve_value raw_map fuel) raw_map visiting
      (λ key v n e z.
        Returns-resolve_value raw_map fuel (key ∷ visiting) v n
          (omega (arith, unvisited_lt raw_map key v visiting e z)))
      (pieces value) m

unvisited_none : (d : Dict String) → unvisited d [] ≡ length d
unvisited_none [] = refl
unvisited_none ((k, v) ∷ d) = ap suc (unvisited_none d)

Returns-second : (o : Resolved) → Returns o → Returns (second o)
Returns-second o ((t, m), e) = rw e (m, refl)

Returns-resolve_entry :
    (raw_map : Dict String) (key : String) (m : Dict String)
    → Returns (resolve_entry raw_map (length raw_map) key m)
Returns-resolve_entry raw_map key m = elim (Option-cases (lookup key m)) [
  | inr (w, z) ↦ rw (resolve_entry, z) (_, refl)
  | inl z ↦
      rw (resolve_entry, z)
        (elim (Option-cases (lookup key raw_map)) [
          | inl e ↦ rw e (_, refl)
          | inr (v, e) ↦ rw e (
              Returns-second _ (
                Returns-memoize key _ (
                  Returns-resolve_value raw_map (length raw_map) (key ∷ []) v m
                    (omega (arith, unvisited_lt raw_map key v [] e refl, unvisited_none raw_map)))))
        ])
]

Returns-resolve_keys :
    (raw_map : Dict String) (ks : List String) (m : Dict String)
    → Returns (resolve_keys raw_map (length raw_map) ks m)
unfolding resolve_keys
Returns-resolve_keys raw_map [] m = (m, refl)
Returns-resolve_keys raw_map (key ∷ ks) m =
    let (after, e) = Returns-resolve_entry raw_map key m in
    rw (resolve_keys, e) (Returns-resolve_keys raw_map ks after)

-- Variables are resolved for every map, one whose values refer to each other in a cycle included.
pub resolve_recursive-Returns : (raw_map : Dict String) → Returns (resolve_recursive raw_map)
unfolding resolve_recursive
resolve_recursive-Returns raw_map = Returns-resolve_keys raw_map (keys raw_map) []
