-- ===== src/Scope/Resolve.antt =====
-- gui/web/src/hooks/use-variable-scope.ts, `resolveRecursive`: references within the values of
-- variables are resolved depth first. The memo `resolved` is passed on from call to call; `visiting`
-- is a list, since every call leaves the set as it found it.
pub mod Total
pub mod Memo
pub mod Sound
pub mod Fixpoint
use reqlet.Common.{
  ℕ, zero, suc, ◌<◌, String, ◌<>◌, Bool, Option, none, some, List, [], ◌∷◌, if◌then◌else◌, ◌==◌,
  length, any,
}
use reqlet.Common.Dict.{Dict, lookup, insert, keys}
use Prim.Native.Char.{Char}
use Prim.Native.String as Text
use reqlet.Scope.Template.{Piece, plain, variable, pieces, token}

abbrev pub Resolved : Type 0
Resolved = Option (String × Dict String)

abbrev pub is_visited : String → List String → Bool
is_visited key visiting = any (λ k. k == key) visiting

-- `resolved.set(key, result); return result`
abbrev pub memoize : String → Resolved → Resolved
memoize key none = none
memoize key (some (result, resolved)) = some (result, insert key result resolved)

-- The callback of `replace`; `inner` is the recursive call of `resolveValue`.
abbrev pub resolve_key :
    (List String → String → Dict String → Resolved)
    → Dict String
    → List String
    → String
    → Dict String
    → Resolved
resolve_key inner raw_map visiting key resolved =
    if is_visited key visiting then some (token key, resolved) else elim (lookup key raw_map) [
      | none ↦ some (token key, resolved)
      | some raw ↦ elim (lookup key resolved) [
        | some value ↦ some (value, resolved)
        | none ↦ memoize key (inner (key ∷ visiting) raw resolved)
      ]
    ]

abbrev one : Char → String
one c = Text.◌∷◌ c Text.[]

abbrev pub prepend : String → Resolved → Resolved
prepend s none = none
prepend s (some (t, resolved)) = some (s <> t, resolved)

-- `replace` over the pieces of a value, from left to right.
unfoldable pub resolve_pieces :
    (List String → String → Dict String → Resolved)
    → Dict String
    → List String
    → List Piece
    → Dict String
    → Resolved
resolve_pieces inner raw_map visiting [] resolved = some ("", resolved)
resolve_pieces inner raw_map visiting (plain c ∷ ps) resolved =
    prepend (one c) (resolve_pieces inner raw_map visiting ps resolved)
resolve_pieces inner raw_map visiting (variable key ∷ ps) resolved =
    elim (resolve_key inner raw_map visiting key resolved) [
      | none ↦ none
      | some (value, after) ↦ prepend value (resolve_pieces inner raw_map visiting ps after)
    ]

unfoldable pub resolve_value : Dict String → ℕ → List String → String → Dict String → Resolved
unfolding resolve_pieces
resolve_value raw_map zero visiting value resolved = none
resolve_value raw_map (suc fuel) visiting value resolved =
    resolve_pieces (resolve_value raw_map fuel) raw_map visiting (pieces value) resolved

abbrev pub second : Resolved → Option (Dict String)
second none = none
second (some (value, resolved)) = some resolved

-- One round of the loop over `rawMap.keys()`.
abbrev pub resolve_entry : Dict String → ℕ → String → Dict String → Option (Dict String)
resolve_entry raw_map fuel key resolved = elim (lookup key resolved) [
  | some value ↦ some resolved
  | none ↦ elim (lookup key raw_map) [
    | none ↦ some resolved
    | some raw ↦ second (memoize key (resolve_value raw_map fuel (key ∷ []) raw resolved))
  ]
]

unfoldable pub resolve_keys : Dict String → ℕ → List String → Dict String → Option (Dict String)
unfolding resolve_value
resolve_keys raw_map fuel [] resolved = some resolved
resolve_keys raw_map fuel (key ∷ ks) resolved = elim (resolve_entry raw_map fuel key resolved) [
  | none ↦ none
  | some after ↦ resolve_keys raw_map fuel ks after
]

-- A nested call visits one key more of the map, so its depth is at most the number of entries.
unfoldable pub resolve_recursive : Dict String → Option (Dict String)
unfolding resolve_keys
resolve_recursive raw_map = resolve_keys raw_map (length raw_map) (keys raw_map) []
