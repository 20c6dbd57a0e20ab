-- ===== src/Mutations/Scopes.antt =====
-- The three scopes after a script's changes are written back.
use reqlet.Common.{String, Option, none, some, if◌then◌else◌, ◌==◌, or_else}
use reqlet.Common.Dict.{Dict, lookup}
use reqlet.Types.Collection.{Collection}
use reqlet.Mutations.Laws.{DistinctKeys}

-- What the mutations of one scope give a key.
abbrev pub mutated : String → Option (Dict String) → Option String
mutated key none = none
mutated key (some mutations) = lookup key mutations

abbrev pub DistinctIfAny : Option (Dict String) → Type 0
DistinctIfAny none = Unit
DistinctIfAny (some mutations) = DistinctKeys mutations

-- The value of a key after the mutations of a scope that is the chosen one.
abbrev pub value_after :
    String → Option (Dict String) → Option String → String → Option String → Option String
value_after key mutations none id old = old
value_after key mutations (some chosen_id) id old =
    if id == chosen_id then or_else (mutated key mutations) old else old
