-- ===== src/Sync.antt =====
-- gui/web/src/hooks/use-workspace-sync.ts: the calls that a change of the workspace makes.
-- Collections and environments are synchronized in the same way: `T` is either, and `id` its id.
-- Objects are compared by identity: `same` is that test, a parameter, as is `unchanged`, whether the
-- two lists are the same array.
pub mod Server
pub mod Session
pub mod InStep
use reqlet.Common.{◌+◌, String, Bool, none, some, List, [], ◌∷◌, ◌++◌, if◌then◌else◌, ◌==◌, any}
use reqlet.Common.Dict.{Dict, lookup, insert, keys}
use reqlet.Types.Collection.{Collection, Environment}

pub data Call {ℓ} (T : Type ℓ) : Type ℓ where
  delete : String → Call T
  create : T → Call T
  update : String → T → Call T

module _ {ℓ} {T : Type ℓ} (id : T → String) (same : T → T → Bool) where
  -- `new Map(prev.map((c) => [c.id, c]))`, over the map built so far
  abbrev pub set_items : List T → Dict T → Dict T
  set_items [] prev_map = prev_map
  set_items (t ∷ ts) prev_map = set_items ts (insert (id t) t prev_map)

  abbrev pub has_id : String → List T → Bool
  has_id i curr = any (λ t. id t == i) curr

  -- `for (const [id] of prevMap)`: a call for each key that is no longer there
  abbrev pub deletions : List String → List T → List (Call T)
  deletions [] curr = []
  deletions (i ∷ is) curr =
      let rest = deletions is curr in if has_id i curr then rest else delete i ∷ rest

  -- `for (const col of curr)`: a call for each new or changed object
  abbrev pub changes : Dict T → List T → List (Call T)
  changes prev_map [] = []
  changes prev_map (t ∷ ts) =
      let rest = changes prev_map ts in
      elim (lookup (id t) prev_map) [
        | none ↦ create t ∷ rest
        | some p ↦ if same p t then rest else update (id t) t ∷ rest
      ]

  unfoldable pub sync_diff : Bool → List T → List T → List (Call T)
  sync_diff unchanged curr prev =
      let prev_map = set_items prev [] in
      if unchanged then [] else deletions (keys prev_map) curr ++ changes prev_map curr

unfoldable pub sync_collection_diff :
    (Collection → Collection → Bool)
    → Bool
    → List Collection
    → List Collection
    → List (Call Collection)
unfolding sync_diff
sync_collection_diff same unchanged curr prev = sync_diff (λ c. c.id) same unchanged curr prev

unfoldable pub sync_environment_diff :
    (Environment → Environment → Bool)
    → Bool
    → List Environment
    → List Environment
    → List (Call Environment)
unfolding sync_diff
sync_environment_diff same unchanged curr prev = sync_diff (λ e. e.id) same unchanged curr prev
