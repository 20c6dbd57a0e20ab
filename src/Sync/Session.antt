-- ===== src/Sync/Session.antt =====
-- gui/web/src/hooks/use-workspace-sync.ts: `useWorkspaceSync`, the loading of the two lists and the
-- subscription that sends each later change of the workspace to the server.
use reqlet.Common.{Bool, true, false, Option, none, some, List, [], ◌∷◌, ◌++◌}
use reqlet.Types.Collection.{Collection, Environment}
use reqlet.Workspace.Store.{WorkspaceState, set_collections, set_environments}
use reqlet.Sync.{Call, sync_collection_diff, sync_environment_diff}
use reqlet.Sync.Server.{Server, answers}

-- The tests of `===` on objects and on arrays.
pub record Identity : Type 0 where
  pub same_collection : Collection → Collection → Bool
  pub same_environment : Environment → Environment → Bool
  pub same_collections : List Collection → List Collection → Bool
  pub same_environments : List Environment → List Environment → Bool

-- The store, the data of the two queries and the flag of the hook.
pub record Client : Type 0 where
  pub workspace : WorkspaceState
  pub collections : Option (List Collection)
  pub environments : Option (List Environment)
  pub sync_ready : Bool

-- The calls to the server, in their order.
pub record Calls : Type 0 where
  pub to_collections : List (Call Collection)
  pub to_environments : List (Call Environment)

abbrev pub no_calls : Calls
no_calls = record { to_collections = List.[]; to_environments = List.[] }

abbrev pub then_calls : Calls → Calls → Calls
then_calls k l = record {
  to_collections = k.to_collections ++ l.to_collections;
  to_environments = k.to_environments ++ l.to_environments;
}

-- The subscriber.
unfoldable pub notify : Identity → Bool → WorkspaceState → WorkspaceState → Calls
notify same false state prev_state = no_calls
notify same true state prev_state = record {
  to_collections =
      sync_collection_diff same.same_collection
        (same.same_collections state.collections prev_state.collections) state.collections
        prev_state.collections;
  to_environments =
      sync_environment_diff same.same_environment
        (same.same_environments state.environments prev_state.environments) state.environments
        prev_state.environments;
}

-- A change of the store, of which the subscriber is told.
unfoldable pub set_state : Identity → WorkspaceState → Client → Client × Calls
unfolding notify
set_state same state c =
    (record c { workspace = state }, notify same c.sync_ready state c.workspace)

-- The effect, where both lists are there.
abbrev pub load_lists : Identity → List Collection → List Environment → Client → Client × Calls
load_lists same collections environments c =
    let (c1, calls1) =
      set_state same (set_collections c.workspace collections) (record c { sync_ready = false }) in
    let (c2, calls2) = set_state same (set_environments c1.workspace environments) c1 in
    (record c2 { sync_ready = true }, then_calls calls1 calls2)

-- `if (!collections || !environments) return`
abbrev pub load_given :
    Identity → Option (List Collection) → Option (List Environment) → Client → Client × Calls
load_given same none environments c = (c, no_calls)
load_given same (some collections) none c = (c, no_calls)
load_given same (some collections) (some environments) c =
    load_lists same collections environments c

unfoldable pub load : Identity → Client → Client × Calls
unfolding set_state set_collections set_environments
load same c = load_given same c.collections c.environments c

pub data Happening : Type 0 where
  collections_arrive : List Collection → Happening
  environments_arrive : List Environment → Happening
  state_changes : WorkspaceState → Happening

-- What happens: the data of a query arrives, after which the effect runs, or an action of the store.
unfoldable pub react : Identity → Happening → Client → Client × Calls
unfolding load
react same (collections_arrive collections) c =
    load same (record c { collections = some collections })
react same (environments_arrive environments) c =
    load same (record c { environments = some environments })
react same (state_changes state) c = set_state same state c

-- The client with what the server holds.
pub record Session : Type 0 where
  pub client : Client
  pub held_collections : Server Collection
  pub held_environments : Server Environment

abbrev pub answered : Session → Client × Calls → Session
answered s (c, calls) = record {
  client = c;
  held_collections = answers (λ x. x.id) calls.to_collections s.held_collections;
  held_environments = answers (λ x. x.id) calls.to_environments s.held_environments;
}

unfoldable pub session_step : Identity → Happening → Session → Session
unfolding react
session_step same e s = answered s (react same e s.client)

unfoldable pub session : Identity → List Happening → Session → Session
unfolding session_step
session same [] s = s
session same (e ∷ es) s = session same es (session_step same e s)
