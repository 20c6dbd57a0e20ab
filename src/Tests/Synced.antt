-- ===== src/Tests/Synced.antt =====
-- The loading of a workspace, a change of it, and an import, for the hook of the synchronization.
use reqlet.Common.{◌≡◌, refl, true, false, none, some, List, [], ◌∷◌, string_dec}
use reqlet.Types.Collection.{Collection, Environment}
use reqlet.Workspace.Store.{WorkspaceState, initial_state, set_collections, set_environments}
use reqlet.Sync.Server.{held, Distinct}
use reqlet.Sync.Session.{
  Identity, Session, collections_arrive, environments_arrive, state_changes, session, session_step,
  react, load, set_state, notify, Happening,
}
use reqlet.Sync.InStep.{IsIdentity, SuitAll, InStep, session-InStep, refetch_reverts_environments}
use reqlet.Tests.Data.{demo, second_collection, variable_named}

-- Each object and each array is made anew.
abbrev made_anew : Identity
made_anew = record {
  same_collection = λ a b. false;
  same_environment = λ a b. false;
  same_collections = λ a b. false;
  same_environments = λ a b. false;
}

made_anew-IsIdentity : IsIdentity made_anew
made_anew-IsIdentity = (λ a b h. cc, λ a b h. cc, λ a b h. cc, λ a b h. cc)

-- The page before anything is loaded.
abbrev opened : Session
opened = record {
  client = record {
    workspace = initial_state;
    collections = none;
    environments = none;
    sync_ready = false;
  };
  held_collections = held (λ c. c.id) demo.collections;
  held_environments = held (λ e. e.id) demo.environments;
}

-- The workspace after a collection was deleted and the variables of the environment were changed.
abbrev edited : WorkspaceState
edited = record demo {
  collections = second_collection ∷ [];
  environments =
      record { id = "e1"; name = "Environment"; variables = variable_named "v9" "token" "new" ∷ [] }
      ∷ [];
}

abbrev loading_and_change : List Happening
loading_and_change =
    collections_arrive demo.collections
    ∷ (environments_arrive demo.environments ∷ (state_changes edited ∷ []))

loading_and_change-SuitAll : SuitAll made_anew loading_and_change opened
unfolding string_dec session_step react load set_state notify set_collections set_environments
loading_and_change-SuitAll = (
  ((refl, (refl, (refl, tt))), tt),
  (((refl, (refl, tt)), (refl, (refl, (refl, tt)))), (((refl, tt), (refl, tt)), tt)),
)

session-InStep_example : InStep (session made_anew loading_and_change opened)
session-InStep_example =
    session-InStep made_anew loading_and_change opened made_anew-IsIdentity
      loading_and_change-SuitAll (λ h. absurd (let clash : ⊥ = cc in clash))

-- The page after both lists were loaded.
abbrev loaded : Session
loaded = record {
  client = record {
    workspace = demo;
    collections = some demo.collections;
    environments = some demo.environments;
    sync_ready = true;
  };
  held_collections = held (λ c. c.id) demo.collections;
  held_environments = held (λ e. e.id) demo.environments;
}

loaded-InStep : InStep loaded
unfolding string_dec
loaded-InStep h = ((refl, (refl, (refl, tt))), (refl, (refl, tt)))

edited-Distinct :
    Distinct (λ (c : Collection). c.id) edited.collections
    × Distinct (λ (e : Environment). e.id) edited.environments
unfolding string_dec
edited-Distinct = ((refl, tt), (refl, tt))

refetch_reverts_environments_example :
    let after =
      session made_anew
        (state_changes edited ∷ (collections_arrive demo.collections ∷ []))
        loaded in
    (after.client.workspace.environments ≡ demo.environments)
    × (after.held_environments ≡ held (λ (e : Environment). e.id) edited.environments)
refetch_reverts_environments_example =
    refetch_reverts_environments made_anew loaded edited demo.collections demo.environments
      made_anew-IsIdentity loaded-InStep refl refl edited-Distinct
