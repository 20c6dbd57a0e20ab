-- ===== src/Sync/InStep.antt =====
-- What the server holds beside what the store of the client holds, while lists are loaded and changed
-- (gui/web/src/hooks/use-workspace-sync.ts).
use reqlet.Common.{◌≡◌, refl, ap, ◌∙◌, String, Bool, true, false, Option, none, some, List, [], ◌∷◌}
use reqlet.Types.Collection.{Collection, Environment}
use reqlet.Workspace.Store.{WorkspaceState, set_collections, set_environments}
use reqlet.Sync.{sync_diff, sync_collection_diff, sync_environment_diff}
use reqlet.Sync.Server.{Server, answers, held, Distinct, held-sync_diff}
use reqlet.Sync.Session.{
  Identity, Client, notify, set_state, load_given, load, Happening, collections_arrive,
  environments_arrive, state_changes, react, Session, answered, session_step, session,
}

abbrev id_of : Collection → String
id_of c = c.id

abbrev env_id_of : Environment → String
env_id_of e = e.id

-- The server holds a list in which no id stands twice.
abbrev pub IsHeld : {T : Type 0} → (T → String) → List T → Server T → Type 0
IsHeld id ts server = (server ≡ held id ts) × Distinct id ts

-- It holds the data of a query, if that has arrived.
abbrev pub IsCurrent : {T : Type 0} → (T → String) → Option (List T) → Server T → Type 0
IsCurrent id none server = Unit
IsCurrent id (some ts) server = IsHeld id ts server

-- It holds what the store holds.
abbrev pub Holds : Session → Type 0
Holds s =
    IsHeld id_of s.client.workspace.collections s.held_collections
    × IsHeld env_id_of s.client.workspace.environments s.held_environments

-- Once the lists are loaded, the server holds what the store holds.
abbrev pub InStep : Session → Type 0
InStep s = s.client.sync_ready ≡ true → Holds s

-- A list that arrives is what the server holds, and so is the other list as it was loaded; a change
-- leaves no id twice.
abbrev pub Suits : Happening → Session → Type 0
Suits (collections_arrive cs) s =
    IsHeld id_of cs s.held_collections
    × IsCurrent env_id_of s.client.environments s.held_environments
Suits (environments_arrive es) s =
    IsHeld env_id_of es s.held_environments
    × IsCurrent id_of s.client.collections s.held_collections
Suits (state_changes w) s = Distinct id_of w.collections × Distinct env_id_of w.environments

-- The same object has the same contents, and so has the same array.
abbrev pub IsIdentity : Identity → Type 0
IsIdentity same =
    ((a b : Collection) → same.same_collection a b ≡ true → a ≡ b)
    × ((a b : Environment) → same.same_environment a b ≡ true → a ≡ b)
    × ((a b : List Collection) → same.same_collections a b ≡ true → a ≡ b)
    × ((a b : List Environment) → same.same_environments a b ≡ true → a ≡ b)

module _ {T : Type 0} (id : T → String) (same : T → T → Bool) where
  same_server : (f g : Server T) → ((j : String) → f j ≡ g j) → f ≡ g
  same_server f g h = λ i j. h j i

  IsHeld-sync_diff :
      (curr prev : List T) (unchanged : Bool) (server : Server T)
      → (unchanged ≡ true → curr ≡ prev)
      → ((a b : T) → same a b ≡ true → a ≡ b)
      → Distinct id curr
      → IsHeld id prev server
      → IsHeld id curr (answers id (sync_diff id same unchanged curr prev) server)
  IsHeld-sync_diff curr prev unchanged server is same_is u (h, v) = (
    ap (answers id (sync_diff id same unchanged curr prev)) h
        ∙ same_server (answers id (sync_diff id same unchanged curr prev) (held id prev))
            (held id curr) (held-sync_diff id same curr prev v unchanged is same_is u),
    u,
  )

module _ (same : Identity) where
  load_given-InStep :
      (cs : Option (List Collection)) (es : Option (List Environment)) (c : Client) (s : Session)
      → IsCurrent id_of cs s.held_collections
      → IsCurrent env_id_of es s.held_environments
      → InStep (record s { client = c })
      → InStep (answered s (load_given same cs es c))
  unfolding set_state notify set_collections set_environments
  load_given-InStep none es c s hc he h = h
  load_given-InStep (some cs) none c s hc he h = h
  load_given-InStep (some cs) (some es) c s hc he h = λ ready. (hc, he)

  notify-Holds :
      IsIdentity same
      → (b : Bool) (w : WorkspaceState) (c : Client) (s : Session)
      → Distinct id_of w.collections × Distinct env_id_of w.environments
      → (b ≡ true → Holds (record s { client = c }))
      → b ≡ true
      → Holds (answered s (record c { workspace = w }, notify same b w c.workspace))
  unfolding notify sync_collection_diff sync_environment_diff
  notify-Holds is false w c s u h e = absurd (let clash : ⊥ = cc in clash)
  notify-Holds (is_c, is_e, are_cs, are_es) true w c s (uc, ue) h e =
      let (hc, he) = h refl in
      (
        IsHeld-sync_diff id_of same.same_collection w.collections c.workspace.collections
            (same.same_collections w.collections c.workspace.collections) s.held_collections
            (are_cs w.collections c.workspace.collections) is_c uc hc,
        IsHeld-sync_diff env_id_of same.same_environment w.environments c.workspace.environments
            (same.same_environments w.environments c.workspace.environments) s.held_environments
            (are_es w.environments c.workspace.environments) is_e ue he,
      )

  session_step-InStep :
      IsIdentity same
      → (e : Happening) (s : Session) → Suits e s
      → InStep s
      → InStep (session_step same e s)
  unfolding session_step react load set_state
  session_step-InStep is (collections_arrive cs) s (hc, he) h =
      load_given-InStep (some cs) s.client.environments (record s.client { collections = some cs })
        s hc he h
  session_step-InStep is (environments_arrive es) s (he, hc) h =
      load_given-InStep s.client.collections (some es) (record s.client { environments = some es })
        s hc he h
  session_step-InStep is (state_changes w) s u h =
      notify-Holds is s.client.sync_ready w s.client s u h

-- Each thing that happens suits what came before it.
abbrev pub SuitAll : Identity → List Happening → Session → Type 0
SuitAll same [] s = Unit
SuitAll same (e ∷ es) s = Suits e s × SuitAll same es (session_step same e s)

-- While the lists are loaded, in either order, and the workspace is changed, also between them, the
-- server holds exactly what the store holds as soon as both are loaded, if the calls are answered in
-- their order, no id stands twice, the same object has the same contents, and the lists that arrive
-- and the other list as it was last loaded are what the server holds.
pub session-InStep :
    (same : Identity) (es : List Happening) (s : Session)
    → IsIdentity same
    → SuitAll same es s
    → InStep s
    → InStep (session same es s)
unfolding session
session-InStep same [] s is suit h = h
session-InStep same (e ∷ es) s is (suit, later) h =
    session-InStep same es (session_step same e s) is later (session_step-InStep same is e s suit h)

reverted :
    (same : Identity) (c : Client) (s : Session) (cs : List Collection) (es : List Environment)
    (loaded : Option (List Environment))
    → loaded ≡ some es
    → let after = answered s (load_given same (some cs) loaded c) in
      (after.client.workspace.environments ≡ es) × (after.held_environments ≡ s.held_environments)
unfolding set_state notify set_collections set_environments
reverted same c s cs es none h = absurd (let clash : ⊥ = cc in clash)
reverted same c s cs es (some fs) h = (let eq : fs ≡ es = cc in eq, refl)

-- When the environments are changed and the collections are then fetched again, as after an import,
-- the store's environments are set back to those loaded before the change, and no call tells the
-- server, which keeps the changed ones.
pub refetch_reverts_environments :
    (same : Identity) (s : Session) (w : WorkspaceState) (cs : List Collection)
    (es : List Environment)
    → IsIdentity same
    → InStep s
    → s.client.sync_ready ≡ true
    → s.client.environments ≡ some es
    → Distinct id_of w.collections × Distinct env_id_of w.environments
    → let after = session same (state_changes w ∷ (collections_arrive cs ∷ [])) s in
      (after.client.workspace.environments ≡ es)
      × (after.held_environments ≡ held env_id_of w.environments)
unfolding session session_step react load set_state
refetch_reverts_environments same s w cs es is h ready loaded u =
    let changed = session_step same (state_changes w) s in
    let (reset, kept) =
      reverted same (record changed.client { collections = some cs }) changed cs es
        s.client.environments loaded in
    let (hc, he) = notify-Holds same is s.client.sync_ready w s.client s u h ready in
    (reset, kept ∙ he.0)
