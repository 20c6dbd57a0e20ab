-- ===== src/Runs/Consistent.antt =====
-- The status of a run of gui/web/src/store/runs.ts and its result.
use reqlet.Common.{
  ◌≡◌, refl, sym, inl, inr, String, Option, none, some, List, [], ◌∷◌, if◌then◌else◌, ◌==◌,
  Bool-cases,
}
use reqlet.Common.Dict.{lookup}
use mathlib.Core.Path.{subst}
use reqlet.Types.Run.{RunSummary}
use reqlet.Runs.{RunStatus, running, done, RunState, with_event, with_summary, with_error, no_runs}
use reqlet.Runs.Machine.{
  changed, Action, start, append, finish, fail, reset, perform_all, step, steps, lookup-perform_all,
}

-- A run that is running has neither a summary nor an error; one that is done has a summary; one
-- that failed has an error.
abbrev pub Consistent : RunState → Type 0
Consistent r = elim r.status as (λ s. Type 0) [
  | running ↦ (r.summary ≡ none) × (r.error ≡ none)
  | done ↦ (x : RunSummary) × (r.summary ≡ some x)
  | RunStatus.error ↦ (m : String) × (r.error ≡ some m)
]

abbrev pub ConsistentIfAny : Option RunState → Type 0
ConsistentIfAny none = Unit
ConsistentIfAny (some r) = Consistent r

ConsistentIfAny-change :
    (id : String) (run : Option RunState) (run_id : String) (change : RunState → RunState)
    → ConsistentIfAny run
    → ((r : RunState) → Consistent r → Consistent (change r))
    → ConsistentIfAny (if run_id == id then changed change run else run)
ConsistentIfAny-change id none run_id change c keeps = elim (Bool-cases (run_id == id)) [
  | inl e ↦ rw e tt
  | inr e ↦ rw e tt
]
ConsistentIfAny-change id (some r) run_id change c keeps = elim (Bool-cases (run_id == id)) [
  | inl e ↦ rw e (keeps r c)
  | inr e ↦ rw e c
]

ConsistentIfAny-step :
    (id : String) (run : Option RunState) (a : Action)
    → ConsistentIfAny run
    → ConsistentIfAny (step id run a)
ConsistentIfAny-step id run (start now run_id collection_id folder_id) c =
    elim (Bool-cases (run_id == id)) [ inl e ↦ rw e (refl, refl) | inr e ↦ rw e c ]
ConsistentIfAny-step id run (append run_id event) c =
    ConsistentIfAny-change id run run_id (with_event event) c (λ r k. k)
ConsistentIfAny-step id run (finish run_id summary) c =
    ConsistentIfAny-change id run run_id (with_summary summary) c (λ r k. (summary, refl))
ConsistentIfAny-step id run (fail run_id message) c =
    ConsistentIfAny-change id run run_id (with_error message) c (λ r k. (message, refl))
ConsistentIfAny-step id run reset c = tt

ConsistentIfAny-steps :
    (id : String) (run : Option RunState) (actions : List Action)
    → ConsistentIfAny run
    → ConsistentIfAny (steps id run actions)
ConsistentIfAny-steps id run [] c = c
ConsistentIfAny-steps id run (a ∷ rest) c =
    ConsistentIfAny-steps id (step id run a) rest (ConsistentIfAny-step id run a c)

-- After any actions on the empty store, every run is consistent.
pub perform_all-Consistent :
    (actions : List Action) (id : String)
    → ConsistentIfAny (lookup id (perform_all no_runs actions).runs)
perform_all-Consistent actions id =
    subst ConsistentIfAny (sym (lookup-perform_all no_runs actions id))
      (ConsistentIfAny-steps id none actions tt)
