-- ===== src/Runs/CutOff.antt =====
-- gui/web/src/components/layout/collection-pane.tsx: what becomes of a run whose stream the pane
-- closes, because another run starts or because the pane leaves the page.
use reqlet.Common.{
  ℕ, ◌≡◌, refl, ap, ◌∙◌, ◌≢◌, ◌⊎◌, inl, inr, String, Option, none, some, List, [], ◌∷◌, ◌++◌,
  Bool-cases, ==-false, length, All, All-append,
}
use reqlet.Common.Dict.{lookup, lookup-insert}
use reqlet.Types.Run.{RunOptions}
use reqlet.Types.Collection.{Collection, FolderItem}
use reqlet.Scope.Merge.{VariableScope}
use reqlet.Runs.{started, start_run}
use reqlet.Runs.Machine.{lookup-perform_all}
use reqlet.Runs.Pane.{
  OpenStream, RunPane, Asked, runs_as, fails, PaneEvent, begins, ends, arrives, leaves, opened_for,
  close_ref, hear, begin_run, end_run, arrive, leave, pane_event, pane_all,
}
use reqlet.Runs.Streams.{
  OneOpen, IsClosed, IsDeafTo, OneOpen-hear, hear-IsDeafTo, close_ref-OneOpen, OneOpen-closed,
  IsDeafTo-closed, close_ref-IsDeafTo,
}

OneOpen-opened :
    (n : ℕ) (run_id : String) (os : List OpenStream)
    → All IsClosed os
    → OneOpen (some n) (os ++ (opened_for n run_id ∷ []))
OneOpen-opened n run_id os closed =
    All-append (λ o. IsClosed o ⊎ (some n ≡ some o.number)) os (opened_for n run_id ∷ [])
      (OneOpen-closed (some n) os closed) (inr refl, tt)

begin_run-streams :
    (collection : Option Collection) (folder : Option FolderItem) (opts : RunOptions)
    (scope : VariableScope) (p : RunPane)
    → ((begin_run collection folder opts scope p).0.streams ≡ p.streams)
      × ((begin_run collection folder opts scope p).0.cleanup ≡ p.cleanup)
      × ((begin_run collection folder opts scope p).0.runs ≡ p.runs)
unfolding begin_run
begin_run-streams none folder opts scope p = (refl, refl, refl)
begin_run-streams (some c) folder opts scope p = elim (Bool-cases p.is_starting) [
  | inl e ↦ rw e (refl, refl, refl)
  | inr e ↦ rw e (refl, refl, refl)
]

OneOpen-pane_event :
    (p : RunPane) (e : PaneEvent)
    → OneOpen p.cleanup p.streams
    → OneOpen (pane_event p e).cleanup (pane_event p e).streams
unfolding pane_event end_run arrive leave
OneOpen-pane_event p (begins collection folder opts scope) h =
    let (same, at, runs) = begin_run-streams collection folder opts scope p in rw (same, at) h
OneOpen-pane_event p (ends now asked (runs_as run_id)) h =
    OneOpen-opened (length p.streams) run_id (close_ref p.cleanup p.streams)
      (close_ref-OneOpen p.cleanup p.streams h)
OneOpen-pane_event p (ends now asked (fails text)) h = h
OneOpen-pane_event p (arrives n a) h = OneOpen-hear p.cleanup n a p.streams h
OneOpen-pane_event p leaves h =
    OneOpen-closed p.cleanup (close_ref p.cleanup p.streams)
      (close_ref-OneOpen p.cleanup p.streams h)

OneOpen-pane_all :
    (p : RunPane) (es : List PaneEvent)
    → OneOpen p.cleanup p.streams
    → OneOpen (pane_all p es).cleanup (pane_all p es).streams
unfolding pane_all
OneOpen-pane_all p [] h = h
OneOpen-pane_all p (e ∷ es) h = OneOpen-pane_all (pane_event p e) es (OneOpen-pane_event p e h)

-- An event that does not start the run of the id.
abbrev pub StartsOther : String → PaneEvent → Type 0
StartsOther id (begins collection folder opts scope) = Unit
StartsOther id (ends now asked (runs_as run_id)) = run_id ≢ id
StartsOther id (ends now asked (fails text)) = Unit
StartsOther id (arrives n a) = Unit
StartsOther id leaves = Unit

-- Where no stream of a run is open, an event that does not start the run does not change it.
pane_event-IsDeafTo :
    (id : String) (p : RunPane) (e : PaneEvent)
    → StartsOther id e
    → All (IsDeafTo id) p.streams
    → All (IsDeafTo id) (pane_event p e).streams
      × (lookup id (pane_event p e).runs.runs ≡ lookup id p.runs.runs)
unfolding pane_event end_run arrive leave start_run
pane_event-IsDeafTo id p (begins collection folder opts scope) other h =
    let (same, at, runs) = begin_run-streams collection folder opts scope p in
    (rw same h, ap (λ s. lookup id s.runs) runs)
pane_event-IsDeafTo id p (ends now asked (runs_as run_id)) other h = (
  All-append (IsDeafTo id) (close_ref p.cleanup p.streams)
      (opened_for (length p.streams) run_id ∷ []) (close_ref-IsDeafTo id p.cleanup p.streams h)
      (inr other, tt),
  lookup-insert run_id id (started now asked.collection_id asked.folder_id) p.runs.runs
      ∙ rw (==-false run_id id other) refl,
)
pane_event-IsDeafTo id p (ends now asked (fails text)) other h = (h, refl)
pane_event-IsDeafTo id p (arrives n a) other h =
    let (deaf, same) = hear-IsDeafTo id (lookup id p.runs.runs) n a p.streams h in
    (deaf, lookup-perform_all p.runs (hear n a p.streams).1 id ∙ same)
pane_event-IsDeafTo id p leaves other h = (close_ref-IsDeafTo id p.cleanup p.streams h, refl)

pane_all-IsDeafTo :
    (id : String) (p : RunPane) (later : List PaneEvent)
    → All (StartsOther id) later
    → All (IsDeafTo id) p.streams
    → lookup id (pane_all p later).runs.runs ≡ lookup id p.runs.runs
unfolding pane_all
pane_all-IsDeafTo id p [] others h = refl
pane_all-IsDeafTo id p (e ∷ later) (other, others) h =
    let (deaf, same) = pane_event-IsDeafTo id p e other h in
    pane_all-IsDeafTo id (pane_event p e) later others deaf ∙ same

-- From a pane that has opened no stream yet, after any events: when the answer to a click starts a
-- run with another id than a given one, or when the pane leaves the page, no later events that start
-- no run with the given id change the run of that id in the store, whatever arrives on whatever
-- stream and in whatever order.
pub cut_off_run_stays :
    (p : RunPane) (es later : List PaneEvent) (id next_id now : String) (asked : Asked)
    → p.streams ≡ []
    → next_id ≢ id
    → All (StartsOther id) later
    → let before = pane_all p es in
      (lookup id (pane_all (pane_event before (ends now asked (runs_as next_id))) later).runs.runs
        ≡ lookup id before.runs.runs)
      × (lookup id (pane_all (pane_event before leaves) later).runs.runs
          ≡ lookup id before.runs.runs)
unfolding pane_event end_run leave start_run
cut_off_run_stays p es later id next_id now asked fresh ne others =
    let before = pane_all p es in
    let one : OneOpen before.cleanup before.streams = OneOpen-pane_all p es (rw fresh tt) in
    let closed = close_ref-OneOpen before.cleanup before.streams one in
    let deaf = IsDeafTo-closed id (close_ref before.cleanup before.streams) closed in
    (
      pane_all-IsDeafTo id (pane_event before (ends now asked (runs_as next_id))) later others (
            All-append (IsDeafTo id) (close_ref before.cleanup before.streams)
              (opened_for (length before.streams) next_id ∷ []) deaf (inr ne, tt))
          ∙ lookup-insert next_id id (started now asked.collection_id asked.folder_id)
              before.runs.runs
          ∙ rw (==-false next_id id ne) refl,
      pane_all-IsDeafTo id (pane_event before leaves) later others deaf,
    )
