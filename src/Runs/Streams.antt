-- ===== src/Runs/Streams.antt =====
-- gui/web/src/components/layout/collection-pane.tsx: the streams that the pane opened, which of them
-- are open, and the runs that an arrival on one can change.
use reqlet.Common.{
  ℕ, ◌≡◌, refl, ap, ◌∙◌, ◌≢◌, ◌⊎◌, inl, inr, String, Bool, true, false, Option, none, some, List,
  [], ◌∷◌, ◌++◌, arith, nat_eq, Bool-cases, All,
}
use mathlib.Core.Option.{some-injective}
use reqlet.Types.Run.{RunEvent, RunSummary}
use reqlet.Runs.{RunState}
use reqlet.Runs.Machine.{Action, start, reset, append, finish, fail, step, steps}
use reqlet.Runs.Stream.{
  Stream, Arrival, message, failure, final_summary, after_message, receive, close,
}
use reqlet.Runs.Pane.{OpenStream, close_if, close_ref, hear_one, hear}

-- An action on the run of an id that starts and resets nothing.
abbrev IsOn : String → Action → Type 0
IsOn id (append run_id event) = run_id ≡ id
IsOn id (finish run_id summary) = run_id ≡ id
IsOn id (fail run_id text) = run_id ≡ id
IsOn id (start now run_id collection_id folder_id) = ⊥
IsOn id reset = ⊥

IsOn-after_message :
    (id : String) (s : Stream) (evt : RunEvent) (final : Option RunSummary)
    → All (IsOn id) (after_message id s evt final).1
IsOn-after_message id s evt none = (refl, tt)
IsOn-after_message id s evt (some summary) = (refl, (refl, tt))

-- The actions of a stream are on its own run.
IsOn-receive : (id : String) (s : Stream) (a : Arrival) → All (IsOn id) (receive id s a).1
unfolding receive
IsOn-receive id s (message evt) = elim (Bool-cases s.closed) [
  | inl e ↦ rw e tt
  | inr e ↦ rw e (IsOn-after_message id (record s { closed = false }) evt (final_summary evt))
]
IsOn-receive id s failure = elim (Bool-cases s.closed) [
  | inl e ↦ rw e tt
  | inr e ↦ elim (Bool-cases s.completed) [ inl c ↦ rw (e, c) tt | inr c ↦ rw (e, c) (refl, tt) ]
]

step-IsOn :
    (id other : String) (run : Option RunState) (a : Action)
    → other ≢ id
    → IsOn other a
    → step id run a ≡ run
step-IsOn id other run (append run_id event) ne on = ground arith
step-IsOn id other run (finish run_id summary) ne on = ground arith
step-IsOn id other run (fail run_id text) ne on = ground arith
step-IsOn id other run (start now run_id collection_id folder_id) ne on = absurd on
step-IsOn id other run reset ne on = absurd on

steps-IsOn :
    (id other : String) (run : Option RunState) (actions : List Action)
    → other ≢ id
    → All (IsOn other) actions
    → steps id run actions ≡ run
steps-IsOn id other run [] ne on = refl
steps-IsOn id other run (a ∷ rest) ne (on, ons) =
    ap (λ r. steps id r rest) (step-IsOn id other run a ne on) ∙ steps-IsOn id other run rest ne ons

receive-closed :
    (id : String) (s : Stream) (a : Arrival) → s.closed ≡ true → receive id s a ≡ (s, [])
unfolding receive
receive-closed id s (message evt) h = rw h refl
receive-closed id s failure h = rw h refl

steps-append :
    (id : String) (run : Option RunState) (xs ys : List Action)
    → steps id run (xs ++ ys) ≡ steps id (steps id run xs) ys
steps-append id run [] ys = refl
steps-append id run (a ∷ xs) ys = steps-append id (step id run a) xs ys

-- Every stream is closed but the one that the reference closes.
abbrev pub OneOpen : Option ℕ → List OpenStream → Type 0
OneOpen cleanup = All (λ o. (o.stream.closed ≡ true) ⊎ (cleanup ≡ some o.number))

abbrev pub IsClosed : OpenStream → Type 0
IsClosed o = o.stream.closed ≡ true

-- No stream of the run is open.
abbrev pub IsDeafTo : String → OpenStream → Type 0
IsDeafTo id o = (o.stream.closed ≡ true) ⊎ (o.run_id ≢ id)

IsClosed-hear_one :
    (b : Bool) (a : Arrival) (o : OpenStream) → IsClosed o → IsClosed (hear_one b a o).0
unfolding hear_one
IsClosed-hear_one true a o h = rw (receive-closed o.run_id o.stream a h) h
IsClosed-hear_one false a o h = h

-- A stream keeps its number and its run, and once it is closed it stays closed.
pub OneOpen-hear :
    (cleanup : Option ℕ) (n : ℕ) (a : Arrival) (os : List OpenStream)
    → OneOpen cleanup os
    → OneOpen cleanup (hear n a os).0
unfolding hear hear_one
OneOpen-hear cleanup n a [] h = tt
OneOpen-hear cleanup n a (o ∷ os) (h, hs) =
    (one (nat_eq o.number n) h, OneOpen-hear cleanup n a os hs)
  where
    one :
        (b : Bool)
        → (IsClosed o ⊎ (cleanup ≡ some o.number))
        → IsClosed (hear_one b a o).0 ⊎ (cleanup ≡ some (hear_one b a o).0.number)
    one b (inl c) = inl (IsClosed-hear_one b a o c)
    one true (inr e) = inr e
    one false (inr e) = inr e

IsDeafTo-hear_one :
    (id : String) (b : Bool) (a : Arrival) (o : OpenStream)
    → IsDeafTo id o
    → IsDeafTo id (hear_one b a o).0
unfolding hear_one
IsDeafTo-hear_one id b a o (inl c) = inl (IsClosed-hear_one b a o c)
IsDeafTo-hear_one id true a o (inr ne) = inr ne
IsDeafTo-hear_one id false a o (inr ne) = inr ne

steps-hear_one :
    (id : String) (run : Option RunState) (b : Bool) (a : Arrival) (o : OpenStream)
    → IsDeafTo id o
    → steps id run (hear_one b a o).1 ≡ run
unfolding hear_one
steps-hear_one id run true a o (inl c) = rw (receive-closed o.run_id o.stream a c) refl
steps-hear_one id run true a o (inr ne) =
    steps-IsOn id o.run_id run (receive o.run_id o.stream a).1 ne (IsOn-receive o.run_id o.stream a)
steps-hear_one id run false a o h = refl

pub hear-IsDeafTo :
    (id : String) (run : Option RunState) (n : ℕ) (a : Arrival) (os : List OpenStream)
    → All (IsDeafTo id) os
    → All (IsDeafTo id) (hear n a os).0 × (steps id run (hear n a os).1 ≡ run)
unfolding hear hear_one
hear-IsDeafTo id run n a [] h = (tt, refl)
hear-IsDeafTo id run n a (o ∷ os) (h, hs) =
    let b = nat_eq o.number n in
    let (deaf, same) = hear-IsDeafTo id run n a os hs in
    (
      (IsDeafTo-hear_one id b a o h, deaf),
      steps-append id run (hear_one b a o).1 (hear n a os).1
          ∙ ap (λ r. steps id r (hear n a os).1) (steps-hear_one id run b a o h)
          ∙ same,
    )

-- After the reference is called, every stream is closed.
pub close_ref-OneOpen :
    (cleanup : Option ℕ) (os : List OpenStream)
    → OneOpen cleanup os
    → All IsClosed (close_ref cleanup os)
unfolding close_ref close
close_ref-OneOpen none [] h = tt
close_ref-OneOpen none (o ∷ os) (inl c, hs) = (c, close_ref-OneOpen none os hs)
close_ref-OneOpen none (o ∷ os) (inr e, hs) = absurd (ground (arith, e))
close_ref-OneOpen (some n) [] h = tt
close_ref-OneOpen (some n) (o ∷ os) (h, hs) = (
  elim (Bool-cases (nat_eq o.number n)) [ inl e ↦ rw e refl | inr e ↦ rw e (still h e) ],
  close_ref-OneOpen (some n) os hs,
)
  where
    still : (IsClosed o ⊎ (some n ≡ some o.number)) → nat_eq o.number n ≡ false → IsClosed o
    still (inl c) e = c
    still (inr same) e =
        let number : n ≡ o.number = some-injective _ _ same in absurd (ground arith)

pub OneOpen-closed :
    (cleanup : Option ℕ) (os : List OpenStream) → All IsClosed os → OneOpen cleanup os
OneOpen-closed cleanup [] h = tt
OneOpen-closed cleanup (o ∷ os) (c, hs) = (inl c, OneOpen-closed cleanup os hs)

pub IsDeafTo-closed : (id : String) (os : List OpenStream) → All IsClosed os → All (IsDeafTo id) os
IsDeafTo-closed id [] h = tt
IsDeafTo-closed id (o ∷ os) (c, hs) = (inl c, IsDeafTo-closed id os hs)

-- A call of the reference leaves the runs of the streams as they were.
pub close_ref-IsDeafTo :
    (id : String) (cleanup : Option ℕ) (os : List OpenStream)
    → All (IsDeafTo id) os
    → All (IsDeafTo id) (close_ref cleanup os)
unfolding close_ref close
close_ref-IsDeafTo id none os h = h
close_ref-IsDeafTo id (some n) [] h = tt
close_ref-IsDeafTo id (some n) (o ∷ os) (h, hs) =
    (one (nat_eq o.number n) h, close_ref-IsDeafTo id (some n) os hs)
  where
    one : (b : Bool) → IsDeafTo id o → IsDeafTo id (close_if b o)
    one true h = inl refl
    one false h = h
