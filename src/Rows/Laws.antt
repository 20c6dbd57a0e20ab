-- ===== src/Rows/Laws.antt =====
-- What a cell of the table of a run shows.
use reqlet.Common.{
  or_else-none, ℕ, ◌≡◌, refl, ap, ◌∙◌, inl, inr, String, ◌&&◌, Option, none, some, List, [], ◌∷◌,
  arith, if◌then◌else◌, ◌==◌, nat_eq, or_else, Bool-cases, ==-eq,
}
use reqlet.Common.Dict.{Dict, lookup, lookup-insert}
use reqlet.Types.Run.{RunEvent}
use reqlet.Rows.{
  IterResult, RequestRowData, set_result, number_or, event_key, event_result, row_of, with_result,
  add_event, add_events,
}

abbrev pub result_at : ℕ → List (ℕ × IterResult) → Option IterResult
result_at i [] = none
result_at i ((j, r) ∷ results) =
    let rest = result_at i results in if nat_eq j i then some r else rest

-- The result that the table has for a request and an iteration.
abbrev pub cell_of : ℕ → Option RequestRowData → Option IterResult
cell_of i none = none
cell_of i (some row) = result_at i row.iter_results

-- The result of the last event of the request in the iteration.
abbrev pub last_result : String → ℕ → List RunEvent → Option IterResult
last_result key i [] = none
last_result key i (evt ∷ events) = or_else (last_result key i events) (
    if event_key evt == key && nat_eq (number_or evt.iteration 0) i
    then some (event_result evt)
    else none)

result_at-set_result :
    (i j : ℕ) (r : IterResult) (results : List (ℕ × IterResult))
    → result_at i (set_result j r results) ≡ (if nat_eq j i then some r else result_at i results)
result_at-set_result i j r [] = refl
result_at-set_result i j r ((k, q) ∷ results) = ground (arith, result_at-set_result i j r results)

cell_of-with_result :
    (i : ℕ) (evt : RunEvent) (row : Option RequestRowData)
    → cell_of i (some (with_result evt (row_of evt row)))
      ≡ (if nat_eq (number_or evt.iteration 0) i then some (event_result evt) else cell_of i row)
cell_of-with_result i evt none =
    result_at-set_result i (number_or evt.iteration 0) (event_result evt) []
cell_of-with_result i evt (some row) =
    result_at-set_result i (number_or evt.iteration 0) (event_result evt) row.iter_results

cell_of-add_event :
    (key : String) (i : ℕ) (evt : RunEvent) (row_map : Dict RequestRowData)
    → cell_of i (lookup key (add_event evt row_map))
      ≡ or_else
          (if event_key evt == key && nat_eq (number_or evt.iteration 0) i
            then some (event_result evt)
            else none)
          (cell_of i (lookup key row_map))
unfolding add_event
cell_of-add_event key i evt row_map =
    rw
      (lookup-insert (event_key evt) key
        (with_result evt (row_of evt (lookup (event_key evt) row_map))) row_map)
      (elim (Bool-cases (event_key evt == key)) [
        | inl e ↦
            let old : lookup (event_key evt) row_map ≡ lookup key row_map =
              ap (λ k. lookup k row_map) (==-eq (event_key evt) key e) in
            rw (e, old)
              (cell_of-with_result i evt (lookup key row_map)
                ∙ (elim (Bool-cases (nat_eq (number_or evt.iteration 0) i)) [
                  | inl h ↦ rw h refl
                  | inr h ↦ rw h refl
                ]))
        | inr e ↦ rw e refl
      ])

or_else_assoc : (a b c : Option IterResult) → or_else a (or_else b c) ≡ or_else (or_else a b) c
or_else_assoc none b c = refl
or_else_assoc (some x) b c = refl

cell_of-add_events :
    (key : String) (i : ℕ) (events : List RunEvent) (row_map : Dict RequestRowData)
    → cell_of i (lookup key (add_events events row_map))
      ≡ or_else (last_result key i events) (cell_of i (lookup key row_map))
unfolding add_events
cell_of-add_events key i [] row_map = refl
cell_of-add_events key i (evt ∷ events) row_map =
    cell_of-add_events key i events (add_event evt row_map)
    ∙ ap (or_else (last_result key i events)) (cell_of-add_event key i evt row_map)
    ∙ or_else_assoc (last_result key i events) _ _

-- The cell of a request and an iteration shows the last event of that request in that iteration,
-- and is empty if there is none.
pub cell_of-lookup-add_events :
    (key : String) (i : ℕ) (events : List RunEvent)
    → cell_of i (lookup key (add_events events [])) ≡ last_result key i events
cell_of-lookup-add_events key i events =
    cell_of-add_events key i events [] ∙ or_else-none (last_result key i events)
