-- ===== src/Runs/View.antt =====
-- gui/web/src/components/layout/collection-pane.tsx: the runs of a collection or folder that the pane
-- shows, its options, and the texts of durations and times. Times are milliseconds; what `Date` makes
-- of a text is a parameter.
use reqlet.Common.{
  ℕ, ◌-◌, String, ◌<>◌, Bool, true, false, ◌&&◌, Option, none, some, [], ◌∷◌, if◌then◌else◌, ◌==◌,
  ltb, leb, truthy, or_else, filter,
}
use reqlet.Common.Dict.{Dict, lookup}
use Prim.Native.Nat.{◌/◌, ◌%◌, max}
use reqlet.Common.Number.{decimal}
use reqlet.Runs.{RunState, RunsState, RunStatus}

unfoldable pub format_duration : ℕ → String
unfolding decimal
format_duration ms =
    if ltb ms 1000
    then decimal ms <> "ms"
    else (let s = ms / 1000 in
        let rem = ms % 1000 in
        if ltb 0 rem then decimal s <> ("s " <> (decimal rem <> "ms")) else decimal s <> "s")

-- A time that lies ahead is just now, as is one less than a minute ago.
unfoldable pub format_rel_time : ℕ → ℕ → String
unfolding decimal
format_rel_time now then_ =
    let diff = now - then_ in
    if ltb diff 60000
    then "just now"
    else if ltb diff 3600000
    then decimal (diff / 60000) <> "m ago"
    else decimal (diff / 3600000) <> "h ago"

abbrev same_folder : Option String → Option String → Bool
same_folder none none = true
same_folder none (some b) = false
same_folder (some a) none = false
same_folder (some a) (some b) = a == b

abbrev pub is_run_of : String → Option String → RunState → Bool
is_run_of collection_id folder_id r =
    (r.collection_id == collection_id) && same_folder r.folder_id folder_id

abbrev pub insert_run : (String → ℕ) → String × RunState → Dict RunState → Dict RunState
insert_run time_of entry [] = entry ∷ []
insert_run time_of entry (e ∷ es) =
    let rest = insert_run time_of entry es in
    if leb (time_of (entry.1).started_at) (time_of (e.1).started_at)
    then e ∷ rest
    else entry ∷ (e ∷ es)

-- `sort` by `startedAt`, the latest first, those of one time in their order
unfoldable pub sort_runs : (String → ℕ) → Dict RunState → Dict RunState → Dict RunState
sort_runs time_of sorted [] = sorted
sort_runs time_of sorted (e ∷ es) = sort_runs time_of (insert_run time_of e sorted) es

unfoldable pub collection_runs : (String → ℕ) → RunsState → String → Option String → Dict RunState
unfolding sort_runs
collection_runs time_of s collection_id folder_id =
    sort_runs time_of [] (filter (λ e. is_run_of collection_id folder_id e.1) s.runs)

abbrev own_run : String → Option String → Option RunState → Option RunState
own_run collection_id folder_id none = none
own_run collection_id folder_id (some r) =
    if is_run_of collection_id folder_id r then some r else none

abbrev run_at : Option String → Dict RunState → Option RunState
run_at none runs = none
run_at (some id) runs = if truthy id then lookup id runs else none

unfoldable pub active_run : RunsState → String → Option String → Option RunState
active_run s collection_id folder_id =
    own_run collection_id folder_id (run_at s.active_run_id s.runs)

abbrev first_id : Dict RunState → Option String
first_id [] = none
first_id (e ∷ es) = some e.0

-- `selectedRunId ?? collectionRuns[0]?.[0] ?? null`
unfoldable pub display_run_id :
    (String → ℕ) → RunsState → String → Option String → Option String → Option String
unfolding collection_runs
display_run_id time_of s collection_id folder_id selected =
    or_else selected (first_id (collection_runs time_of s collection_id folder_id))

unfoldable pub display_run :
    (String → ℕ) → RunsState → String → Option String → Option String → Option RunState
unfolding display_run_id
display_run time_of s collection_id folder_id selected =
    run_at (display_run_id time_of s collection_id folder_id selected) s.runs

abbrev is_active_running : Option RunState → Bool
is_active_running none = false
is_active_running (some r) = elim r.status [
  | RunStatus.running ↦ true
  | RunStatus.done ↦ false
  | RunStatus.error ↦ false
]

-- `isRunning`, which disables the options and the button.
unfoldable pub is_running : RunsState → String → Option String → Bool
unfolding active_run
is_running s collection_id folder_id = is_active_running (active_run s collection_id folder_id)

-- The number fields: what `parseInt` gives, with none for no number and for a negative one.
unfoldable pub iterations_of : Option ℕ → ℕ
iterations_of none = 1
iterations_of (some n) = max 1 n

unfoldable pub delay_of : Option ℕ → ℕ
delay_of none = 0
delay_of (some n) = n
