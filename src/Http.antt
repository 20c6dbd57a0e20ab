-- ===== src/Http.antt =====
-- gui/web/src/lib/http.ts: the colours of a status and the text of a size. `formatTime` divides by
-- 1000 in floating point, which rounds, and is not modelled.
use reqlet.Common.{ℕ, ◌+◌, ◌*◌, ◌≤◌, String, ◌<>◌, arith, if◌then◌else◌, ltb, leb, nat_eq}
use Prim.Native.Nat.{◌/◌, ◌%◌}
use reqlet.Common.Number.{decimal}

unfoldable pub get_status_classes : ℕ → String
get_status_classes status =
    if leb 500 status
    then "text-rose-600 dark:text-rose-400"
    else if leb 400 status
    then "text-orange-600 dark:text-orange-400"
    else if leb 300 status
    then "text-blue-600 dark:text-blue-400"
    else if leb 200 status
    then "text-emerald-600 dark:text-emerald-400"
    else "text-muted-foreground"

-- `toFixed(1)` of a division by 1024 or its square, which is exact: the nearest number of tenths, and
-- the larger of two.
abbrev pub tenths_kb : ℕ → ℕ
tenths_kb bytes = (bytes * 20 + 1024) / 2048

abbrev pub tenths_mb : ℕ → ℕ
tenths_mb bytes = (bytes * 20 + 1048576) / 2097152

abbrev pub fixed_1 : ℕ → String
fixed_1 tenths = decimal (tenths / 10) <> ("." <> decimal (tenths % 10))

unfoldable pub format_size : ℕ → String
unfolding decimal
format_size bytes =
    if nat_eq bytes 0
    then "0 B"
    else if ltb bytes 1024
    then decimal bytes <> " B"
    else if ltb bytes (1024 * 1024)
    then fixed_1 (tenths_kb bytes) <> " KB"
    else fixed_1 (tenths_mb bytes) <> " MB"

-- The tenths that a size shows differ from it by at most half a tenth.
pub tenths_nearest :
    (bytes : ℕ)
    → ((tenths_kb bytes * 2048 ≤ bytes * 20 + 1024) × (bytes * 20 ≤ tenths_kb bytes * 2048 + 1024))
      × ((tenths_mb bytes * 2097152 ≤ bytes * 20 + 1048576)
          × (bytes * 20 ≤ tenths_mb bytes * 2097152 + 1048576))
tenths_nearest bytes = ((omega arith, omega arith), (omega arith, omega arith))
