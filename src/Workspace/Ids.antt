-- ===== src/Workspace/Ids.antt =====
-- gui/web/src/store/workspace.ts: `newId`.
use Prim.Native.String.{slice}
use reqlet.Common.{ℕ, zero, suc, String, ◌<>◌, List, [], ◌∷◌}

-- `uuid n` is what the n-th call of `crypto.randomUUID` returns, counted from the start of an
-- operation. Its results are ASCII, so bytes and UTF-16 units agree.
unfoldable pub new_id : (ℕ → String) → ℕ → String
new_id uuid n = "id-" <> slice (uuid n) 0 8

-- The ids of k calls in a row, from the n-th on.
abbrev pub draws : (ℕ → String) → ℕ → ℕ → List String
draws uuid n zero = []
draws uuid n (suc k) = new_id uuid n ∷ draws uuid (suc n) k
