-- ===== src/Common/Trim.antt =====
-- `trim` of ECMA-262, on texts of code points.
use reqlet.Common.{ℕ, String, Bool, ◌&&◌, ◌||◌, [], ◌∷◌, if◌then◌else◌, leb, nat_eq}
use Prim.Native.Char.{Char, code}
use Prim.Native.Nat.{ℕ}
use Prim.Native.String.{String, [], ◌∷◌}
use mathlib.Core.Bool.{Bool, ◌&&◌, ◌||◌}
use reqlet.Common.Text.{if◌then◌else◌, leb, nat_eq}

-- White space and line terminators.
abbrev is_space : ℕ → Bool
is_space n =
    (leb 9 n && leb n 13)
    || nat_eq n 32
    || nat_eq n 160
    || nat_eq n 5760
    || (leb 8192 n && leb n 8202)
    || nat_eq n 8232
    || nat_eq n 8233
    || nat_eq n 8239
    || nat_eq n 8287
    || nat_eq n 12288
    || nat_eq n 65279

unfoldable pub trim_start : String → String
trim_start [] = ""
trim_start (c ∷ s) = let rest = trim_start s in if is_space (code c) then rest else c ∷ s

abbrev keep_end : Char → String → String
keep_end c [] = if is_space (code c) then "" else c ∷ []
keep_end c (d ∷ s) = c ∷ (d ∷ s)

unfoldable pub trim_end : String → String
trim_end [] = ""
trim_end (c ∷ s) = keep_end c (trim_end s)

unfoldable pub trim : String → String
unfolding trim_start trim_end
trim s = trim_end (trim_start s)
