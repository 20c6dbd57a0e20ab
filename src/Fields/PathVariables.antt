-- ===== src/Fields/PathVariables.antt =====
-- gui/web/src/components/layout/request-pane.tsx: the path variables of a URL (`extractPathVarKeys`,
-- `PathVarsSection`). The two prefixes and the keys are what the patterns of the source match, on
-- texts of code points.
use reqlet.Common.{
  ℕ, String, Bool, true, not, ◌&&◌, ◌||◌, Option, none, some, List, [], ◌∷◌, map, if◌then◌else◌,
  ◌==◌, leb, nat_eq, filter, find,
}
use reqlet.Common.Dict.{keys}
use Prim.Native.Char.{Char, code}
use Prim.Native.String.{[], ◌∷◌}
use mathlib.Core.Option
use reqlet.Types.Request.{KeyValuePair}
use reqlet.Query.{is_question, before}

abbrev is_between : ℕ → ℕ → ℕ → Bool
is_between lo hi n = leb lo n && leb n hi

abbrev is_letter : Char → Bool
is_letter c = is_between b'a' b'z' (code c) || is_between b'A' b'Z' (code c)

abbrev is_digit : Char → Bool
is_digit c = is_between b'0' b'9' (code c)

abbrev is_char : ℕ → Char → Bool
is_char n c = nat_eq (code c) n

-- `[a-zA-Z0-9+\-.]`
abbrev in_scheme : Char → Bool
in_scheme c = is_letter c || is_digit c || is_char b'+' c || is_char b'-' c || is_char b'.' c

-- What is left after as many characters as pass the test, `[…]*`.
unfoldable pub drop_while : (Char → Bool) → String → String
drop_while is [] = ""
drop_while is (c ∷ s) = let rest = drop_while is s in if is c then rest else c ∷ s

unfoldable pub take_while : (Char → Bool) → String → String
take_while is [] = ""
take_while is (c ∷ s) = let rest = take_while is s in if is c then c ∷ rest else ""

abbrev not_slash : Char → Bool
not_slash c = not (is_char b'/' c)

-- What is left after `://`.
abbrev after_separator : String → Option String
after_separator (a ∷ b ∷ c ∷ s) =
    if is_char b':' a && is_char b'/' b && is_char b'/' c then some s else none
after_separator s = none

abbrev or_text : String → Option String → String
or_text s none = s
or_text s (some t) = t

-- `.replace(/^[a-zA-Z][a-zA-Z0-9+\-.]*:\/\/[^/]*/, "")`
unfoldable pub without_origin : String → String
unfolding drop_while
without_origin [] = ""
without_origin (c ∷ s) =
    if is_letter c
    then or_text (c ∷ s)
        (Option.map (drop_while not_slash) (after_separator (drop_while in_scheme s)))
    else c ∷ s

abbrev not_close : Char → Bool
not_close c = not (is_char b'}' c)

abbrev after_braces : String → Option String
after_braces (a ∷ b ∷ s) = if is_char b'}' a && is_char b'}' b then some s else none
after_braces s = none

-- `.replace(/^\{\{[^}]+\}\}/, "")`
abbrev variable_end : String → Option String
variable_end (a ∷ b ∷ c ∷ s) =
    if is_char b'{' a && is_char b'{' b && not_close c
    then after_braces (drop_while not_close s)
    else none
variable_end s = none

unfoldable pub without_variable : String → String
unfolding drop_while
without_variable s = or_text s (variable_end s)

abbrev starts_key : Char → Bool
starts_key c = is_letter c || is_char b'_' c

abbrev in_key : Char → Bool
in_key c = is_letter c || is_digit c || is_char b'_' c

-- The key after a colon, if it starts one.
abbrev key_at : String → Option String
key_at [] = none
key_at (c ∷ s) = if starts_key c then some (c ∷ take_while in_key s) else none

abbrev add_key : Option String → List String → List String
add_key none keys = keys
add_key (some key) keys = List.◌∷◌ key keys

-- `[...path.matchAll(/:([a-zA-Z_][a-zA-Z0-9_]*)/g)]`. A key holds no colon, so the search after a
-- match finds the same as one from the character after the colon.
unfoldable pub keys_in : String → List String
unfolding take_while
keys_in [] = List.[]
keys_in (c ∷ s) = let rest = keys_in s in if is_char b':' c then add_key (key_at s) rest else rest

-- `[...new Set(keys)]`
unfoldable pub unique_keys : List String → List String
unique_keys List.[] = List.[]
unique_keys (List.◌∷◌ k ks) = List.◌∷◌ k (filter (λ j. not (j == k)) (unique_keys ks))

unfoldable pub extract_path_var_keys : String → List String
unfolding before without_origin without_variable keys_in unique_keys
extract_path_var_keys url =
    unique_keys (keys_in (without_variable (without_origin (before is_question url))))

-- The row of a key: the stored variable, or an empty one.
abbrev pub fresh_row : String → KeyValuePair
fresh_row key = record { id = key; enabled = true; key = key; value = ""; description = "" }

abbrev pub row_if : String → Option KeyValuePair → KeyValuePair
row_if key none = fresh_row key
row_if key (some p) = p

abbrev pub row_of : List KeyValuePair → String → KeyValuePair
row_of stored key = row_if key (find (λ p. p.key == key) stored)

unfoldable pub path_rows : String → List KeyValuePair → List KeyValuePair
unfolding extract_path_var_keys
path_rows url stored = map (row_of stored) (extract_path_var_keys url)

-- `v.id !== v.key ? v.id : v.key`
abbrev pub row_id : KeyValuePair → String
row_id v = if not (v.id == v.key) then v.id else v.key
