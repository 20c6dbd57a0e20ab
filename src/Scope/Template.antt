-- ===== src/Scope/Template.antt =====
-- gui/web/src/hooks/use-variable-scope.ts and gui/web/src/components/ui/variable-input.tsx: the
-- matches of `/\{\{([^{}]*)\}\}/g` in a text, from left to right. A text is walked by code points;
-- the pattern's braces are single ones in UTF-16 too.
pub mod Laws
pub mod Replace
use reqlet.Common.{
  refl, ◌≡◌, ℕ, zero, suc, ◌+◌, String, ◌<>◌, Bool, true, false, nat_eq, Option, none, some, List,
  if◌then◌else◌, or_else,
}
use Prim.Native.Char.{Char, code}
use Prim.Native.String
use Prim.Native.String.{[], ◌∷◌}
use mathlib.Core.List
use mathlib.Core.Option
use reqlet.Common.Dict.{Dict, lookup, has}

abbrev pub is_open : Char → Bool
is_open c = nat_eq (code c) b'{'

abbrev pub is_close : Char → Bool
is_close c = nat_eq (code c) b'}'

-- A part of a text: a character outside every match, or the match of a key.
pub data Piece : Type 0 where
  plain : Char → Piece
  variable : String → Piece

abbrev pub starts_with_close : String → Bool
starts_with_close [] = false
starts_with_close (c ∷ s) = is_close c

-- `[^{}]*\}\}` at the start of a text: the key before the two closing braces.
unfoldable pub read_key : String → Option String
read_key [] = none
read_key (c ∷ s) =
    let longer = Option.map (λ key. c ∷ key) (read_key s) in
    if is_close c
    then if starts_with_close s then some "" else none
    else if is_open c
    then none
    else longer

abbrev pub after_open : String → Option String
after_open [] = none
after_open (c ∷ s) = if is_open c then read_key s else none

-- The key of a match at the start of a text.
unfoldable pub match_at : String → Option String
unfolding read_key
match_at [] = none
match_at (c ∷ s) = if is_open c then after_open s else none

unfoldable pub chars : String → ℕ
chars [] = 0
chars (c ∷ s) = suc (chars s)

-- The pieces of a text, after as many characters as are still part of a match. A match of a key has
-- four characters more than the key.
unfoldable pub scan : ℕ → String → List Piece
unfolding match_at chars
scan skip [] = List.[]
scan (suc skip) (c ∷ s) = scan skip s
scan zero (c ∷ s) = elim (match_at (c ∷ s)) [
  | none ↦ List.◌∷◌ (plain c) (scan zero s)
  | some key ↦ List.◌∷◌ (variable key) (scan (chars key + 3) s)
]

unfoldable pub pieces : String → List Piece
unfolding scan
pieces s = scan 0 s

-- The text of a match.
abbrev pub token : String → String
token key = "{{" <> (key <> "}}")

abbrev pub value_or_token : String → Option String → String
value_or_token key none = token key
value_or_token key (some value) = value

-- `replace` with a callback that gives a value for a key, or leaves the match as it is.
unfoldable pub expand : (String → Option String) → List Piece → String
expand value List.[] = ""
expand value (List.◌∷◌ (plain c) ps) = c ∷ expand value ps
expand value (List.◌∷◌ (variable key) ps) = value_or_token key (value key) <> expand value ps

unfoldable pub apply_variables : String → Dict String → String
unfolding pieces expand
apply_variables s resolved_map = expand (λ key. lookup key resolved_map) (pieces s)

pub data Token : Type 0 where
  text : String → Token
  var : String → Bool → String → Token

-- `tokens.push({ type: "text", … })` if the text since the last match is not empty
abbrev pub push_text : String → List Token → List Token
push_text [] tokens = tokens
push_text (c ∷ s) tokens = List.◌∷◌ (text (c ∷ s)) tokens

-- The loop of `tokenizeVariables`, with the text since the last match.
unfoldable pub tokenize_from : Dict String → String → List Piece → List Token
tokenize_from resolved_map since List.[] = push_text since List.[]
tokenize_from resolved_map since (List.◌∷◌ (plain c) ps) =
    tokenize_from resolved_map (since <> (c ∷ [])) ps
tokenize_from resolved_map since (List.◌∷◌ (variable key) ps) =
    push_text since
      (List.◌∷◌ (var key (has key resolved_map) (token key)) (tokenize_from resolved_map "" ps))

unfoldable pub tokenize_variables : String → Dict String → List Token
unfolding pieces tokenize_from
tokenize_variables value resolved_map = tokenize_from resolved_map "" (pieces value)
