-- ===== src/Completion.antt =====
-- gui/web/src/components/ui/variable-input.tsx: the completion of a variable's name. Texts and cursor
-- positions are read by code points. `lower` is `toLowerCase`.
pub mod Bounds
pub mod LastOpen
pub mod Applied
use reqlet.Common.{
  ℕ, zero, suc, ◌+◌, ◌-◌, ◌<◌, String, ◌<>◌, Bool, true, false, not, ◌&&◌, Option, none, some, List,
  [], ◌∷◌, if◌then◌else◌, ◌==◌, ltb, nat_eq, length, get_elem?, filter,
}
use reqlet.Scope.Template.Laws.{drop_chars}
use Prim.Native.Char.{Char, code}
use Prim.Native.Nat.{min, max}
use Prim.Native.String.{[], ◌∷◌}
use mathlib.Core.List
use mathlib.Core.Option
use reqlet.Scope.Template.{is_open, is_close, chars, token}

-- `value.slice(0, n)`
unfoldable pub first_chars : ℕ → String → String
first_chars zero s = ""
first_chars (suc n) [] = ""
first_chars (suc n) (c ∷ s) = c ∷ first_chars n s

-- What follows a first character that passes the test.
abbrev pub tail_if : (Char → Bool) → String → Option String
tail_if is [] = none
tail_if is (c ∷ s) = if is c then some s else none

abbrev pub double : (Char → Bool) → String → Option String
double is [] = none
double is (c ∷ s) = if is c then tail_if is s else none

abbrev pub split_here : Option String → Option (String × String)
split_here none = none
split_here (some rest) = some ("", rest)

abbrev pub split_later :
    Char → Option (String × String) → Option (String × String) → Option (String × String)
split_later c none here = here
split_later c (some (p, q)) here = some (c ∷ p, q)

-- A text around its last `{{`.
unfoldable pub last_open : String → Option (String × String)
last_open [] = none
last_open (c ∷ s) = split_later c (last_open s) (split_here (double is_open (c ∷ s)))

-- `s.includes("}}")`
unfoldable pub has_close : String → Bool
has_close [] = false
has_close (c ∷ s) =
    let rest = has_close s in elim (double is_close (c ∷ s)) [ none ↦ rest | some _ ↦ true ]

-- What is typed of a name at the cursor, and the text before its braces.
pub record Context : Type 0 where
  pub partial : String
  pub before : String

abbrev pub context_of : Option (String × String) → Option Context
context_of none = none
context_of (some (before, between)) =
    if has_close between then none else some (record { partial = between; before = before })

unfoldable pub get_autocomplete_context : String → ℕ → Option Context
unfolding first_chars last_open has_close
get_autocomplete_context value cursor_pos = context_of (last_open (first_chars cursor_pos value))

pub record Dropdown : Type 0 where
  pub open_now : Bool
  pub items : List String
  pub active_index : ℕ

abbrev pub no_dropdown : Dropdown
no_dropdown = record { open_now = false; items = List.[]; active_index = 0 }

unfoldable pub starts_with : String → String → Bool
starts_with [] s = true
starts_with (c ∷ p) [] = false
starts_with (c ∷ p) (d ∷ s) = nat_eq (code c) (code d) && starts_with p s

abbrev pub is_offered : (String → String) → String → String → Bool
is_offered lower partial key = starts_with (lower partial) (lower key) && not (key == partial)

abbrev pub show_items : Dropdown → List String → Dropdown
show_items d List.[] = record d { open_now = false }
show_items d (List.◌∷◌ k ks) = record { open_now = true; items = List.◌∷◌ k ks; active_index = 0 }

abbrev pub show_for : (String → String) → List String → Dropdown → Option Context → Dropdown
show_for lower suggestions d none = record d { open_now = false }
show_for lower suggestions d (some ctx) =
    show_items d (filter (is_offered lower ctx.partial) suggestions)

unfoldable pub update_dropdown : (String → String) → List String → Dropdown → String → ℕ → Dropdown
unfolding starts_with get_autocomplete_context
update_dropdown lower suggestions d value cursor_pos =
    show_for lower suggestions d (get_autocomplete_context value cursor_pos)

-- `after.startsWith("}}") ? after.slice(2) : after`
abbrev pub without_close : String → String
without_close s = elim (double is_close s) [ none ↦ s | some rest ↦ rest ]

-- The new value and cursor.
abbrev pub completed : String → String → Context → String × ℕ
completed key after ctx =
    (ctx.before <> (token key <> without_close after), chars ctx.before + 2 + chars key + 2)

-- `none` if there is no context.
unfoldable pub apply_completion : String → ℕ → String → Option (String × ℕ)
unfolding get_autocomplete_context drop_chars chars
apply_completion value cursor_pos key =
    Option.map (completed key (drop_chars cursor_pos value))
      (get_autocomplete_context value cursor_pos)

-- The input with the text that its owner gives back to it.
pub record Input : Type 0 where
  pub value : String
  pub cursor : ℕ
  pub dropdown : Dropdown

pub data Key : Type 0 where
  arrow_down arrow_up enter tab escape other : Key

abbrev pub closed : Dropdown → Dropdown
closed d = record d { open_now = false }

abbrev pub after_completion : Input → Option (String × ℕ) → Input
after_completion s none = s
after_completion s (some (value, cursor)) = record {
  value = value;
  cursor = cursor;
  dropdown = closed s.dropdown;
}

unfoldable pub choose : Input → String → Input
unfolding apply_completion
choose s key = after_completion s (apply_completion s.value s.cursor key)

-- `dropdownItems[activeIndex]`
abbrev pub choose_active : Input → Option String → Input
choose_active s none = s
choose_active s (some key) = choose s key

abbrev pub move_active : Input → ℕ → Input
move_active s i = record s { dropdown = record s.dropdown { active_index = i } }

abbrev pub key_when_open : Input → Key → Input
key_when_open s arrow_down =
    move_active s (min (s.dropdown.active_index + 1) (length s.dropdown.items - 1))
key_when_open s arrow_up = move_active s (max (s.dropdown.active_index - 1) 0)
key_when_open s enter = choose_active s (get_elem? s.dropdown.items s.dropdown.active_index)
key_when_open s tab = choose_active s (get_elem? s.dropdown.items s.dropdown.active_index)
key_when_open s escape = record s { dropdown = closed s.dropdown }
key_when_open s other = s

unfoldable pub handle_key_down : Input → Key → Input
unfolding choose
handle_key_down s key = if s.dropdown.open_now then key_when_open s key else s

unfoldable pub handle_change : (String → String) → List String → Input → String → ℕ → Input
unfolding update_dropdown
handle_change lower suggestions s value cursor = record {
  value = value;
  cursor = cursor;
  dropdown = update_dropdown lower suggestions s.dropdown value cursor;
}

-- The timer of `handleBlur`.
unfoldable pub handle_blur : Input → Input
handle_blur s = record s { dropdown = closed s.dropdown }

-- `onMouseEnter` of the button i, if there is one.
unfoldable pub hover : Input → ℕ → Input
hover s i = if ltb i (length s.dropdown.items) then move_active s i else s
