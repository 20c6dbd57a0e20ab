-- ===== src/Completion/Bounds.antt =====
-- gui/web/src/components/ui/variable-input.tsx: the list of completions under the keys and the mouse.
use reqlet.Common.{
  ℕ, ◌<◌, ◌≡◌, refl, String, Bool, true, false, Option, none, some, List, [], ◌∷◌, arith,
  if◌then◌else◌, ltb, length, filter,
}
use reqlet.Completion.{
  Dropdown, Context, show_items, show_for, update_dropdown, is_offered, Input, Key, arrow_down,
  arrow_up, enter, tab, escape, other, closed, after_completion, choose, choose_active, move_active,
  key_when_open, handle_key_down, handle_change, handle_blur, hover,
}

pub data Event : Type 0 where
  key : Key → Event
  change : List String → String → ℕ → Event
  blur : Event
  hovers : ℕ → Event
  clicks : String → Event

unfoldable pub react : (String → String) → Input → Event → Input
unfolding handle_key_down handle_change handle_blur hover choose
react lower s (key k) = handle_key_down s k
react lower s (change suggestions value cursor) = handle_change lower suggestions s value cursor
react lower s blur = handle_blur s
react lower s (hovers i) = hover s i
react lower s (clicks name) = choose s name

unfoldable pub react_all : (String → String) → Input → List Event → Input
unfolding react
react_all lower s [] = s
react_all lower s (e ∷ es) = react_all lower (react lower s e) es

-- Where the list is open, the active index is one of its places.
abbrev pub InList : Dropdown → Type 0
InList d = d.open_now ≡ true → d.active_index < length d.items

InList-closed : (d : Dropdown) → InList (closed d)
InList-closed d h = cc

InList-show_items : (d : Dropdown) (items : List String) → InList (show_items d items)
InList-show_items d [] = λ h. cc
InList-show_items d (k ∷ ks) = λ h. omega arith

InList-show_for :
    (lower : String → String) (suggestions : List String) (d : Dropdown) (ctx : Option Context)
    → InList (show_for lower suggestions d ctx)
InList-show_for lower suggestions d none = λ h. cc
InList-show_for lower suggestions d (some ctx) =
    InList-show_items d (filter (is_offered lower ctx.partial) suggestions)

InList-after_completion :
    (s : Input) (o : Option (String × ℕ))
    → InList s.dropdown
    → InList (after_completion s o).dropdown
InList-after_completion s none h = h
InList-after_completion s (some (value, cursor)) h = λ e. cc

InList-choose_active :
    (s : Input) (o : Option String) → InList s.dropdown → InList (choose_active s o).dropdown
unfolding choose
InList-choose_active s none h = h
InList-choose_active s (some name) h = InList-after_completion s _ h

InList-key :
    (s : Input) (k : Key)
    → s.dropdown.open_now ≡ true
    → InList s.dropdown
    → InList (key_when_open s k).dropdown
InList-key s arrow_down o h = λ e. ground (arith, h o)
InList-key s arrow_up o h = λ e. ground (arith, h o)
InList-key s enter o h = InList-choose_active s _ h
InList-key s tab o h = InList-choose_active s _ h
InList-key s escape o h = InList-closed s.dropdown
InList-key s other o h = h

InList-if_open :
    (b : Bool) (s : Input) (k : Key)
    → s.dropdown.open_now ≡ b
    → InList s.dropdown
    → InList (if b then key_when_open s k else s).dropdown
InList-if_open true s k o h = InList-key s k o h
InList-if_open false s k o h = h

InList-if_shown :
    (b : Bool) (s : Input) (i : ℕ)
    → ltb i (length s.dropdown.items) ≡ b
    → InList s.dropdown
    → InList (if b then move_active s i else s).dropdown
InList-if_shown true s i shown h = λ e. ground arith
InList-if_shown false s i shown h = h

InList-react :
    (lower : String → String) (s : Input) (e : Event)
    → InList s.dropdown
    → InList (react lower s e).dropdown
unfolding react handle_key_down handle_change handle_blur hover choose update_dropdown
InList-react lower s (key k) h = InList-if_open s.dropdown.open_now s k refl h
InList-react lower s (change suggestions value cursor) h =
    InList-show_for lower suggestions s.dropdown _
InList-react lower s blur h = InList-closed s.dropdown
InList-react lower s (hovers i) h = InList-if_shown (ltb i (length s.dropdown.items)) s i refl h
InList-react lower s (clicks name) h = InList-after_completion s _ h

-- Whatever is typed, pressed, hovered or clicked, an open list of completions has its active index
-- within its bounds, so that Enter and Tab always find an entry to complete with.
pub react_all-InList :
    (lower : String → String) (s : Input) (es : List Event)
    → InList s.dropdown
    → InList (react_all lower s es).dropdown
unfolding react_all
react_all-InList lower s [] h = h
react_all-InList lower s (e ∷ es) h =
    react_all-InList lower (react lower s e) es (InList-react lower s e h)
