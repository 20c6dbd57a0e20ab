-- ===== src/Ui/Width.antt =====
-- gui/web/src/components/layout/app-layout.tsx: the width of the side panel while its handle is
-- dragged. A move is the distance from where the drag began, to the right or to the left; to the
-- left, a difference below 0 is clamped like 0.
use reqlet.Common.{ℕ, ◌+◌, ◌-◌, ◌≤◌, Bool, true, false, List, [], ◌∷◌, arith, if◌then◌else◌}
use Prim.Native.Nat.{min, max}

abbrev pub side_panel_default : ℕ
side_panel_default = 260

abbrev pub side_panel_min : ℕ
side_panel_min = 180

abbrev pub side_panel_max : ℕ
side_panel_max = 480

pub record SideWidth : Type 0 where
  pub width : ℕ
  pub dragging : Bool
  pub start_w : ℕ

abbrev pub initial_width : SideWidth
initial_width = record { width = side_panel_default; dragging = false; start_w = 0 }

pub data MouseEvent : Type 0 where
  down : MouseEvent
  right : ℕ → MouseEvent
  left : ℕ → MouseEvent
  up : MouseEvent

abbrev pub moved_to : ℕ → SideWidth → SideWidth
moved_to w s =
    if s.dragging then record s { width = min side_panel_max (max side_panel_min w) } else s

unfoldable pub on_mouse : SideWidth → MouseEvent → SideWidth
on_mouse s down = record s { dragging = true; start_w = s.width }
on_mouse s (right delta) = moved_to (s.start_w + delta) s
on_mouse s (left delta) = moved_to (s.start_w - delta) s
on_mouse s up = record s { dragging = false }

unfoldable pub on_mouse_all : SideWidth → List MouseEvent → SideWidth
unfolding on_mouse
on_mouse_all s [] = s
on_mouse_all s (e ∷ es) = on_mouse_all (on_mouse s e) es

on_mouse_bounds :
    (s : SideWidth) (e : MouseEvent)
    → (180 ≤ s.width) × (s.width ≤ 480)
    → (180 ≤ (on_mouse s e).width) × ((on_mouse s e).width ≤ 480)
unfolding on_mouse
on_mouse_bounds s e h = ground arith

on_mouse_all_from :
    (s : SideWidth) (es : List MouseEvent)
    → (180 ≤ s.width) × (s.width ≤ 480)
    → (180 ≤ (on_mouse_all s es).width) × ((on_mouse_all s es).width ≤ 480)
unfolding on_mouse_all
on_mouse_all_from s [] h = h
on_mouse_all_from s (e ∷ es) h = on_mouse_all_from (on_mouse s e) es (on_mouse_bounds s e h)

-- However the handle is dragged, the side panel is never narrower than 180 nor wider than 480 pixels.
pub on_mouse_all_bounds :
    (es : List MouseEvent)
    → (180 ≤ (on_mouse_all initial_width es).width) × ((on_mouse_all initial_width es).width ≤ 480)
on_mouse_all_bounds es = on_mouse_all_from initial_width es (omega arith)
