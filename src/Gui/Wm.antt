-- ===== src/Gui/Wm.antt =====
-- protocols/gui-v1/src/wm.rs: the window stack, its focus and the pointer that drags. An `i32` is its two's complement
-- below 2^32; a window's id is its place in the stack.
pub mod Focused
pub mod Kept
pub mod Hits
pub mod Drags
mod Examples
use dunit_os.Prelude.{
  ℕ, suc, ◌+◌, ◌-◌, ◌%◌, ◌^◌, bit_and, Bool, true, false, not, ◌&&◌, List, [], ◌∷◌, Option, none,
  some, ltb, leb, ◌==◌, ◌!=◌, if◌then◌else◌, is_some,
}
use dunit_os.Prelude.Table.{Table, lookup, insert, remove, contains_key}

abbrev pub mouse_left : ℕ
mouse_left = 1

-- Sums, differences and comparisons of an `i32`.
abbrev pub add_i32 : ℕ → ℕ → ℕ
add_i32 a b = (a + b) % 2 ^ 32

abbrev pub sub_i32 : ℕ → ℕ → ℕ
sub_i32 a b = (a + (2 ^ 32 - b)) % 2 ^ 32

abbrev pub lt_i32 : ℕ → ℕ → Bool
lt_i32 a b = ltb ((a + 2 ^ 31) % 2 ^ 32) ((b + 2 ^ 31) % 2 ^ 32)

pub record Window : Type 0 where
  pub id : ℕ
  pub owner_pid : ℕ
  pub x : ℕ
  pub y : ℕ
  pub width : ℕ
  pub height : ℕ
  pub buffer : ℕ
  pub visible : Bool
  pub focused : Bool

abbrev pub new_window : (id owner_pid x y width height buffer : ℕ) → Window
new_window id owner_pid x y width height buffer = record {
  id = id;
  owner_pid = owner_pid;
  x = x;
  y = y;
  width = width;
  height = height;
  buffer = buffer;
  visible = true;
  focused = false;
}

unfoldable pub body_contains : (x y : ℕ) → Window → Bool
body_contains x y w =
    not (lt_i32 x w.x)
    && (lt_i32 x (add_i32 w.x w.width) && (not (lt_i32 y w.y) && lt_i32 y (add_i32 w.y w.height)))

pub record Pointer : Type 0 where
  pub x : ℕ
  pub y : ℕ
  pub buttons : ℕ
  pub dragging : Option ℕ
  pub drag_offset_x : ℕ
  pub drag_offset_y : ℕ

pub record WindowManager : Type 0 where
  pub windows : Table Window
  pub focused : Option ℕ
  pub next_id : ℕ
  pub pointer : Pointer

-- `WindowManager::new`.
abbrev pub new_wm : WindowManager
new_wm = record {
  windows = [];
  focused = none;
  next_id = 1;
  pointer = record {
    x = 0;
    y = 0;
    buttons = 0;
    dragging = none;
    drag_offset_x = 0;
    drag_offset_y = 0;
  };
}

-- `if let Some(w) = windows.get_mut(&id)`, with a change of the window.
abbrev pub changed : (Window → Window) → ℕ → Table Window → Option Window → Table Window
changed f id windows none = windows
changed f id windows (some w) = insert id (f w) windows

unfoldable pub change : (Window → Window) → ℕ → Table Window → Table Window
change f id windows = changed f id windows (lookup id windows)

abbrev pub set_flag : Bool → ℕ → Table Window → Table Window
set_flag b id windows = change (λ w. record w { focused = b }) id windows

unfoldable pub create_window :
    (owner_pid x y width height buffer : ℕ) → WindowManager → WindowManager × ℕ
unfolding change
create_window owner_pid x y width height buffer m =
    let id : ℕ = m.next_id in
    let windows : Table Window =
      insert id (new_window id owner_pid x y width height buffer) m.windows in
    (
      record m {
        windows = if is_some m.focused then windows else set_flag true id windows;
        focused = if is_some m.focused then m.focused else some id;
        next_id = (id + 1) % 2 ^ 32;
      },
      id,
    )

abbrev pub first_key : Table Window → Option ℕ
first_key [] = none
first_key ((k, w) ∷ windows) = some k

abbrev pub is_focus : ℕ → Option ℕ → Bool
is_focus id none = false
is_focus id (some focus) = focus == id

abbrev pub flag_next : Option ℕ → Table Window → Table Window
flag_next none windows = windows
flag_next (some next) windows = set_flag true next windows

abbrev pub without : ℕ → WindowManager → WindowManager
without id m =
    let windows : Table Window = remove id m.windows in
    if is_focus id m.focused
    then record m { windows = flag_next (first_key windows) windows; focused = first_key windows }
    else record m { windows = windows }

unfoldable pub destroy_window : ℕ → WindowManager → WindowManager × Bool
unfolding change
destroy_window id m = if contains_key id m.windows then (without id m, true) else (m, false)

abbrev pub unflag : Option ℕ → Table Window → Table Window
unflag none windows = windows
unflag (some old) windows = set_flag false old windows

unfoldable pub set_focus : ℕ → WindowManager → WindowManager × Bool
unfolding change
set_focus id m =
    if contains_key id m.windows
    then (
      record m { windows = set_flag true id (unflag m.focused m.windows); focused = some id },
      true,
    )
    else (m, false)

-- The first entry from the back that passes a test.
unfoldable pub last_key : (Window → Bool) → Table Window → Option ℕ
last_key p [] = none
last_key p ((k, w) ∷ windows) = elim (last_key p windows) [
  | none ↦ if p w then some k else none
  | some j ↦ some j
]

abbrev pub is_hit : (x y : ℕ) → Window → Bool
is_hit x y w = w.visible && body_contains x y w

unfoldable pub window_at : (x y : ℕ) → WindowManager → Option ℕ
unfolding last_key body_contains
window_at x y m = last_key (is_hit x y) m.windows

abbrev pub is_left : ℕ → Bool
is_left buttons = bit_and buttons mouse_left != 0

abbrev pub grabbed : (x y id : ℕ) → WindowManager → Option Window → WindowManager
grabbed x y id m none = m
grabbed x y id m (some w) = record m {
  pointer = record (m.pointer) {
    dragging = some id;
    drag_offset_x = sub_i32 x w.x;
    drag_offset_y = sub_i32 y w.y;
  };
}

-- A fresh press: what is under the pointer gets the focus and is dragged.
abbrev pub pressed_at : (x y : ℕ) → WindowManager → Option ℕ → WindowManager
pressed_at x y m none = m
pressed_at x y m (some id) =
    let m1 : WindowManager = (set_focus id m).0 in grabbed x y id m1 (lookup id m1.windows)

abbrev pub let_go : WindowManager → WindowManager
let_go m = record m { pointer = record (m.pointer) { dragging = none } }

abbrev pub moved_to : (x y : ℕ) → Pointer → Window → Window
moved_to x y p w = record w { x = sub_i32 x p.drag_offset_x; y = sub_i32 y p.drag_offset_y }

abbrev pub dragged : (x y : ℕ) → WindowManager → Option ℕ → WindowManager
dragged x y m none = m
dragged x y m (some id) = record m { windows = change (moved_to x y m.pointer) id m.windows }

abbrev pub at : (x y : ℕ) → WindowManager → WindowManager
at x y m = record m { pointer = record (m.pointer) { x = x; y = y } }

abbrev pub sampled : (x y : ℕ) → (left was_left : Bool) → WindowManager → WindowManager
sampled x y left was_left m =
    if left && not was_left
    then pressed_at x y m (window_at x y m)
    else if not left && was_left
    then let_go m
    else m

unfoldable pub handle_mouse : (x y buttons : ℕ) → WindowManager → WindowManager
unfolding set_focus window_at change
handle_mouse x y buttons m =
    let left : Bool = is_left buttons in
    let m1 : WindowManager = sampled x y left (is_left m.pointer.buttons) (at x y m) in
    let m2 : WindowManager = if left then dragged x y m1 m1.pointer.dragging else m1 in
    record m2 { pointer = record (m2.pointer) { buttons = buttons } }
