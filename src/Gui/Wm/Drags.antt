-- ===== src/Gui/Wm/Drags.antt =====
-- protocols/gui-v1/src/wm.rs: a window that is dragged.
use dunit_os.Prelude.{
  ℕ, ◌^◌, ◌≡◌, ◌<◌, refl, ap₂, ◌∙◌, true, false, List, [], ◌∷◌, Option, none, some, ◌==◌, arith,
  inl, inr, Bool-cases, ==_self,
}
use dunit_os.Prelude.Table.{Table, lookup, contains_key}
use dunit_os.Gui.Wm.{
  Window, WindowManager, change, set_flag, unflag, set_focus, window_at, is_left, moved_to, at,
  handle_mouse, sub_i32, add_i32,
}
use dunit_os.Gui.Wm.Focused.{lookup-change}

-- The samples of a drag: a position and the buttons.
unfoldable pub samples : List (ℕ × ℕ × ℕ) → WindowManager → WindowManager
unfolding handle_mouse
samples [] m = m
samples ((x, y, buttons) ∷ moves) m = samples moves (handle_mouse x y buttons m)

abbrev pub AllLeft : List (ℕ × ℕ × ℕ) → Type 0
AllLeft [] = Unit
AllLeft ((x, y, buttons) ∷ moves) = (is_left buttons ≡ true) × AllLeft moves

abbrev pub last_x : ℕ → List (ℕ × ℕ × ℕ) → ℕ
last_x x [] = x
last_x x ((x1, y1, buttons) ∷ moves) = last_x x1 moves

abbrev pub last_y : ℕ → List (ℕ × ℕ × ℕ) → ℕ
last_y y [] = y
last_y y ((x1, y1, buttons) ∷ moves) = last_y y1 moves

-- A window is held at an offset, and lies where the pointer at (x, y) puts it.
record Held (id ox oy x y : ℕ) (w : Window) (m : WindowManager) : Type 0 where
  pub left : is_left m.pointer.buttons ≡ true
  pub dragging : m.pointer.dragging ≡ some id
  pub offset_x : m.pointer.drag_offset_x ≡ ox
  pub offset_y : m.pointer.drag_offset_y ≡ oy
  pub here : lookup id m.windows ≡ some (record w { x = sub_i32 x ox; y = sub_i32 y oy })

change-here :
    (f : Window → Window) (id : ℕ) (windows : Table Window) (w : Window)
    → lookup id windows ≡ some w
    → lookup id (change f id windows) ≡ some (f w)
change-here f id windows w e = lookup-change f id id windows ∙ rw (==_self id, e) refl

move-Held :
    (id ox oy x y x1 y1 buttons : ℕ) (w : Window) (m : WindowManager)
    → is_left buttons ≡ true
    → Held id ox oy x y w m
    → Held id ox oy x1 y1 w (handle_mouse x1 y1 buttons m)
unfolding handle_mouse
move-Held id ox oy x y x1 y1 buttons w m left h =
    rw (left, h.left, h.dragging)
      (record {
        left = left;
        dragging = refl;
        offset_x = h.offset_x;
        offset_y = h.offset_y;
        here =
            change-here (moved_to x1 y1 m.pointer) id m.windows _ h.here
            ∙ rw (h.offset_x, h.offset_y) refl;
      })

samples-Held :
    (id ox oy x y : ℕ) (w : Window) (moves : List (ℕ × ℕ × ℕ)) (m : WindowManager)
    → AllLeft moves
    → Held id ox oy x y w m
    → Held id ox oy (last_x x moves) (last_y y moves) w (samples moves m)
unfolding samples
samples-Held id ox oy x y w [] m l h = h
samples-Held id ox oy x y w ((x1, y1, buttons) ∷ moves) m l h =
    samples-Held id ox oy x1 y1 w moves (handle_mouse x1 y1 buttons m) l.1
      (move-Held id ox oy x y x1 y1 buttons w m l.0 h)

set_focus-here :
    (id : ℕ) (m : WindowManager) (w : Window)
    → lookup id m.windows ≡ some w
    → lookup id (set_focus id m).0.windows ≡ some (record w { focused = true })
unfolding set_focus contains_key
set_focus-here id m w e = rw e (focus m.focused)
  where
    focus :
        (o : Option ℕ)
        → lookup id (set_flag true id (unflag o m.windows)) ≡ some (record w { focused = true })
    focus none = change-here _ id m.windows w e
    focus (some old) = elim (Bool-cases (old == id)) [
      | inl this ↦
          change-here _ id (set_flag false old m.windows) (record w { focused = false })
            (lookup-change _ old id m.windows ∙ rw (this, e) refl)
      | inr that ↦
          change-here _ id (set_flag false old m.windows) w
            (lookup-change _ old id m.windows ∙ rw (that, e) refl)
    ]

press-Held :
    (id x y buttons : ℕ) (w : Window) (m : WindowManager)
    → is_left buttons ≡ true
    → is_left m.pointer.buttons ≡ false
    → window_at x y m ≡ some id
    → lookup id m.windows ≡ some w
    → Held id
        (sub_i32 x w.x)
        (sub_i32 y w.y)
        x
        y
        (record w { focused = true })
        (handle_mouse x y buttons m)
unfolding handle_mouse window_at
press-Held id x y buttons w m left up hit e =
    let found = set_focus-here id (at x y m) w e in
    rw (left, up, hit, found)
      (record {
        left = left;
        dragging = refl;
        offset_x = refl;
        offset_y = refl;
        here =
            change-here _ id (set_focus id (at x y m)).0.windows (record w { focused = true })
              found;
      })

-- A window that is pressed on and dragged, with the left button down, has moved by as much as the pointer, on 32 bits, and
-- has the focus.
pub drag_lem :
    (id x y buttons : ℕ) (w : Window) (m : WindowManager) (moves : List (ℕ × ℕ × ℕ))
    → is_left buttons ≡ true
    → is_left m.pointer.buttons ≡ false
    → window_at x y m ≡ some id
    → lookup id m.windows ≡ some w
    → AllLeft moves
    → x < 2 ^ 32
    → y < 2 ^ 32
    → w.x < 2 ^ 32
    → w.y < 2 ^ 32
    → lookup id (samples moves (handle_mouse x y buttons m)).windows
      ≡ some (record w {
        x = add_i32 w.x (sub_i32 (last_x x moves) x);
        y = add_i32 w.y (sub_i32 (last_y y moves) y);
        focused = true;
      })
drag_lem id x y buttons w m moves left up hit e l bx by bwx bwy =
    let h =
      samples-Held id (sub_i32 x w.x) (sub_i32 y w.y) x y (record w { focused = true }) moves
        (handle_mouse x y buttons m) l (press-Held id x y buttons w m left up hit e) in
    h.here
    ∙ ap₂ (λ a b. some (record w { x = a; y = b; focused = true }))
        (moved (last_x x moves) x w.x bx bwx) (moved (last_y y moves) y w.y by bwy)
  where
    moved :
        (l a b : ℕ) → a < 2 ^ 32 → b < 2 ^ 32 → sub_i32 l (sub_i32 a b) ≡ add_i32 b (sub_i32 l a)
    moved l a b h k = omega arith
