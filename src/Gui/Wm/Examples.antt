-- ===== src/Gui/Wm/Examples.antt =====
-- protocols/gui-v1/src/wm.rs: two windows that overlap, one of which is dragged.
use dunit_os.Prelude.{
  ℕ, ◌+◌, ◌^◌, ◌<◌, ◌≡◌, refl, true, false, List, [], ◌∷◌, length, Option, none, some, arith,
  Bool-cases, inl, inr, ◌==◌, ==_self, ==→≡, bit_and, ◌-◌,
}
use dunit_os.Prelude.Table.{lookup, insert, IsSorted}
use dunit_os.Gui.Wm.{
  Window, WindowManager, new_wm, new_window, window_at, handle_mouse, body_contains, create_window,
  change, last_key, destroy_window, set_focus,
}
use dunit_os.Gui.Wm.Focused.{Call, run, IsFocused}
use dunit_os.Gui.Wm.Kept.{run-IsFocused}
use dunit_os.Gui.Wm.Drags.{samples, drag_lem}

new-IsFocused : (left : ℕ) → 1 + left < 2 ^ 32 → IsFocused left new_wm
unfolding lookup
new-IsFocused left h = record {
  sorted = tt;
  flags = λ k w e. absurd (cc);
  held = λ id e. absurd (cc);
  idle = λ e. refl;
  fresh = λ k w e. absurd (cc);
  room = h;
}

abbrev calls : List Call
calls =
    Call.create 7 10 20 100 50 1
    ∷ Call.create 8 50 30 100 50 2
    ∷ Call.mouse 60 40 1
    ∷ Call.mouse 65 38 1
    ∷ Call.mouse 65 38 0
    ∷ Call.destroy 2
    ∷ []

run-IsFocused_example : IsFocused 0 (run calls new_wm)
run-IsFocused_example = run-IsFocused calls new_wm (new-IsFocused (length calls) (omega arith))

-- The first window gets the focus back.
focus_after : (run calls new_wm).focused ≡ some 1
unfolding run create_window destroy_window set_focus handle_mouse change lookup insert last_key
    body_contains dunit_os.Prelude.Table.contains_key dunit_os.Prelude.Table.remove
focus_after = refl

abbrev lower : Window
lower = record (new_window 1 7 10 20 100 50 1) { focused = true }

abbrev upper : Window
upper = new_window 2 8 50 30 100 50 2

abbrev desk : WindowManager
desk = record new_wm { windows = (1, lower) ∷ (2, upper) ∷ []; focused = some 1; next_id = 3 }

hit : window_at 60 40 desk ≡ some 2
unfolding window_at
hit = refl

upper_is_there : lookup 2 desk.windows ≡ some upper
unfolding lookup
upper_is_there = refl

-- The window moves 70 to the left, to the left edge and beyond.
drag_lem_example :
    lookup 2 (samples ((70, 40, 1) ∷ (2 ^ 32 - 10, 38, 1) ∷ []) (handle_mouse 60 40 1 desk)).windows
    ≡ some (record upper { x = 2 ^ 32 - 20; y = 28; focused = true })
drag_lem_example =
    drag_lem 2 60 40 1 upper desk ((70, 40, 1) ∷ (2 ^ 32 - 10, 38, 1) ∷ []) refl refl hit
      upper_is_there (refl, (refl, tt)) (omega arith) (omega arith) (omega arith) (omega arith)
