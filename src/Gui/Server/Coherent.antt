-- ===== src/Gui/Server/Coherent.antt =====
-- server.rs: the seat's own bookkeeping: grab, buttons and held keys.
pub mod Kept
use dunit_os.Prelude.{
  ℕ, ◌≡◌, ◌≤◌, ◌⊎◌, inl, refl, Bool, true, false, not, ◌&&◌, List, [], ◌∷◌, ◌++◌, length, is_empty,
  retain, contains, Option, none, some, is_some, arith, ◌!=◌, length-append, length-retain-le,
}
use dunit_os.Gui.Server.State.{Target, max_held_keys}
use dunit_os.Gui.Server.Seat.{Seat, drop_conn, drop_surface}
use dunit_os.Gui.Server.Inject
use dunit_os.Gui.Server.Inject.{KeyAction, key_action}

pub record IsCoherent (s : Seat) : Type 0 where
  pub pinned : (s.grab ≡ none) ⊎ (s.grab ≡ s.pointer_focus)
  pub pressed : is_empty s.buttons ≡ not (is_some s.grab)
  pub held_max : length s.held_keys ≤ max_held_keys
  pub unfocused : s.keyboard_focus ≡ none → s.held_keys ≡ []

pub drop_conn-IsCoherent : (conn : ℕ) (s : Seat) → IsCoherent s → IsCoherent (drop_conn conn s)
unfolding drop_conn
drop_conn-IsCoherent conn s v = record {
  pinned = ground (arith, v.pinned);
  pressed = ground (arith, v.pinned, v.pressed);
  held_max = ground (arith, v.held_max);
  unfocused = λ h. ground (arith, v.unfocused);
}

pub drop_surface-IsCoherent : (t : Target) (s : Seat) → IsCoherent s → IsCoherent (drop_surface t s)
unfolding drop_surface
drop_surface-IsCoherent t s v = record {
  pinned = ground (arith, v.pinned);
  pressed = ground (arith, v.pinned, v.pressed);
  held_max = ground (arith, v.held_max);
  unfocused = λ h. ground (arith, v.unfocused);
}

pub point_at-IsCoherent :
    (target : Option Target) (s : Seat)
    → s.grab ≡ none
    → IsCoherent s
    → IsCoherent (Inject.point_at target s)
point_at-IsCoherent target s h v = record {
  pinned = inl h;
  pressed = ground arith;
  held_max = v.held_max;
  unfocused = v.unfocused;
}

pub type_into-IsCoherent :
    (target : Option Target) (modifiers : ℕ) (s : Seat)
    → IsCoherent s
    → IsCoherent (Inject.type_into target modifiers s)
type_into-IsCoherent target modifiers s v = record {
  pinned = v.pinned;
  pressed = v.pressed;
  held_max = omega arith;
  unfocused = λ h. refl;
}

contains-is_empty : (xs : List ℕ) (n : ℕ) → contains xs n ≡ true → is_empty xs ≡ false
contains-is_empty [] n h = absurd (cc)
contains-is_empty (x ∷ xs) n h = refl

retain-is_empty : (p : ℕ → Bool) (xs : List ℕ) → is_empty xs ≡ true → is_empty (retain p xs) ≡ true
retain-is_empty p [] h = refl
retain-is_empty p (x ∷ xs) h = absurd (cc)

is_empty-append : (xs ys : List ℕ) → is_empty (xs ++ ys) ≡ (is_empty xs && is_empty ys)
is_empty-append [] ys = refl
is_empty-append (x ∷ xs) ys = refl

-- A button that goes down to the pointer's target, or comes up.
pub button-IsCoherent :
    (pressed : Bool) (t : Target) (button : ℕ) (s : Seat)
    → IsCoherent s
    → (s.grab ≡ some t) ⊎ ((s.grab ≡ none) × (s.pointer_focus ≡ some t))
    → IsCoherent (Inject.end_grab pressed (Inject.pushed pressed t button s))
button-IsCoherent true t button s v h = record {
  pinned = ground (arith, v.pinned);
  pressed = ground (
    arith,
    v.pressed,
    contains-is_empty s.buttons button,
    is_empty-append s.buttons (button ∷ []),
  );
  held_max = v.held_max;
  unfocused = v.unfocused;
}
button-IsCoherent false t button s v h = record {
  pinned = ground (arith, v.pinned);
  pressed = ground (arith, v.pressed, retain-is_empty (λ b. b != button) s.buttons);
  held_max = ground (arith, v.held_max);
  unfocused = λ k. ground (arith, v.unfocused);
}

-- The keys that a key event leaves held.
pub key_action-held_max :
    (usage : ℕ) (pressed repeat : Bool) (held held' : List ℕ)
    → length held ≤ max_held_keys
    → key_action usage pressed repeat held ≡ KeyAction.send held'
    → length held' ≤ max_held_keys
unfolding key_action
key_action-held_max usage pressed repeat held held' h e =
    ground (arith, length-append held (usage ∷ []), length-retain-le (λ k. k != usage) held)

pub keep_keys-IsCoherent :
    (t : Target) (held : List ℕ) (s : Seat)
    → s.keyboard_focus ≡ some t
    → length held ≤ max_held_keys
    → IsCoherent s
    → IsCoherent (Inject.keep_keys held s)
keep_keys-IsCoherent t held s e h v = record {
  pinned = v.pinned;
  pressed = v.pressed;
  held_max = h;
  unfocused = λ k. absurd (cc);
}
