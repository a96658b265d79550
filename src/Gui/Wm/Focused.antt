-- ===== src/Gui/Wm/Focused.antt =====
-- protocols/gui-v1/src/wm.rs: the focus through any calls.
use dunit_os.Prelude.{
  ℕ, ◌+◌, ◌^◌, ◌≡◌, ◌<◌, refl, sym, ap, ◌∙◌, subst, Bool, true, false, List, [], ◌∷◌, Option, none,
  some, ◌==◌, if◌then◌else◌, inl, inr, Bool-cases, Option-cases, ==→≡,
}
use dunit_os.Prelude.Table.{Table, lookup, contains_key, IsSorted, lookup-insert, insert-IsSorted}
use dunit_os.Gui.Wm.{
  Window, WindowManager, changed, change, set_flag, create_window, is_focus, destroy_window, unflag,
  set_focus, handle_mouse,
}

pub data Call : Type 0 where
  create : (owner_pid x y width height buffer : ℕ) → Call
  destroy : (id : ℕ) → Call
  give_focus : (id : ℕ) → Call
  mouse : (x y buttons : ℕ) → Call

unfoldable pub step : Call → WindowManager → WindowManager
unfolding create_window destroy_window set_focus handle_mouse
step (Call.create owner_pid x y width height buffer) m =
    (create_window owner_pid x y width height buffer m).0
step (Call.destroy id) m = (destroy_window id m).0
step (Call.give_focus id) m = (set_focus id m).0
step (Call.mouse x y buttons) m = handle_mouse x y buttons m

unfoldable pub run : List Call → WindowManager → WindowManager
unfolding step
run [] m = m
run (c ∷ cs) m = run cs (step c m)

-- The flags of the windows agree with the focus.
abbrev pub Flagged : Table Window → Option ℕ → Type 0
Flagged windows focus =
    (k : ℕ) (w : Window) → lookup k windows ≡ some w → w.focused ≡ is_focus k focus

-- Just the focused window has the flag; the focus is on a window, and there is one unless there are no windows. Ids are
-- below the next one, which is far from the end of 32 bits by the calls that are left.
pub record Focused (left : ℕ) (windows : Table Window) (focus : Option ℕ) (next_id : ℕ)
    : Type 0 where
  pub sorted : IsSorted windows
  pub flags : Flagged windows focus
  pub held : (id : ℕ) → focus ≡ some id → (w : Window) × (lookup id windows ≡ some w)
  pub idle : focus ≡ none → windows ≡ []
  pub fresh : (k : ℕ) (w : Window) → lookup k windows ≡ some w → k < next_id
  pub room : next_id + left < 2 ^ 32

abbrev pub IsFocused : ℕ → WindowManager → Type 0
IsFocused left m = Focused left m.windows m.focused m.next_id

abbrev pub changed_if : (Window → Window) → Bool → Option Window → Option Window
changed_if f true none = none
changed_if f true (some w) = some (f w)
changed_if f false o = o

pub lookup-change :
    (f : Window → Window) (id k : ℕ) (windows : Table Window)
    → lookup k (change f id windows) ≡ changed_if f (id == k) (lookup k windows)
unfolding change
lookup-change f id k windows = go (lookup id windows) refl
  where
    go :
        (o : Option Window)
        → lookup id windows ≡ o
        → lookup k (changed f id windows o) ≡ changed_if f (id == k) (lookup k windows)
    go none e = elim (Bool-cases (id == k)) [
      | inl this ↦
          let absent : lookup k windows ≡ none = rw (← ==→≡ id k this) e in rw (this, absent) refl
      | inr that ↦ rw that refl
    ]
    go (some w) e = elim (Bool-cases (id == k)) [
      | inl this ↦
          let found : lookup k windows ≡ some w = rw (← ==→≡ id k this) e in
          lookup-insert id k (f w) windows ∙ rw (this, found) refl
      | inr that ↦ lookup-insert id k (f w) windows ∙ rw that refl
    ]

pub change-IsSorted :
    (f : Window → Window) (id : ℕ) (windows : Table Window)
    → IsSorted windows
    → IsSorted (change f id windows)
unfolding change
change-IsSorted f id windows s = go (lookup id windows)
  where
    go : (o : Option Window) → IsSorted (changed f id windows o)
    go none = s
    go (some w) = insert-IsSorted id (f w) windows s

-- A window of the changed table was one before.
abbrev Was : (Window → Window) → Bool → Option Window → Window → Type 0
Was f b o w = (w0 : Window) × (o ≡ some w0) × (w ≡ (if b then f w0 else w0))

changed_if-eq-some :
    (f : Window → Window) (b : Bool) (o : Option Window) (w : Window)
    → changed_if f b o ≡ some w
    → Was f b o w
changed_if-eq-some f true none w e = absurd (cc)
changed_if-eq-some f true (some w0) w e = (w0, refl, cc)
changed_if-eq-some f false none w e = absurd (cc)
changed_if-eq-some f false (some w0) w e = (w0, refl, cc)

pub change-eq-some :
    (f : Window → Window) (id k : ℕ) (windows : Table Window) (w : Window)
    → lookup k (change f id windows) ≡ some w
    → Was f (id == k) (lookup k windows) w
change-eq-some f id k windows w e =
    changed_if-eq-some f (id == k) (lookup k windows) w (sym (lookup-change f id k windows) ∙ e)

pub change_present :
    (f : Window → Window) (id k : ℕ) (windows : Table Window) (w : Window)
    → lookup k windows ≡ some w
    → (w1 : Window) × (lookup k (change f id windows) ≡ some w1)
change_present f id k windows w e =
    let (w1, e1) = go (id == k) in (w1, lookup-change f id k windows ∙ rw e e1)
  where
    go : (b : Bool) → (w1 : Window) × (changed_if f b (some w) ≡ some w1)
    go true = (f w, refl)
    go false = (w, refl)

-- The windows of a table without focus, one of which gets the flag.
pub flag-Flagged :
    (id : ℕ) (windows : Table Window)
    → Flagged windows none
    → Flagged (set_flag true id windows) (some id)
flag-Flagged id windows h k w e =
    let (w0, e0, same) = change-eq-some (λ u. record u { focused = true }) id k windows w e in
    elim (Bool-cases (id == k)) [
      | inl this ↦ ap (λ (u : Window). u.focused) (rw this at same) ∙ sym this
      | inr that ↦ ap (λ (u : Window). u.focused) (rw that at same) ∙ h k w0 e0 ∙ sym that
    ]

unflag-Flagged :
    (focus : Option ℕ) (windows : Table Window)
    → Flagged windows focus
    → Flagged (unflag focus windows) none
unflag-Flagged none windows h = h
unflag-Flagged (some old) windows h = λ k w e.
    let (w0, e0, same) = change-eq-some (λ u. record u { focused = false }) old k windows w e in
    elim (Bool-cases (old == k)) [
      | inl this ↦ ap (λ (u : Window). u.focused) (rw this at same)
      | inr that ↦ ap (λ (u : Window). u.focused) (rw that at same) ∙ h k w0 e0 ∙ that
    ]

-- A change that keeps the flag and the ids keeps the focus as it is.
pub change-Focused :
    (f : Window → Window) (id left : ℕ) (windows : Table Window) (focus : Option ℕ) (next_id : ℕ)
    → ((w : Window) → (f w).focused ≡ w.focused)
    → Focused left windows focus next_id
    → Focused left (change f id windows) focus next_id
unfolding change lookup
change-Focused f id left windows focus next_id keeps h = record {
  sorted = change-IsSorted f id windows h.sorted;
  flags = λ k w e.
      let (w0, e0, same) = change-eq-some f id k windows w e in
      ap (λ (u : Window). u.focused) same ∙ kept (id == k) w0 ∙ h.flags k w0 e0;
  held = λ j e. let (w, e1) = h.held j e in change_present f id j windows w e1;
  idle = λ e. empty (h.idle e);
  fresh = λ k w e. let (w0, e0, same) = change-eq-some f id k windows w e in h.fresh k w0 e0;
  room = h.room;
}
  where
    kept : (b : Bool) (w : Window) → (if b then f w else w).focused ≡ w.focused
    kept true w = keeps w
    kept false w = refl

    empty : windows ≡ [] → change f id windows ≡ []
    empty e = rw e refl

pub empty_flags : (windows : Table Window) → windows ≡ [] → Flagged windows none
unfolding lookup
empty_flags windows e k w here = absurd (cc (rw e at here))

pub set_focus-Focused :
    (id left : ℕ) (m : WindowManager) → IsFocused left m → IsFocused left (set_focus id m).0
unfolding set_focus contains_key
set_focus-Focused id left m h = elim (Option-cases (lookup id m.windows)) [
  | inl absent ↦ rw absent h
  | inr (w, present) ↦ rw present (record {
    sorted = change-IsSorted _ id (unflag m.focused m.windows) (unflag-IsSorted m.focused);
    flags =
        flag-Flagged id (unflag m.focused m.windows) (unflag-Flagged m.focused m.windows h.flags);
    held = λ j e.
        let (w1, e1) = unflag_present m.focused w present in
        let same : id ≡ j = cc in
        subst
          (λ k. (v : Window) × (lookup k (set_flag true id (unflag m.focused m.windows)) ≡ some v))
          same (change_present _ id id (unflag m.focused m.windows) w1 e1);
    idle = λ e. absurd (cc);
    fresh = λ k v e.
        let (v0, e0, _) = change-eq-some _ id k (unflag m.focused m.windows) v e in
        unflag_fresh m.focused k v0 e0;
    room = h.room;
  })
]
  where
    unflag-IsSorted : (focus : Option ℕ) → IsSorted (unflag focus m.windows)
    unflag-IsSorted none = h.sorted
    unflag-IsSorted (some old) = change-IsSorted _ old m.windows h.sorted

    unflag_present :
        (focus : Option ℕ) (w : Window)
        → lookup id m.windows ≡ some w
        → (w1 : Window) × (lookup id (unflag focus m.windows) ≡ some w1)
    unflag_present none w e = (w, e)
    unflag_present (some old) w e = change_present _ old id m.windows w e

    unflag_fresh :
        (focus : Option ℕ) (k : ℕ) (v : Window)
        → lookup k (unflag focus m.windows) ≡ some v
        → k < m.next_id
    unflag_fresh none k v e = h.fresh k v e
    unflag_fresh (some old) k v e =
        let (v0, e0, _) = change-eq-some _ old k m.windows v e in h.fresh k v0 e0
