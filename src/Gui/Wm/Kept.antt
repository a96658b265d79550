-- ===== src/Gui/Wm/Kept.antt =====
-- protocols/gui-v1/src/wm.rs: the focus through each call.
use dunit_os.Prelude.{
  ℕ, suc, ◌+◌, ◌%◌, ◌^◌, ◌≡◌, ◌<◌, refl, sym, ◌∙◌, subst, true, false, not, ◌&&◌, List, [], ◌∷◌,
  length, Option, none, some, ◌==◌, if◌then◌else◌, is_some, arith, inl, inr, Bool-cases,
  Option-cases, if-cases, ==_self, ==→≡,
}
use dunit_os.Prelude.Table.{
  Table, lookup, insert, remove, contains_key, IsSorted, lookup-insert, lookup-remove,
  insert-IsSorted, remove-IsSorted,
}
use dunit_os.Gui.Wm.{
  Window, WindowManager, new_window, set_flag, create_window, first_key, is_focus, flag_next,
  destroy_window, set_focus, window_at, is_left, grabbed, pressed_at, moved_to, dragged, at,
  sampled, handle_mouse,
}
use dunit_os.Gui.Wm.Focused.{
  Call, step, run, Flagged, Focused, IsFocused, change-IsSorted, change_present, change-eq-some,
  flag-Flagged, change-Focused, set_focus-Focused,
}

-- A table whose windows have no flag, one of which takes the focus.
flag-Focused :
    (id left next_id : ℕ) (windows : Table Window) (w : Window)
    → IsSorted windows
    → Flagged windows none
    → lookup id windows ≡ some w
    → ((k : ℕ) (v : Window) → lookup k windows ≡ some v → k < next_id)
    → next_id + left < 2 ^ 32
    → Focused left (set_flag true id windows) (some id) next_id
flag-Focused id left next_id windows w sorted flags here fresh room = record {
  sorted = change-IsSorted _ id windows sorted;
  flags = flag-Flagged id windows flags;
  held = λ j e.
      let same : id ≡ j = cc in
      subst (λ k. (v : Window) × (lookup k (set_flag true id windows) ≡ some v)) same
        (change_present _ id id windows w here);
  idle = λ e. absurd (cc);
  fresh = λ k v e. let (v0, e0, _) = change-eq-some _ id k windows v e in fresh k v0 e0;
  room = room;
}

-- What a table has after an insertion: the new window, or one from before.
inserted {ℓ} :
    (P : ℕ → Window → Type ℓ) (id : ℕ) (w : Window) (windows : Table Window)
    → P id w
    → ((k : ℕ) (v : Window) → (id == k) ≡ false → lookup k windows ≡ some v → P k v)
    → (k : ℕ) (v : Window) → lookup k (insert id w windows) ≡ some v
    → P k v
inserted P id w windows new old k v e = elim (Bool-cases (id == k)) [
  | inl this ↦
      let same : w ≡ v = cc (rw this at (sym (lookup-insert id k w windows) ∙ e)) in
      subst (P k) same (subst (λ j. P j w) (==→≡ id k this) new)
  | inr that ↦ old k v that (rw that at (sym (lookup-insert id k w windows) ∙ e))
]

removed :
    (id k : ℕ) (windows : Table Window) (v : Window)
    → lookup k (remove id windows) ≡ some v
    → ((id == k) ≡ false) × (lookup k windows ≡ some v)
removed id k windows v e = elim (Bool-cases (id == k)) [
  | inl this ↦ absurd (cc (rw this at (sym (lookup-remove id k windows) ∙ e)))
  | inr that ↦ (that, rw that at (sym (lookup-remove id k windows) ∙ e))
]

one_less : (left : ℕ) (m : WindowManager) → IsFocused (suc left) m → IsFocused left m
one_less left m h = record {
  sorted = h.sorted;
  flags = h.flags;
  held = h.held;
  idle = h.idle;
  fresh = h.fresh;
  room = omega (arith, h.room);
}

create_window-Focused :
    (owner_pid x y width height buffer left : ℕ) (m : WindowManager)
    → IsFocused (suc left) m
    → IsFocused left (create_window owner_pid x y width height buffer m).0
unfolding create_window
create_window-Focused owner_pid x y width height buffer left m h = go m.focused refl
  where
    w : Window
    w = new_window m.next_id owner_pid x y width height buffer

    next : (m.next_id + 1) % 2 ^ 32 ≡ suc m.next_id
    next = omega (arith, h.room)

    fresh :
        (k : ℕ) (v : Window)
        → lookup k (insert m.next_id w m.windows) ≡ some v
        → k < (m.next_id + 1) % 2 ^ 32
    fresh =
        inserted (λ k v. k < (m.next_id + 1) % 2 ^ 32) m.next_id w m.windows (omega (arith, next))
          (λ k v _ e. omega (arith, next, h.fresh k v e))

    flagged :
        (o : Option ℕ)
        → Flagged m.windows o
        → is_focus m.next_id o ≡ false
        → Flagged (insert m.next_id w m.windows) o
    flagged o f new =
        inserted (λ k v. v.focused ≡ is_focus k o) m.next_id w m.windows (sym new)
          (λ k v _ e. f k v e)

    go :
        (o : Option ℕ)
        → m.focused ≡ o
        → Focused left
            (if is_some o
              then insert m.next_id w m.windows
              else set_flag true m.next_id (insert m.next_id w m.windows))
            (if is_some o then o else some m.next_id)
            ((m.next_id + 1) % 2 ^ 32)
    go none e =
        flag-Focused m.next_id left ((m.next_id + 1) % 2 ^ 32) (insert m.next_id w m.windows) w
          (insert-IsSorted m.next_id w m.windows h.sorted)
          (flagged none (subst (Flagged m.windows) e h.flags) refl)
          (lookup-insert m.next_id m.next_id w m.windows ∙ rw (==_self m.next_id) refl) fresh
          (omega (arith, next, h.room))
    go (some f) e =
        let (v, there) = h.held f e in
        let below = h.fresh f v there in
        record {
          sorted = insert-IsSorted m.next_id w m.windows h.sorted;
          flags = flagged (some f) (subst (Flagged m.windows) e h.flags) (ground arith);
          held = λ j e1.
              let same : f ≡ j = cc in
              (
                v,
                subst (λ k. lookup k (insert m.next_id w m.windows) ≡ some v) same
                    (lookup-insert m.next_id f w m.windows ∙ ground (arith, there)),
              );
          idle = λ e1. absurd (cc);
          fresh = fresh;
          room = omega (arith, next, h.room);
        }

destroy_window-Focused :
    (id left : ℕ) (m : WindowManager) → IsFocused left m → IsFocused left (destroy_window id m).0
unfolding destroy_window contains_key lookup
destroy_window-Focused id left m h = elim (Option-cases (lookup id m.windows)) [
  | inl absent ↦ rw absent h
  | inr (w, present) ↦ rw present (elim (Bool-cases (is_focus id m.focused)) [
    | inl focused ↦ rw focused (
        refocus (remove id m.windows) (remove-IsSorted id m.windows h.sorted) (rest_flags focused)
          rest_fresh)
    | inr other ↦ rw other (record {
      sorted = remove-IsSorted id m.windows h.sorted;
      flags = λ k v e. let (ne, e0) = removed id k m.windows v e in h.flags k v e0;
      held = λ j e.
          let (v, there) = h.held j e in
          let apart : (id == j) ≡ false = ground (arith, rw e at other) in
          (v, lookup-remove id j m.windows ∙ rw (apart) there);
      idle = λ e. absurd (cc (rw (h.idle e) at present));
      fresh = λ k v e. let (ne, e0) = removed id k m.windows v e in h.fresh k v e0;
      room = h.room;
    })
  ])
]
  where
    rest_flags : (is_focus id m.focused ≡ true) → Flagged (remove id m.windows) none
    rest_flags focused k v e =
        let (ne, e0) = removed id k m.windows v e in h.flags k v e0 ∙ others m.focused focused ne
      where
        others : (o : Option ℕ) → is_focus id o ≡ true → (id == k) ≡ false → is_focus k o ≡ false
        others none f ne = refl
        others (some j) f ne = ground (arith, f, ne)

    rest_fresh : (k : ℕ) (v : Window) → lookup k (remove id m.windows) ≡ some v → k < m.next_id
    rest_fresh k v e = let (ne, e0) = removed id k m.windows v e in h.fresh k v e0

    refocus :
        (rest : Table Window)
        → IsSorted rest
        → Flagged rest none
        → ((k : ℕ) (v : Window) → lookup k rest ≡ some v → k < m.next_id)
        → Focused left (flag_next (first_key rest) rest) (first_key rest) m.next_id
    refocus [] sorted flags fresh = record {
      sorted = sorted;
      flags = flags;
      held = λ j e. absurd (cc);
      idle = λ e. refl;
      fresh = fresh;
      room = h.room;
    }
    refocus ((k, v) ∷ rest) sorted flags fresh =
        flag-Focused k left m.next_id ((k, v) ∷ rest) v sorted flags (rw (==_self k) refl) fresh
          h.room

handle_mouse-Focused :
    (x y buttons left : ℕ) (m : WindowManager)
    → IsFocused left m
    → IsFocused left (handle_mouse x y buttons m)
unfolding handle_mouse
handle_mouse-Focused x y buttons left m h =
    if-cases (IsFocused left) (is_left buttons)
      (λ _. dragged-Focused now now.pointer.dragging now-Focused) (λ _. now-Focused)
  where
    now : WindowManager
    now = sampled x y (is_left buttons) (is_left m.pointer.buttons) (at x y m)

    dragged-Focused :
        (m1 : WindowManager) (o : Option ℕ) → IsFocused left m1 → IsFocused left (dragged x y m1 o)
    dragged-Focused m1 none h1 = h1
    dragged-Focused m1 (some id) h1 =
        change-Focused (moved_to x y m1.pointer) id left m1.windows m1.focused m1.next_id
          (λ w. refl) h1

    grabbed-Focused :
        (id : ℕ) (m1 : WindowManager) (o : Option Window)
        → IsFocused left m1
        → IsFocused left (grabbed x y id m1 o)
    grabbed-Focused id m1 none h1 = h1
    grabbed-Focused id m1 (some w) h1 = h1

    pressed-Focused : (o : Option ℕ) → IsFocused left (pressed_at x y (at x y m) o)
    pressed-Focused none = h
    pressed-Focused (some id) =
        let m1 : WindowManager = (set_focus id (at x y m)).0 in
        grabbed-Focused id m1 (lookup id m1.windows) (set_focus-Focused id left (at x y m) h)

    now-Focused : IsFocused left now
    now-Focused =
        if-cases (IsFocused left) (is_left buttons && not (is_left m.pointer.buttons))
          (λ _. pressed-Focused (window_at x y (at x y m)))
          (λ _.
            if-cases (IsFocused left) (not (is_left buttons) && is_left m.pointer.buttons) (λ _. h)
              (λ _. h))

step-Focused :
    (c : Call) (left : ℕ) (m : WindowManager) → IsFocused (suc left) m → IsFocused left (step c m)
unfolding step
step-Focused (Call.create owner_pid x y width height buffer) left m h =
    create_window-Focused owner_pid x y width height buffer left m h
step-Focused (Call.destroy id) left m h = destroy_window-Focused id left m (one_less left m h)
step-Focused (Call.give_focus id) left m h = set_focus-Focused id left m (one_less left m h)
step-Focused (Call.mouse x y buttons) left m h =
    handle_mouse-Focused x y buttons left m (one_less left m h)

-- Through any calls, just one window is focused and only it has the flag, or there are no windows, as long as ids do
-- not run over 32 bits.
pub run-IsFocused :
    (calls : List Call) (m : WindowManager) → IsFocused (length calls) m → IsFocused 0 (run calls m)
unfolding run
run-IsFocused [] m h = h
run-IsFocused (c ∷ cs) m h = run-IsFocused cs (step c m) (step-Focused c (length cs) m h)
