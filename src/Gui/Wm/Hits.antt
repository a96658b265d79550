-- ===== src/Gui/Wm/Hits.antt =====
-- protocols/gui-v1/src/wm.rs: which window a point hits.
use dunit_os.Prelude.{
  ℕ, suc, ◌≡◌, ◌<◌, refl, subst, Bool, true, false, [], ◌∷◌, Option, none, some, ◌==◌,
  if◌then◌else◌, arith, inl, inr, Bool-cases, ==_self,
}
use dunit_os.Prelude.Table.{Table, lookup, Above, IsSorted, lookup-Above}
use dunit_os.Gui.Wm.{Window, WindowManager, last_key, is_hit, window_at}

-- A window that passes the test, above which none does; or no window that does.
abbrev pub Topmost : (Window → Bool) → Table Window → Option ℕ → Type 0
Topmost p windows none = (k : ℕ) (w : Window) → lookup k windows ≡ some w → p w ≡ false
Topmost p windows (some id) =
    (w : Window) × (lookup id windows ≡ some w)
    × (p w ≡ true)
    × ((k : ℕ) (v : Window) → lookup k windows ≡ some v → id < k → p v ≡ false)

last_key-Topmost :
    (p : Window → Bool) (b : ℕ) (windows : Table Window)
    → Above b windows
    → Topmost p windows (last_key p windows)
unfolding last_key lookup
last_key-Topmost p b [] s = λ k w e. absurd (cc)
last_key-Topmost p b ((j, w) ∷ windows) s =
    go (last_key p windows) (last_key-Topmost p (suc j) windows s.1)
  where
    -- An entry of the longer table.
    entry :
        (k : ℕ) (v : Window)
        → lookup k ((j, w) ∷ windows) ≡ some v
        → (j == k) ≡ false
        → lookup k windows ≡ some v
    entry k v e that = rw that at e

    last :
        (c : Bool)
        → p w ≡ c
        → Topmost p windows none
        → Topmost p ((j, w) ∷ windows) (if c then some j else none)
    last true passes none_there =
        (w, rw (==_self j) refl, passes, λ k v e above. none_there k v (entry k v e (ground arith)))
    last false fails none_there = λ k v e. elim (Bool-cases (j == k)) [
      | inl this ↦ let same : w ≡ v = cc (rw this at e) in subst (λ u. p u ≡ false) same fails
      | inr that ↦ none_there k v (entry k v e that)
    ]

    go :
        (o : Option ℕ)
        → Topmost p windows o
        → Topmost p
            ((j, w) ∷ windows)
            (elim o [ none ↦ if p w then some j else none | some i ↦ some i ])
    go none t = last (p w) refl t
    go (some i) (v, here, passes, above) = (
      v,
      ground (arith, here, lookup-Above (suc j) i windows s.1),
      passes,
      λ k u e h. elim (Bool-cases (j == k)) [
        | inl this ↦ absurd (ground (arith, here, this, h, lookup-Above (suc j) i windows s.1))
        | inr that ↦ above k u (entry k u e that) h
      ],
    )

-- A point hits the topmost of the visible windows whose body it lies in, and none only where it lies in none.
pub window_at_lem :
    (x y : ℕ) (m : WindowManager)
    → IsSorted m.windows
    → Topmost (is_hit x y) m.windows (window_at x y m)
unfolding window_at
window_at_lem x y m s = last_key-Topmost (is_hit x y) 0 m.windows s
