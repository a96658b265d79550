-- ===== src/Prelude/Entries.antt =====
-- Properties of all values of a table, and what a filter and a replacement leave to be found.
use Prim.Native.Nat.{ℕ, suc}
use mathlib.Core.Path.{◌≡◌, subst}
use mathlib.Core.Bool.{Bool, true, false}
use mathlib.Core.Logic.{inl, inr}
use mathlib.Core.List.{[], ◌∷◌}
use mathlib.Core.Option.{some}
use native.Mathlib.Omega.{arith}
use dunit_os.Prelude.Tests.{◌==◌, ltb, Bool-cases, ==→≡}
use dunit_os.Prelude.Table.{
  Table, lookup, insert, remove, filter, find_key, Above, IsSorted, Above-mono, lookup-Above,
}

module _ {ℓ κ} {V : Type ℓ} (P : V → Type κ) where
  abbrev pub AllValues : Table V → Type κ
  AllValues [] = Unit
  AllValues ((k, v) ∷ m) = P v × AllValues m

  pub insert-AllValues :
      (k : ℕ) (v : V) (m : Table V) → P v → AllValues m → AllValues (insert k v m)
  unfolding insert
  insert-AllValues k v [] p a = (p, tt)
  insert-AllValues k v ((j, w) ∷ m) p a = ground (arith, insert-AllValues k v m p a.1)

  pub remove-AllValues : (k : ℕ) (m : Table V) → AllValues m → AllValues (remove k m)
  unfolding remove
  remove-AllValues k [] a = tt
  remove-AllValues k ((j, w) ∷ m) a = ground (arith, remove-AllValues k m a.1)

  pub filter-AllValues : (q : ℕ → V → Bool) (m : Table V) → AllValues m → AllValues (filter q m)
  unfolding filter
  filter-AllValues q [] a = tt
  filter-AllValues q ((j, w) ∷ m) a = ground (arith, filter-AllValues q m a.1)

  pub lookup-AllValues : (k : ℕ) {v : V} (m : Table V) → AllValues m → lookup k m ≡ some v → P v
  unfolding lookup
  lookup-AllValues k [] a e = absurd (cc)
  lookup-AllValues k {v} ((j, w) ∷ m) a e = elim (Bool-cases (j == k)) [
    | inl here ↦ let e' : some w ≡ some v = rw here at e in subst P (cc) (a.0)
    | inr other ↦ lookup-AllValues k m a.1 (rw other at e)
  ]

module _ {ℓ} {V : Type ℓ} where
  filter-Above : (q : ℕ → V → Bool) (b : ℕ) (m : Table V) → Above b m → Above b (filter q m)
  unfolding filter
  filter-Above q b [] a = tt
  filter-Above q b ((j, w) ∷ m) a = elim (Bool-cases (q j w)) [
    | inl keep ↦ rw keep (a.0, filter-Above q (suc j) m a.1)
    | inr out ↦
        rw out
          (Above-mono {a = b} {b = suc j} (filter q m) (omega arith) (filter-Above q (suc j) m a.1))
  ]

  pub filter-IsSorted : (q : ℕ → V → Bool) (m : Table V) → IsSorted m → IsSorted (filter q m)
  filter-IsSorted q m s = filter-Above q 0 m s

  pub lookup-filter :
      (q : ℕ → V → Bool) (b k : ℕ) {v : V} (m : Table V)
      → Above b m
      → lookup k m ≡ some v
      → q k v ≡ true
      → lookup k (filter q m) ≡ some v
  unfolding filter lookup
  lookup-filter q b k [] a e h = e
  lookup-filter q b k {v} ((j, w) ∷ m) a e h = elim (Bool-cases (j == k)) [
    | inl here ↦
        let e' : some w ≡ some v = rw here at e in
        let keep : q j w ≡ true = ground (arith, h, ==→≡ j k here) in rw (keep, here) e'
    | inr other ↦
        let ih = lookup-filter q (suc j) k m a.1 (rw other at e) h in
        elim (Bool-cases (q j w)) [ inl keep ↦ rw (keep, other) ih | inr out ↦ rw out ih ]
  ]

  -- A replacement that does not change the test leaves the first entry that passes it.
  pub find_key-replace :
      (p : V → Bool) (b k : ℕ) (v w : V) (m : Table V)
      → Above b m
      → lookup k m ≡ some v
      → p w ≡ p v
      → find_key p (insert k w m) ≡ find_key p m
  unfolding find_key insert lookup
  find_key-replace p b k v w [] a e h = absurd (cc)
  find_key-replace p b k v w ((j, u) ∷ m) a e h = elim (Bool-cases (j == k)) [
    | inl here ↦
        let e' : some u ≡ some v = rw here at e in
        let k_eq = ==→≡ j k here in
        let not_less : ltb k j ≡ false = ground arith in
        let equal : (k == j) ≡ true = ground arith in
        let same : p w ≡ p u = ground (arith, h) in rw (not_less, equal) (ground arith)
    | inr other ↦
        let e' : lookup k m ≡ some v = rw other at e in
        let ih = find_key-replace p (suc j) k v w m a.1 e' h in
        elim (Bool-cases (ltb k j)) [
          | inl less ↦ cc (e', lookup-Above (suc j) k m a.1 (ground arith))
          | inr more ↦
              let differ : (k == j) ≡ false = ground arith in rw (more, differ) (ground (arith, ih))
        ]
  ]
