-- ===== src/Prelude/Table.antt =====
-- `BTreeMap` with numeric keys: an association list in ascending key order, as iteration sees it.
use Prim.Native.Nat.{ℕ, suc, ◌+◌, ◌≤◌, ◌<◌}
use mathlib.Core.Path.{◌≡◌, refl}
use mathlib.Core.Logic.{◌⊎◌, inl, inr}
use mathlib.Core.Bool.{Bool, true, false}
use mathlib.Core.List.{List, [], ◌∷◌}
use mathlib.Core.Option.{Option, none, some}
use native.Mathlib.Omega.{arith}
use dunit_os.Prelude.Tests.{◌==◌, ltb, if◌then◌else◌, is_some}

abbrev pub Table {ℓ} : Type ℓ → Type ℓ
Table V = List (ℕ × V)

module _ {ℓ} {V : Type ℓ} where
  unfoldable pub lookup : ℕ → Table V → Option V
  lookup k [] = none
  lookup k ((j, v) ∷ m) = if j == k then some v else lookup k m

  unfoldable pub insert : ℕ → V → Table V → Table V
  insert k v [] = (k, v) ∷ []
  insert k v ((j, w) ∷ m) =
      if ltb k j then (k, v) ∷ (j, w) ∷ m else if k == j then (k, v) ∷ m else (j, w) ∷ insert k v m

  unfoldable pub remove : ℕ → Table V → Table V
  remove k [] = []
  remove k ((j, v) ∷ m) = if j == k then remove k m else (j, v) ∷ remove k m

  unfoldable pub contains_key : ℕ → Table V → Bool
  contains_key k m = is_some (lookup k m)

  unfoldable pub size : Table V → ℕ
  size [] = 0
  size ((k, v) ∷ m) = suc (size m)

  unfoldable pub values : Table V → List V
  values [] = []
  values ((k, v) ∷ m) = v ∷ values m

  -- The entries that pass a test, by key and value.
  unfoldable pub filter : (ℕ → V → Bool) → Table V → Table V
  filter p [] = []
  filter p ((k, v) ∷ m) = if p k v then (k, v) ∷ filter p m else filter p m

  -- The first entry, in ascending order, that passes a test: its key.
  unfoldable pub find_key : (V → Bool) → Table V → Option ℕ
  find_key p [] = none
  find_key p ((k, v) ∷ m) = if p v then some k else find_key p m

  -- The sum of a quantity over the entries.
  unfoldable pub total : (V → ℕ) → Table V → ℕ
  total f [] = 0
  total f ((k, v) ∷ m) = f v + total f m

  -- Keys ascend, all above a bound, as in every `BTreeMap`.
  abbrev pub Above : ℕ → Table V → Type 0
  Above b [] = Unit
  Above b ((k, v) ∷ m) = (b ≤ k) × Above (suc k) m

  abbrev pub IsSorted : Table V → Type 0
  IsSorted m = Above 0 m

module _ {ℓ} {V : Type ℓ} where
  pub lookup-insert :
      (key other : ℕ) (value : V) (entries : Table V)
      → lookup other (insert key value entries)
        ≡ (if key == other then some value else lookup other entries)
  unfolding insert lookup
  lookup-insert key other value [] = refl
  lookup-insert key other value ((first, old) ∷ rest) =
      ground (arith, lookup-insert key other value rest)

  pub lookup-remove :
      (k j : ℕ) (m : Table V) → lookup j (remove k m) ≡ (if k == j then none else lookup j m)
  unfolding lookup remove
  lookup-remove k j [] = ground arith
  lookup-remove k j ((i, w) ∷ m) = ground (arith, lookup-remove k j m)

  pub Above-mono : {a b : ℕ} (m : Table V) → a ≤ b → Above b m → Above a m
  Above-mono [] h s = tt
  Above-mono ((k, v) ∷ m) h s = (omega arith, s.1)

  pub lookup-Above : (b k : ℕ) (m : Table V) → Above b m → k < b → lookup k m ≡ none
  unfolding lookup
  lookup-Above b k [] s h = refl
  lookup-Above b k ((j, v) ∷ m) s h = ground (arith, lookup-Above (suc j) k m s.1)

  pub insert-Above : (b k : ℕ) (v : V) (m : Table V) → b ≤ k → Above b m → Above b (insert k v m)
  unfolding insert
  insert-Above b k v [] h s = (h, tt)
  insert-Above b k v ((j, w) ∷ m) h s = ground (arith, insert-Above (suc j) k v m)

  pub remove-Above : (b k : ℕ) (m : Table V) → Above b m → Above b (remove k m)
  unfolding remove
  remove-Above b k [] s = tt
  remove-Above b k ((j, w) ∷ m) s =
      ground (arith, remove-Above (suc j) k m s.1, Above-mono {a = b} {b = suc j} (remove k m))

  pub insert-IsSorted : (k : ℕ) (v : V) (m : Table V) → IsSorted m → IsSorted (insert k v m)
  insert-IsSorted k v m s = insert-Above 0 k v m (omega arith) s

  pub remove-IsSorted : (k : ℕ) (m : Table V) → IsSorted m → IsSorted (remove k m)
  remove-IsSorted k m s = remove-Above 0 k m s

  -- What an absent key adds to a total, what a present one changes, and what a removal takes away.
  remove_absent : (b k : ℕ) (m : Table V) → Above b m → k < b → remove k m ≡ m
  unfolding remove
  remove_absent b k [] s h = refl
  remove_absent b k ((j, v) ∷ m) s h = ground (arith, remove_absent (suc j) k m s.1)

  pub total-remove :
      (f : V → ℕ) (b k : ℕ) (v : V) (m : Table V)
      → Above b m
      → lookup k m ≡ some v
      → total f (remove k m) + f v ≡ total f m
  unfolding total remove lookup
  total-remove f b k v [] s h = absurd (cc)
  total-remove f b k v ((j, w) ∷ m) s h =
      ground (arith, total-remove f (suc j) k v m s.1, remove_absent (suc j) k m s.1)

  pub total-insert :
      (f : V → ℕ) (b k : ℕ) (v : V) (m : Table V)
      → Above b m
      → lookup k m ≡ none
      → total f (insert k v m) ≡ f v + total f m
  unfolding total insert lookup
  total-insert f b k v [] s h = refl
  total-insert f b k v ((j, w) ∷ m) s h = ground (arith, total-insert f (suc j) k v m s.1)

  pub total-replace :
      (f : V → ℕ) (b k : ℕ) (u v : V) (m : Table V)
      → Above b m
      → lookup k m ≡ some u
      → total f (insert k v m) + f u ≡ f v + total f m
  unfolding total insert lookup
  total-replace f b k u v [] s h = absurd (cc)
  total-replace f b k u v ((j, w) ∷ m) s h =
      ground (arith, total-replace f (suc j) k u v m s.1, lookup-Above (suc j) k m s.1)

  pub total-le : (f : V → ℕ) (k : ℕ) (v : V) (m : Table V) → lookup k m ≡ some v → f v ≤ total f m
  unfolding total lookup
  total-le f k v [] h = absurd (cc)
  total-le f k v ((j, w) ∷ m) h = ground (arith, total-le f k v m)

  -- Each entry that `find_key` names is in the table and passes the test.
  pub find_key-lookup :
      (p : V → Bool) (b k : ℕ) (m : Table V)
      → Above b m
      → find_key p m ≡ some k
      → (v : V) × (lookup k m ≡ some v) × (p v ≡ true)
  unfolding find_key lookup
  find_key-lookup p b k [] s h = absurd (cc)
  find_key-lookup p b k ((j, w) ∷ m) s h = elim (if-cases (p w)) [
    | inl yes' ↦ (w, ground arith, yes')
    | inr no' ↦
        let r = find_key-lookup p (suc j) k m s.1 (rw no' at h) in
        (r.0, ground (arith, r.1, lookup-Above (suc j) k m s.1), r.2)
  ]
    where
      if-cases : (c : Bool) → (c ≡ true) ⊎ (c ≡ false)
      if-cases true = inl refl
      if-cases false = inr refl

  -- How the number of entries changes.
  size-total : (m : Table V) → size m ≡ total (λ _. 1) m
  unfolding size total
  size-total [] = refl
  size-total ((k, v) ∷ m) = omega (arith, size-total m)

  pub size-insert-le : (k : ℕ) (v : V) (m : Table V) → size (insert k v m) ≤ size m + 1
  unfolding size insert
  size-insert-le k v [] = omega arith
  size-insert-le k v ((j, w) ∷ m) = ground (arith, size-insert-le k v m)

  pub size-remove-le : (k : ℕ) (m : Table V) → size (remove k m) ≤ size m
  unfolding size remove
  size-remove-le k [] = omega arith
  size-remove-le k ((j, w) ∷ m) = ground (arith, size-remove-le k m)

  pub size-replace :
      (k : ℕ) (v w : V) (m : Table V)
      → IsSorted m
      → lookup k m ≡ some v
      → size (insert k w m) ≡ size m
  size-replace k v w m s e =
      omega (arith, size-total m, size-total (insert k w m), total-replace (λ _. 1) 0 k v w m s e)

  pub lookup-insert-eq-some :
      (k j : ℕ) (v : V) (m : Table V) {w : V}
      → lookup j (insert k v m) ≡ some w
      → (v ≡ w) ⊎ (lookup j m ≡ some w)
  lookup-insert-eq-some k j v m h = ground (arith, lookup-insert k j v m)
