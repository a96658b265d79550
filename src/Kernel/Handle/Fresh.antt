-- ===== src/Kernel/Handle/Fresh.antt =====
-- kernel/src/handle.rs: the search for an id, and `HandleTable::insert`.
use dunit_os.Prelude.{
  ℕ, zero, suc, ◌+◌, ◌%◌, ◌^◌, ◌≡◌, ◌≢◌, ◌≤◌, ◌<◌, ◌⊎◌, inl, inr, refl, subst, Bool, true, false,
  [], ◌∷◌, Option, none, some, bit_and, arith, if◌then◌else◌,
}
use dunit_os.Prelude.Table.{
  Table, lookup, insert, remove, contains_key, size, lookup-insert, lookup-remove, size-insert-le,
  size-remove-le,
}
use dunit_os.Prelude.Results.{ok, err}
use dunit_os.Kernel.Handle.{
  HandleEntry, HandleTable, HandleObject, HandleError, is_usable, search, allocate_id,
  insert_object, publish, get, rights_all,
}

-- The id that the loop tries after `i` turns.
abbrev tried : ℕ → ℕ → ℕ
tried next i = (next + i) % 2 ^ 32

size-remove : (k : ℕ) (m : Table HandleEntry) → contains_key k m ≡ true → size (remove k m) < size m
unfolding contains_key size remove lookup
size-remove k [] h = absurd (cc)
size-remove k ((j, v) ∷ m) h = ground (arith, size-remove k m, size-remove-le k m)

tried-differ : (next i n : ℕ) → i < n → n < 2 ^ 32 → tried next i ≢ tried next n
tried-differ next i n h k e = omega arith

still-taken :
    (i k : ℕ) (m : Table HandleEntry)
    → i ≢ k
    → contains_key i m ≡ true
    → contains_key i (remove k m) ≡ true
unfolding contains_key
still-taken i k m h t = ground (arith, lookup-remove k i m)

-- As many ids as are all taken are no more than the entries.
taken-le :
    (n next : ℕ) (m : Table HandleEntry)
    → n ≤ 2 ^ 32
    → ((i : ℕ) → i < n → contains_key (tried next i) m ≡ true)
    → n ≤ size m
taken-le zero next m h f = omega arith
taken-le (suc n) next m h f = omega (
  arith,
  taken-le n next (remove (tried next n) m) (omega arith) (λ i k.
      still-taken (tried next i) (tried next n) m (tried-differ next i n k (omega arith))
        (f i (omega arith))),
  size-remove (tried next n) m (f n (omega arith)),
)

-- A turn that finds nothing.
turn-eq-none :
    (b : Bool) (found : ℕ × ℕ) (rest : Option (ℕ × ℕ))
    → (if b then some found else rest) ≡ none
    → (b ≡ false) × (rest ≡ none)
turn-eq-none true found rest e = absurd (cc)
turn-eq-none false found rest e = (refl, e)

-- A search that fails has found each of its ids zero or taken.
search-eq-none :
    (n next : ℕ) (m : Table HandleEntry)
    → search n m (next % 2 ^ 32) ≡ none
    → (i : ℕ) → i < n
    → is_usable m (tried next i) ≡ false
unfolding search
search-eq-none zero next m e i h = absurd (omega arith)
search-eq-none (suc n) next m e zero h =
    let t =
      turn-eq-none (is_usable m (next % 2 ^ 32)) (next % 2 ^ 32, (next % 2 ^ 32 + 1) % 2 ^ 32) _
        e in
    let same : next % 2 ^ 32 ≡ tried next 0 = omega arith in
    subst (λ d. is_usable m d ≡ false) same t.0
search-eq-none (suc n) next m e (suc i) h =
    let t =
      turn-eq-none (is_usable m (next % 2 ^ 32)) (next % 2 ^ 32, (next % 2 ^ 32 + 1) % 2 ^ 32) _
        e in
    let on : (next % 2 ^ 32 + 1) % 2 ^ 32 ≡ (next + 1) % 2 ^ 32 = omega arith in
    let same : tried (next + 1) i ≡ tried next (suc i) = omega arith in
    subst (λ d. is_usable m d ≡ false) same
      (search-eq-none n (next + 1) m (subst (λ d. search n m d ≡ none) on t.1) i (omega arith))

unusable-contains :
    (id : ℕ) (blank : HandleEntry) (m : Table HandleEntry)
    → is_usable m id ≡ false
    → contains_key id (insert 0 blank m) ≡ true
unfolding contains_key
unusable-contains id blank m u = ground (arith, lookup-insert 0 id blank m)

-- With as many turns as there are entries and two more, the loop finds an id.
search-found :
    (next : ℕ) (m : Table HandleEntry)
    → next < 2 ^ 32
    → size m + 2 ≤ 2 ^ 32
    → search (size m + 2) m next ≢ none
search-found next m h k e =
    let same : next ≡ next % 2 ^ 32 = omega arith in
    let failed : search (size m + 2) m (next % 2 ^ 32) ≡ none =
      subst (λ d. search (size m + 2) m d ≡ none) same e in
    omega (
      arith,
      size-insert-le 0 blank m,
      taken-le (size m + 2) next (insert 0 blank m) k
          (λ i lt. taken (tried next i) (search-eq-none (size m + 2) next m failed i lt)),
    )
  where
    blank : HandleEntry
    blank = record { object = HandleObject.display; rights = 0 }

    taken : (id : ℕ) → is_usable m id ≡ false → contains_key id (insert 0 blank m) ≡ true
    taken id u = unusable-contains id blank m u

turn-eq-some :
    (b : Bool) (next next' id after : ℕ) (rest : Option (ℕ × ℕ))
    → (if b then some (next, next') else rest) ≡ some (id, after)
    → ((b ≡ true) × (next ≡ id)) ⊎ (rest ≡ some (id, after))
turn-eq-some true next next' id after rest e = inl (refl, cc)
turn-eq-some false next next' id after rest e = inr e

search-eq-some :
    (n next : ℕ) (m : Table HandleEntry) (id after : ℕ)
    → search n m next ≡ some (id, after)
    → is_usable m id ≡ true
unfolding search
search-eq-some zero next m id after e = absurd (cc)
search-eq-some (suc n) next m id after e =
    elim (turn-eq-some (is_usable m next) next ((next + 1) % 2 ^ 32) id after _ e) [
      | inl (u, same) ↦ subst (λ d. is_usable m d ≡ true) same u
      | inr rest ↦ search-eq-some n ((next + 1) % 2 ^ 32) m id after rest
    ]

-- What publishing an object comes to: a fresh handle, not 0, that holds the object with the rights that
-- exist, and all other handles as they were.
abbrev pub Publishes : HandleTable → HandleObject → ℕ → Option (HandleTable × ℕ) → Type 0
Publishes t object rights r =
    (t' : HandleTable) × (handle : ℕ) × (r ≡ some (t', handle))
    × (handle ≢ 0)
    × (get t handle ≡ err HandleError.bad_handle)
    × (get t' handle ≡ ok (record { object = object; rights = bit_and rights rights_all }))
    × ((other : ℕ) → other ≢ handle → get t' other ≡ get t other)

-- Publishing an object in a table that is not full always ends, in a fresh handle that is not 0, and
-- leaves all other handles as they were.
pub insert_object_lem :
    (t : HandleTable) (object : HandleObject) (rights : ℕ)
    → t.next < 2 ^ 32
    → size t.entries + 2 ≤ 2 ^ 32
    → Publishes t object rights (insert_object t object rights)
unfolding insert_object allocate_id get contains_key
insert_object_lem t object rights h k = go (search (size t.entries + 2) t.entries t.next) refl
  where
    go :
        (o : Option (ℕ × ℕ))
        → search (size t.entries + 2) t.entries t.next ≡ o
        → Publishes t object rights (publish t object rights o)
    go none e = absurd (search-found t.next t.entries h k e)
    go (some (id, next)) e =
        let usable = search-eq-some (size t.entries + 2) t.next t.entries id next e in
        let entry : HandleEntry = record { object = object; rights = bit_and rights rights_all } in
        (
          record { entries = insert id entry t.entries; next = next },
          id,
          refl,
          ground (arith, usable),
          ground (arith, usable),
          ground (arith, lookup-insert id id entry t.entries),
          λ other ne. ground (arith, lookup-insert id other entry t.entries),
        )
