-- ===== src/Kernel/Pty/Typing.antt =====
-- kernel/src/pty/mod.rs: a line that is typed, and the reads of the slave.
use dunit_os.Prelude.{
  ℕ, zero, suc, ◌-◌, ◌≡◌, ◌≢◌, ◌≤◌, ◌<◌, ◌⊎◌, inl, inr, refl, ap, ◌∙◌, min, bit_and, ◌!=◌, Bool,
  true, false, ◌||◌, List, [], ◌∷◌, ◌++◌, length, is_empty, some, ◌==◌, arith, length-append,
  append_assoc, Bool-cases, if-cases, ==→≡, take_all,
}
use dunit_os.Prelude.Table.{lookup, IsSorted, lookup-insert}
use dunit_os.Prelude.Entries.{find_key-replace}
use dunit_os.Kernel.Pty.{
  termios_lflag, icanon, Ptys, find_by_slave, put, master_write, is_pid, Pty, ring_push,
  pty_ring_cap, pop_back, newline, type_byte, type_bytes, write_line, echoed, is_canonical, is_echo,
  erase_of,
}
use dunit_os.Kernel.Pty.Slave.{with_slave, slave_read_stdin, slave_input, read_line}
use dunit_os.Kernel.Pty.Editor.{NoNewline, IsLine}
use dunit_os.Kernel.Pty.Line.{echoed-same, push_lem}

-- A byte of a line that edits nothing and does not end it.
abbrev pub Plain : ℕ → List ℕ → Type 0
Plain erase [] = Unit
Plain erase (b ∷ bs) = ((b == erase || (b == 0x08 || b == newline)) ≡ false) × Plain erase bs

-- What a typed line leaves, on its slave's side.
abbrev pub Typed : List ℕ → List ℕ → Pty → Type 0
Typed pending ring p = (p.canon ≡ pending) × (p.to_slave ≡ ring)

type_byte_plain :
    (echo : Bool) (erase b : ℕ) (p : Pty)
    → (b == erase || (b == 0x08 || b == newline)) ≡ false
    → Typed (p.canon ++ b ∷ []) p.to_slave (type_byte true echo erase b p)
unfolding type_byte
type_byte_plain echo erase b p h =
    let edits : (b == erase || b == 0x08) ≡ false = ground arith in
    let ends : (b == newline) ≡ false = ground arith in
    let e = echoed-same echo (b ∷ []) (record p { canon = p.canon ++ b ∷ [] }) in
    rw (edits, ends) (e.1, e.0)

pub type-Plain :
    (echo : Bool) (erase : ℕ) (xs : List ℕ) (p : Pty)
    → Plain erase xs
    → newline ≢ erase
    → Typed []
        (ring_push p.to_slave (p.canon ++ (xs ++ newline ∷ [])))
        (type_bytes true echo erase (xs ++ newline ∷ []) p)
unfolding type_bytes type_byte
type-Plain echo erase [] p h ne =
    let edits : (newline == erase || newline == 0x08) ≡ false = ground arith in
    let e = echoed-same echo (newline ∷ []) (record p { canon = p.canon ++ newline ∷ [] }) in
    rw edits (refl, rw (e.0, e.1) refl)
type-Plain echo erase (b ∷ xs) p h ne =
    let p1 = type_byte true echo erase b p in
    let (c1, r1) = type_byte_plain echo erase b p h.0 in
    let (c, r) = type-Plain echo erase xs p1 h.1 ne in
    (
      c,
      r
          ∙ (rw (c1, r1)
              (ap (ring_push p.to_slave) (append_assoc p.canon (b ∷ []) (xs ++ newline ∷ [])))),
    )

-- A read of one line.
pub read_whole :
    (room : ℕ) (xs : List ℕ)
    → NoNewline xs
    → length xs < room
    → read_line room (xs ++ newline ∷ []) ≡ ([], xs ++ newline ∷ [])
unfolding read_line
read_whole zero xs h l = absurd (omega arith)
read_whole (suc room) [] h l = refl
read_whole (suc room) (x ∷ xs) h l = (ground (arith, read_whole room xs))

-- A read takes bytes from the front of the ring: up to the first newline, or else as many as there is room for.
pub read_line_lem :
    (room : ℕ) (ring : List ℕ)
    → ((read_line room ring).1 ++ (read_line room ring).0 ≡ ring)
      × (IsLine (read_line room ring).1
          ⊎ (NoNewline (read_line room ring).1
              × (length (read_line room ring).1 ≡ min room (length ring))))
unfolding read_line
read_line_lem zero ring = (refl, inr (refl, omega arith))
read_line_lem (suc room) [] = (refl, inr (refl, omega arith))
read_line_lem (suc room) (b ∷ ring) =
    let (e, cases) = read_line_lem room ring in
    elim (Bool-cases (b == newline)) [
      | inl last ↦ rw last (refl, inl ([], ap (λ x. x ∷ []) (==→≡ b newline last), refl))
      | inr more ↦ rw more (
        ap (◌∷◌ b) e,
        elim cases [
          | inl (xs, f, n) ↦ inl (b ∷ xs, ap (◌∷◌ b) f, (ground arith))
          | inr (n, l) ↦ inr ((ground arith), (omega arith))
        ],
      )
    ]

-- What no write changes.
abbrev Ends : Pty → Pty → Type 0
Ends p p' = (p'.slave ≡ p.slave) × (p'.termios ≡ p.termios)

echoed-Ends : (echo : Bool) (bytes : List ℕ) (p : Pty) → Ends p (echoed echo bytes p)
echoed-Ends echo bytes p = let e = echoed-same echo bytes p in (e.3, e.4)

type_byte-Ends :
    (canonical echo : Bool) (erase b : ℕ) (p : Pty) → Ends p (type_byte canonical echo erase b p)
unfolding type_byte
type_byte-Ends true echo erase b p =
    if-cases (Ends p) (b == erase || b == 0x08)
      (λ _.
        if-cases (Ends p) (is_empty p.canon) (λ _. (refl, refl))
          (λ _. echoed-Ends echo (0x08 ∷ b' ' ∷ 0x08 ∷ []) (record p { canon = pop_back p.canon })))
      (λ _.
        if-cases (Ends p) (b == newline)
          (λ _. echoed-Ends echo (b ∷ []) (record p { canon = p.canon ++ b ∷ [] }))
          (λ _. echoed-Ends echo (b ∷ []) (record p { canon = p.canon ++ b ∷ [] })))
type_byte-Ends false echo erase b p =
    echoed-Ends echo (b ∷ []) (record p { to_slave = ring_push p.to_slave (b ∷ []) })

type_bytes-Ends :
    (canonical echo : Bool) (erase : ℕ) (bytes : List ℕ) (p : Pty)
    → Ends p (type_bytes canonical echo erase bytes p)
unfolding type_bytes
type_bytes-Ends canonical echo erase [] p = (refl, refl)
type_bytes-Ends canonical echo erase (b ∷ bytes) p =
    let (s, t) = type_byte-Ends canonical echo erase b p in
    let (s', t') =
      type_bytes-Ends canonical echo erase bytes (type_byte canonical echo erase b p) in
    (s' ∙ s, t' ∙ t)

-- A terminal after a line that was typed, and fitted.
typed_line :
    (p : Pty) (xs : List ℕ)
    → is_canonical p ≡ true
    → p.canon ≡ []
    → p.to_slave ≡ []
    → Plain (erase_of p) xs
    → newline ≢ erase_of p
    → length xs < pty_ring_cap
    → ((write_line (xs ++ newline ∷ []) p).0.to_slave ≡ xs ++ newline ∷ [])
      × Ends p (write_line (xs ++ newline ∷ []) p).0
unfolding write_line
typed_line p xs mode idle empty plain ends fits =
    let line : List ℕ = xs ++ newline ∷ [] in
    let short : length line ≤ pty_ring_cap - length {A = ℕ} [] =
      omega (arith, length-append xs (newline ∷ [])) in
    rw mode (
      (type-Plain (is_echo p) (erase_of p) xs p plain ends).1
          ∙ rw (empty, idle) (push_lem [] line ∙ take_all _ line short),
      type_bytes-Ends true (is_echo p) (erase_of p) line p,
    )

-- A read by the slave of the terminal at `id`.
read_at :
    (process_exists : ℕ → Bool) (pid len id : ℕ) (t : Ptys) (p : Pty)
    → find_by_slave pid t ≡ some id
    → lookup id t.table ≡ some p
    → (slave_read_stdin process_exists pid len t).2 ≡ (slave_input len p).1
unfolding slave_read_stdin
read_at process_exists pid len id t p slave here = rw (slave, here, with_slave) refl

find-put :
    (pid id : ℕ) (t : Ptys) (p q : Pty)
    → IsSorted t.table
    → lookup id t.table ≡ some p
    → q.slave ≡ p.slave
    → find_by_slave pid (put id q t) ≡ find_by_slave pid t
unfolding find_by_slave
find-put pid id t p q s here e =
    find_key-replace (λ r. is_pid r.slave pid) 0 id p q t.table s here (ap (λ o. is_pid o pid) e)

-- In canonical mode, a line of plain bytes that is typed at a terminal with nothing pending, and that fits its
-- ring, is what the slave's next read gets, if it has room for it, whether echo is on or not.
Plain-NoNewline : (erase : ℕ) (xs : List ℕ) → Plain erase xs → NoNewline xs
Plain-NoNewline erase [] h = refl
Plain-NoNewline erase (x ∷ xs) h = ground (arith, Plain-NoNewline erase xs h.1)

write_at :
    (id : ℕ) (line : List ℕ) (t : Ptys) (p : Pty)
    → lookup id t.table ≡ some p
    → (master_write id p.master line t).0 ≡ put id (write_line line p).0 t
unfolding master_write
write_at id line t p here =
    let owns : (p.master != p.master) ≡ false = ground arith in rw (here, owns) refl

-- In canonical mode, with nothing pending, a line of up to 8191 plain bytes and a newline that the master types
-- is what the slave's next read gets, when it has room for it.
pub type-read :
    (t : Ptys) (id master pid len : ℕ) (p : Pty) (xs : List ℕ)
    → (process_exists : ℕ → Bool) → IsSorted t.table
    → lookup id t.table ≡ some p
    → find_by_slave pid t ≡ some id
    → p.master ≡ master
    → is_canonical p ≡ true
    → p.canon ≡ []
    → p.to_slave ≡ []
    → Plain (erase_of p) xs
    → newline ≢ erase_of p
    → length xs < pty_ring_cap
    → length xs < len
    → (slave_read_stdin process_exists pid len (master_write id master (xs ++ newline ∷ []) t).0).2
      ≡ xs ++ newline ∷ []
type-read t id master pid len p xs process_exists sorted here slave owner mode idle empty plain ends
      fits room =
    let line : List ℕ = xs ++ newline ∷ [] in
    let p1 = (write_line line p).0 in
    let (ring, same) = typed_line p xs mode idle empty plain ends fits in
    let same_mode : is_canonical p1 ≡ true =
      ap (λ b. bit_and (termios_lflag b) icanon != 0) same.1 ∙ mode in
    rw (← owner) (
      rw (write_at id line t p here) (
        read_at process_exists pid len id (put id p1 t) p1
          (find-put pid id t p p1 sorted here same.0 ∙ slave)
          (ground (arith, lookup-insert id id p1 t.table))
        ∙ rw (same_mode, ring)
            (ap (λ r. r.1) (read_whole len xs (Plain-NoNewline (erase_of p) xs plain) room))))
