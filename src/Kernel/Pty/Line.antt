-- ===== src/Kernel/Pty/Line.antt =====
-- kernel/src/pty/mod.rs: the line discipline.
use dunit_os.Prelude.{
  ℕ, zero, suc, ◌+◌, ◌-◌, ◌≡◌, inl, inr, refl, sym, ap, ◌∙◌, min, Bool, true, false, List, [], ◌∷◌,
  ◌++◌, length, take, is_empty, leb, ◌==◌, arith, length-append, append_assoc, append-nil,
  Bool-cases, ==→≡, take_all, length-take,
}
use native.Mathlib.Numerals.{unary_clauses}
use dunit_os.Kernel.Pty.Editor.{
  NoNewline, AllLines, erases, edited, ended, lines_of, pending_of, concat, concat-append,
  lines_of-AllLines,
}
use dunit_os.Kernel.Pty.{
  Pty, ring_push, pushed, pty_ring_cap, pop_back, newline, type_byte, type_bytes, write_line,
  echoed, is_canonical, is_echo, erase_of,
}

zero_left : (k : ℕ) → 0 - k ≡ 0
zero_left k = omega arith

take_append : (n : ℕ) (xs ys : List ℕ) → take n (xs ++ ys) ≡ take n xs ++ take (n - length xs) ys
take_append zero [] ys = refl
take_append zero (x ∷ xs) ys = rw (zero_left (length (x ∷ xs))) refl
take_append (suc n) [] ys = simp unary_clauses
take_append (suc n) (x ∷ xs) ys =
    ap (◌∷◌ x) (take_append n xs ys ∙ ap (λ k. take n xs ++ take k ys) (omega arith))

take-min : (n : ℕ) (xs : List ℕ) → take (min n (length xs)) xs ≡ take n xs
take-min n xs = elim (Bool-cases (leb n (length xs))) [
  | inl short ↦ ap (λ k. take k xs) (ground arith)
  | inr long ↦ take_all _ xs (ground arith) ∙ sym (take_all n xs (ground arith))
]

pub push_lem : (ring xs : List ℕ) → ring_push ring xs ≡ ring ++ take (pty_ring_cap - length ring) xs
unfolding ring_push
push_lem ring xs = ap (λ ys. ring ++ ys) (take-min (pty_ring_cap - length ring) xs)

-- Two pushes are a push of both, also where the ring fills up.
push-push : (ring xs ys : List ℕ) → ring_push (ring_push ring xs) ys ≡ ring_push ring (xs ++ ys)
push-push ring xs ys =
    let room : ℕ = pty_ring_cap - length ring in
    let left : pty_ring_cap - length (ring ++ take room xs) ≡ room - length xs =
      omega (arith, length-append ring (take room xs), length-take room xs) in
    rw
      (
        push_lem (ring_push ring xs) ys,
        push_lem ring xs,
        push_lem ring (xs ++ ys),
        left,
        take_append room xs ys,
      )
      (append_assoc ring (take room xs) (take (room - length xs) ys))

-- What canonical input leaves: the edited lines in the slave's ring, as far as it has room, and the pending line.
abbrev pub Cooked : (erase : ℕ) → List ℕ → Pty → Pty → Type 0
Cooked erase bytes p p' =
    (p'.to_slave ≡ ring_push p.to_slave (concat (lines_of erase p.canon bytes)))
    × (p'.canon ≡ pending_of erase p.canon bytes)
    × AllLines (lines_of erase p.canon bytes)
    × NoNewline (pending_of erase p.canon bytes)

push_nil : (ring : List ℕ) → ring_push ring [] ≡ ring
push_nil ring =
    push_lem ring []
    ∙ ap (λ xs. ring ++ xs) (none_taken (pty_ring_cap - length ring))
    ∙ append-nil ring
  where
    none_taken : (n : ℕ) → take {A = ℕ} n [] ≡ []
    none_taken zero = refl
    none_taken (suc n) = refl

-- Echo changes what the master reads, and nothing else.
pub echoed-same :
    (echo : Bool) (bytes : List ℕ) (p : Pty)
    → ((echoed echo bytes p).to_slave ≡ p.to_slave)
      × ((echoed echo bytes p).canon ≡ p.canon)
      × ((echoed echo bytes p).master ≡ p.master)
      × ((echoed echo bytes p).slave ≡ p.slave)
      × ((echoed echo bytes p).termios ≡ p.termios)
echoed-same true bytes p = (refl, refl, refl, refl, refl)
echoed-same false bytes p = (refl, refl, refl, refl, refl)

-- One byte does to the terminal what it does to the line editor.
record Edits (erase b : ℕ) (p p' : Pty) : Type 0 where
  pub ring : p'.to_slave ≡ ring_push p.to_slave (concat (ended erase p.canon b))
  pub canon : p'.canon ≡ edited erase p.canon b

type_byte-Edits :
    (echo : Bool) (erase b : ℕ) (p : Pty) → Edits erase b p (type_byte true echo erase b p)
unfolding type_byte
type_byte-Edits echo erase b p = elim (Bool-cases (erases erase b)) [
  | inl back ↦ elim (Bool-cases (is_empty p.canon)) [
    | inl empty ↦
        rw (back, empty)
          (record {
            ring = rw back (sym (push_nil p.to_slave));
            canon = rw back (nothing p.canon empty);
          })
    | inr some_left ↦
        let e =
          echoed-same echo (0x08 ∷ b' ' ∷ 0x08 ∷ []) (record p { canon = pop_back p.canon }) in
        rw (back, some_left)
          (record { ring = rw back (e.0 ∙ sym (push_nil p.to_slave)); canon = rw back (e.1) })
  ]
  | inr kept ↦
      let e = echoed-same echo (b ∷ []) (record p { canon = p.canon ++ (b ∷ []) }) in
      elim (Bool-cases (b == newline)) [
        | inl last ↦
            let this : b ≡ newline = ==→≡ b newline last in
            rw (kept, last)
              (record {
                ring =
                    rw (kept, last)
                      (rw (e.0, e.1)
                        (ap (ring_push p.to_slave) (
                          ap (λ x. p.canon ++ x ∷ []) this
                          ∙ sym (append-nil (p.canon ++ newline ∷ [])))));
                canon = rw (kept, last) refl;
              })
        | inr more ↦
            rw (kept, more)
              (record {
                ring = rw (kept, more) (e.0 ∙ sym (push_nil p.to_slave));
                canon = rw (kept, more) (e.1);
              })
      ]
]
  where
    nothing : (xs : List ℕ) → is_empty xs ≡ true → xs ≡ pop_back xs
    nothing [] h = refl
    nothing (x ∷ xs) h = absurd (cc)

type_bytes_lem :
    (echo : Bool) (erase : ℕ) (bytes : List ℕ) (p : Pty)
    → ((type_bytes true echo erase bytes p).to_slave
        ≡ ring_push p.to_slave (concat (lines_of erase p.canon bytes)))
      × ((type_bytes true echo erase bytes p).canon ≡ pending_of erase p.canon bytes)
unfolding type_bytes
type_bytes_lem echo erase [] p = (sym (push_nil p.to_slave), refl)
type_bytes_lem echo erase (b ∷ bytes) p =
    let e = type_byte-Edits echo erase b p in
    let p1 = type_byte true echo erase b p in
    let (ring, canon) = type_bytes_lem echo erase bytes p1 in
    let later : List ℕ → List ℕ = λ pending. concat (lines_of erase pending bytes) in
    (
      ring
          ∙ ap (λ xs. ring_push p1.to_slave (later xs)) e.canon
          ∙ ap (λ xs. ring_push xs (later (edited erase p.canon b))) e.ring
          ∙ push-push p.to_slave (concat (ended erase p.canon b)) (later (edited erase p.canon b))
          ∙ ap (ring_push p.to_slave) (
              sym (
                concat-append (ended erase p.canon b)
                  (lines_of erase (edited erase p.canon b) bytes))),
      canon ∙ ap (λ xs. pending_of erase xs bytes) e.canon,
    )

-- In canonical mode, whatever the master types, with or without echo: the bytes edit the pending line, where an erase
-- takes its last byte and a newline ends it; the lines that they end reach the slave's ring one after the other, as
-- far as it has room, each with one newline, at its end; and the line that is left pending, with none, is the
-- terminal's.
pub canonical_lem :
    (bytes : List ℕ) (p : Pty)
    → is_canonical p ≡ true
    → NoNewline p.canon
    → Cooked (erase_of p) bytes p (write_line bytes p).0
unfolding write_line
canonical_lem bytes p mode h =
    let (ring, canon) = type_bytes_lem (is_echo p) (erase_of p) bytes p in
    let (lines, pending) = lines_of-AllLines (erase_of p) p.canon bytes h in
    rw mode (ring, canon, lines, pending)

pub length-push :
    (ring bytes : List ℕ) → length (ring_push ring bytes) ≡ length ring + pushed ring bytes
unfolding ring_push
length-push ring bytes = omega (
  arith,
  length-append ring (take (pushed ring bytes) bytes),
  length-take (pushed ring bytes) bytes,
)

raw_bytes :
    (erase : ℕ) (bytes : List ℕ) (p : Pty)
    → type_bytes false false erase bytes p ≡ record p { to_slave = ring_push p.to_slave bytes }
unfolding type_bytes type_byte
raw_bytes erase [] p = ap (λ r. record p { to_slave = r }) (sym (push_nil p.to_slave))
raw_bytes erase (b ∷ bytes) p =
    raw_bytes erase bytes (record p { to_slave = ring_push p.to_slave (b ∷ []) })
    ∙ ap (λ r. record p { to_slave = r }) (push-push p.to_slave (b ∷ []) bytes)

-- A write does to the terminal what its bytes do one by one, in every mode, the raw fast path included.
pub write_line_lem :
    (bytes : List ℕ) (p : Pty)
    → (write_line bytes p).0 ≡ type_bytes (is_canonical p) (is_echo p) (erase_of p) bytes p
unfolding write_line
write_line_lem bytes p = elim (Bool-cases (is_canonical p)) [
  | inl c ↦ rw c refl
  | inr nc ↦ elim (Bool-cases (is_echo p)) [
    | inl e ↦ rw (nc, e) refl
    | inr ne ↦ rw (nc, ne) (sym (raw_bytes (erase_of p) bytes p))
  ]
]
