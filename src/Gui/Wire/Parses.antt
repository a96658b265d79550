-- ===== src/Gui/Wire/Parses.antt =====
-- Rules for the payload reader of wire.rs: what a parser returns on a payload that starts with
-- given bytes, and how such facts compose along a `do` block.
use dunit_os.Prelude.{
  ℕ, ◌+◌, ◌-◌, ◌^◌, ◌≤◌, ◌<◌, ◌≡◌, refl, sym, ◌∙◌, ap, subst, true, false, List, [], ◌++◌, length,
  take, drop, arith, append_assoc, length-append, length-drop, contains,
}
use dunit_os.Prelude.Int.{ℤ, to_i32, of_i32, IsI32, to_i32-of_i32, of_i32-lt}
use dunit_os.Prelude.Results.{ok, err}
use dunit_os.Gui.Wire.Bytes.{
  le_bytes, from_le-le_bytes, rd_u16, rd_u32, rd_u64, take-append_left, drop-append_left, drop-drop,
}
use dunit_os.Gui.Wire.Cursor.{
  Cursor, Parser, ◌>>=◌, pure, take_bytes, u16, u32, u64, i32, reserved_u32, take_str, finish,
}
use dunit_os.Gui.Wire.Utf8.{is_utf8}

-- The cursor stands before the bytes `r`, inside a payload that a `usize` can measure.
pub record Sees (c : Cursor) (r : List ℕ) : Type 0 where
  pub rest : drop c.pos c.b ≡ r
  pub inside : c.pos ≤ length c.b
  pub fits : length c.b < 2 ^ 64

-- On a payload that goes on with `xs`, the parser returns `v` and consumes exactly `xs`.
pub record Parses {A : Type 0} (p : Parser A) (xs : List ℕ) (v : A) : Type 0 where
  pub run :
      (c : Cursor) (r : List ℕ) → Sees c (xs ++ r) → (c' : Cursor) × (p c ≡ ok (v, c')) × Sees c' r

bind_ok :
    {A B : Type 0} (p : Parser A) (f : A → Parser B) (c : Cursor) {a : A} {c' : Cursor}
    → p c ≡ ok (a, c')
    → (p >>= f) c ≡ f a c'
bind_ok p f c e = ap (λ r. elim r [ ok (a, c') ↦ f a c' | err e ↦ err e ]) e

pub Parses-pure : {A : Type 0} (v : A) → Parses (pure v) [] v
Parses-pure v = record { run = λ c r s. (c, refl, s) }

pub Parses->>= :
    {A B : Type 0} {p : Parser A} (f : A → Parser B) {xs ys : List ℕ} {a : A} {b : B}
    → Parses p xs a
    → Parses (f a) ys b
    → Parses (p >>= f) (xs ++ ys) b
Parses->>= {p = p} f {xs = xs} {ys = ys} hp hf = record {
  run = λ c r s.
      let (c', e, s') = hp.run c (ys ++ r) (subst (Sees c) (append_assoc xs ys r) s) in
      let (c'', e', s'') = hf.run c' r s' in (c'', bind_ok p f c e ∙ e', s'');
}

-- A parser that ends in a conversion of what it read.
Parses-map :
    {A B : Type 0} {p : Parser A} (g : A → B) {xs : List ℕ} {a : A} {b : B}
    → Parses p xs a
    → g a ≡ b
    → Parses (p >>= λ v. pure (g v)) xs b
Parses-map {p = p} g hp k = record {
  run = λ c r s.
      let (c', e, s') = hp.run c r s in
      (c', bind_ok p (λ v. pure (g v)) c e ∙ ap (λ v. ok (v, c')) k, s');
}

Parses-take_bytes : (xs : List ℕ) → Parses (take_bytes (length xs)) xs xs
unfolding take_bytes
Parses-take_bytes xs = record {
  run = λ c r s.
      let measure : length xs + length r ≡ length c.b - c.pos =
        sym (length-append xs r) ∙ ap length (sym s.rest) ∙ length-drop c.pos c.b in
      let slice : take (length xs) (drop c.pos c.b) ≡ xs =
        ap (take (length xs)) s.rest ∙ take-append_left (length xs) xs r refl in
      (
        record c { pos = c.pos + length xs },
        ground (arith, measure, slice, s.inside, s.fits),
        record {
          rest =
              sym (drop-drop c.pos (length xs) c.b)
              ∙ ap (drop (length xs)) s.rest
              ∙ drop-append_left (length xs) xs r refl;
          inside = omega (arith, measure, s.inside);
          fits = s.fits;
        },
      );
}

Parses-take_n : (n : ℕ) (xs : List ℕ) → length xs ≡ n → Parses (take_bytes n) xs xs
Parses-take_n n xs e = subst (λ k. Parses (take_bytes k) xs xs) e (Parses-take_bytes xs)

pub Parses-u16 : (v : ℕ) → v < 2 ^ 16 → Parses u16 (le_bytes 2 v) v
unfolding u16 rd_u16
Parses-u16 v h =
    Parses-map (λ s. rd_u16 s 0) (Parses-take_n 2 (le_bytes 2 v) refl) (from_le-le_bytes 2 v h)

pub Parses-u32 : (v : ℕ) → v < 2 ^ 32 → Parses u32 (le_bytes 4 v) v
unfolding u32 rd_u32
Parses-u32 v h =
    Parses-map (λ s. rd_u32 s 0) (Parses-take_n 4 (le_bytes 4 v) refl) (from_le-le_bytes 4 v h)

pub Parses-u64 : (v : ℕ) → v < 2 ^ 64 → Parses u64 (le_bytes 8 v) v
unfolding u64 rd_u64
Parses-u64 v h =
    Parses-map (λ s. rd_u64 s 0) (Parses-take_n 8 (le_bytes 8 v) refl) (from_le-le_bytes 8 v h)

pub Parses-i32 : (x : ℤ) → IsI32 x → Parses i32 (le_bytes 4 (of_i32 x)) x
unfolding i32
Parses-i32 x h = Parses-map to_i32 (Parses-u32 (of_i32 x) (of_i32-lt x h)) (to_i32-of_i32 x h)

-- The tests that follow a read, decided on the value that was read.
Parses-then :
    {A B : Type 0} {p : Parser A} (f : A → Parser B) {xs : List ℕ} {a : A} {b : B}
    → Parses p xs a
    → f a ≡ pure b
    → Parses (p >>= f) xs b
Parses-then {p = p} f {b = b} hp k = record {
  run = λ c r s. let (c', e, s') = hp.run c r s in (c', bind_ok p f c e ∙ ap (λ q. q c') k, s');
}

pub Parses-reserved_u32 : Parses reserved_u32 (le_bytes 4 0) tt
unfolding reserved_u32
Parses-reserved_u32 = Parses-then _ (Parses-u32 0 (omega arith)) refl

-- A string that the wire can carry.
pub record IsText (s : List ℕ) : Type 0 where
  pub short : length s < 2 ^ 16
  pub no_nul : contains s 0 ≡ false
  pub utf8 : is_utf8 s ≡ true

pub Parses-take_str : (s : List ℕ) → IsText s → Parses take_str (le_bytes 2 (length s) ++ s) s
unfolding take_str
Parses-take_str s h =
    Parses->>= _ (Parses-u16 (length s) h.short)
      (Parses-then _ (Parses-take_bytes s) (rw (h.no_nul, h.utf8) refl))

pub finish_at_end : (c : Cursor) → Sees c [] → finish c ≡ ok (tt, c)
unfolding finish
finish_at_end c s =
    let measure : 0 ≡ length c.b - c.pos = ap length (sym s.rest) ∙ length-drop c.pos c.b in
    ground (arith, s.inside, measure)
