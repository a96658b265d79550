-- ===== src/Gui/Wire/Reads.antt =====
-- Rules for the payload reader of wire.rs: which bytes a parser that succeeds has consumed.
use dunit_os.Prelude.{
  ℕ, zero, suc, ◌+◌, ◌^◌, ◌≤◌, ◌<◌, ◌≡◌, refl, sym, ◌∙◌, ap, subst, Bool, true, false, List, [],
  ◌∷◌, ◌++◌, length, take, drop, arith, append_assoc, append-nil, length-take, length-drop,
  take-append-drop, take_all, contains, leb, ltb, ◌!=◌, if◌then◌else◌,
}
use dunit_os.Prelude.Int.{to_i32, of_i32, of_i32-to_i32}
use dunit_os.Prelude.Results.{Result, ok, err}
use dunit_os.Gui.Wire.Bytes.{
  le_bytes, from_le, AreBytes, AreBytes-left, le_bytes-from_le, from_le-lt, rd_u16, rd_u32, rd_u64,
  drop-drop,
}
use dunit_os.Gui.Wire.Header.{WireError, malformed}
use dunit_os.Gui.Wire.Cursor.{
  Cursor, Parser, ◌>>=◌, pure, fail, take_bytes, u16, u32, u64, i32, reserved_u32, take_str,
}
use dunit_os.Gui.Wire.Utf8.{is_utf8}
use dunit_os.Gui.Wire.Request.{read_rect, read_damage}
use dunit_os.Gui.Wire.RoundTrip.{rect_bytes, damage_bytes}

-- A cursor over bytes, inside them.
pub record IsAt (c : Cursor) : Type 0 where
  pub bytes : AreBytes c.b
  pub inside : c.pos ≤ length c.b

-- What a parser that succeeds has consumed, with its result, has the property `Q`.
pub record Reads {A : Type 0} (p : Parser A) (Q : A → List ℕ → Type 0) : Type 0 where
  pub run :
      (c : Cursor) (a : A) (c' : Cursor)
      → IsAt c
      → p c ≡ ok (a, c')
      → (xs : List ℕ) × Q a xs × (drop c.pos c.b ≡ xs ++ drop c'.pos c'.b) × IsAt c' × (c'.b ≡ c.b)

pub bind_inv :
    {A B : Type 0} (p : Parser A) (g : A → Parser B) (c : Cursor) (b : B) (c'' : Cursor)
    → (p >>= g) c ≡ ok (b, c'')
    → (a : A) × (c' : Cursor) × (p c ≡ ok (a, c')) × (g a c' ≡ ok (b, c''))
bind_inv p g c b c'' e = go (p c) refl e
  where
    go :
        (r : Result WireError (_ × Cursor))
        → p c ≡ r
        → (elim r [ ok (a, c') ↦ g a c' | err x ↦ err x ]) ≡ ok (b, c'')
        → (a : _) × (c' : Cursor) × (p c ≡ ok (a, c')) × (g a c' ≡ ok (b, c''))
    go (ok (a, c')) k h = (a, c', k, h)
    go (err x) k h = absurd (cc)

pub Reads->>= :
    {A B : Type 0} {p : Parser A} {P : A → List ℕ → Type 0} (g : A → Parser B)
    {Q : B → List ℕ → Type 0}
    → Reads p P
    → ((a : A) (xs : List ℕ) → P a xs → Reads (g a) (λ b ys. Q b (xs ++ ys)))
    → Reads (p >>= g) Q
Reads->>= {p = p} g {Q = Q} hp hg = record {
  run = λ c b c'' at e.
      let (a, c', k, h) = bind_inv p g c b c'' e in
      let (xs, q, d, at', same) = hp.run c a c' at k in
      let (ys, q', d', at'', same') = (hg a xs q).run c' b c'' at' h in
      (xs ++ ys, q', d ∙ ap (◌++◌ xs) d' ∙ sym (append_assoc xs ys _), at'', same' ∙ same);
}

pub Reads-pure : {A : Type 0} {Q : A → List ℕ → Type 0} (v : A) → Q v [] → Reads (pure v) Q
Reads-pure {Q = Q} v q = record {
  run = λ c a c' at e.
      let pv : v ≡ a = cc in
      let pc : c ≡ c' = cc in
      (
        [],
        subst (λ x. Q x []) pv q,
        ap (λ (d : Cursor). drop d.pos d.b) pc,
        subst IsAt pc at,
        ap (λ (d : Cursor). d.b) (sym pc),
      );
}

take_inv :
    (n : ℕ) (c : Cursor) (a : List ℕ) (c' : Cursor)
    → take_bytes n c ≡ ok (a, c')
    → (c.pos + n ≤ length c.b)
      × (take n (drop c.pos c.b) ≡ a)
      × (record { b = c.b; pos = c.pos + n } ≡ c')
unfolding take_bytes
take_inv n c a c' e = go (leb (2 ^ 64) (c.pos + n)) (ltb (length c.b) (c.pos + n)) refl refl e
  where
    taken : List ℕ × Cursor
    taken = (take n (drop c.pos c.b), record { b = c.b; pos = c.pos + n })

    go :
        (b1 b2 : Bool)
        → leb (2 ^ 64) (c.pos + n) ≡ b1
        → ltb (length c.b) (c.pos + n) ≡ b2
        → (if b1
            then err (malformed "payload overflow")
            else if b2
            then err (malformed "payload truncated")
            else ok taken)
          ≡ ok (a, c')
        → (c.pos + n ≤ length c.b)
          × (take n (drop c.pos c.b) ≡ a)
          × (record { b = c.b; pos = c.pos + n } ≡ c')
    go true b2 h k e = absurd (cc)
    go false true h k e = absurd (cc)
    go false false h k e = (ground arith, cc, cc)

AreBytes-drop : (n : ℕ) (xs : List ℕ) → AreBytes xs → AreBytes (drop n xs)
AreBytes-drop zero xs h = h
AreBytes-drop (suc n) [] h = tt
AreBytes-drop (suc n) (x ∷ xs) h = AreBytes-drop n xs h.1

Reads-take : (n : ℕ) → Reads (take_bytes n) (λ s xs. (xs ≡ s) × AreBytes s × (length s ≡ n))
Reads-take n = record {
  run = λ c a c' at e.
      let (room, front, after) = take_inv n c a c' e in
      let split = take-append-drop n (drop c.pos c.b) in
      (
        take n (drop c.pos c.b),
        (
          front,
          subst AreBytes front (
              AreBytes-left (take n (drop c.pos c.b)) (drop n (drop c.pos c.b))
                (subst AreBytes (sym split) (AreBytes-drop c.pos c.b at.bytes))),
          ap length (sym front)
              ∙ omega (arith, length-take n (drop c.pos c.b), length-drop c.pos c.b),
        ),
        sym split
            ∙ ap (◌++◌ (take n (drop c.pos c.b))) (drop-drop c.pos n c.b)
            ∙ ap (λ (d : Cursor). take n (drop c.pos c.b) ++ drop d.pos d.b) after,
        subst IsAt after (record { bytes = at.bytes; inside = room }),
        ap (λ (d : Cursor). d.b) (sym after),
      );
}

-- A conversion at the end of a read.
Reads-map :
    {A B : Type 0} {p : Parser A} {P : A → List ℕ → Type 0} (g : A → B) {Q : B → List ℕ → Type 0}
    → Reads p P
    → ((a : A) (xs : List ℕ) → P a xs → Q (g a) xs)
    → Reads (p >>= λ v. pure (g v)) Q
Reads-map g {Q = Q} hp h =
    Reads->>= _ hp (λ a xs q. Reads-pure (g a) (subst (Q (g a)) (sym (append-nil xs)) (h a xs q)))

-- A little-endian integer of `n` bytes.
abbrev pub IsInt : ℕ → ℕ → List ℕ → Type 0
IsInt n v xs = (xs ≡ le_bytes n v) × (v < 256 ^ n)

IsInt-of :
    (n : ℕ) (s xs : List ℕ)
    → (xs ≡ s) × AreBytes s × (length s ≡ n)
    → IsInt n (from_le (take n (drop 0 s))) xs
IsInt-of n s xs (e, bs, l) =
    let whole : take n s ≡ s = take_all n s (omega arith) in
    subst (λ t. IsInt n (from_le t) xs) (sym whole)
      (
        e ∙ sym (le_bytes-from_le s bs) ∙ ap (λ k. le_bytes k (from_le s)) l,
        subst (λ k. from_le s < 256 ^ k) l (from_le-lt s bs),
      )

pub Reads-u16 : Reads u16 (IsInt 2)
unfolding u16 rd_u16
Reads-u16 = Reads-map (λ s. rd_u16 s 0) (Reads-take 2) (IsInt-of 2)

pub Reads-u32 : Reads u32 (IsInt 4)
unfolding u32 rd_u32
Reads-u32 = Reads-map (λ s. rd_u32 s 0) (Reads-take 4) (IsInt-of 4)

pub Reads-u64 : Reads u64 (IsInt 8)
unfolding u64 rd_u64
Reads-u64 = Reads-map (λ s. rd_u64 s 0) (Reads-take 8) (IsInt-of 8)

Reads-i32 : Reads i32 (λ x xs. xs ≡ le_bytes 4 (of_i32 x))
unfolding i32
Reads-i32 =
    Reads-map to_i32 Reads-u32
      (λ v xs q. q.0 ∙ ap (le_bytes 4) (sym (of_i32-to_i32 v (omega (arith, q.1)))))

pub Reads-fail : {A : Type 0} {Q : A → List ℕ → Type 0} (e : WireError) → Reads (fail e) Q
Reads-fail e = record { run = λ c a c' at k. absurd (cc) }

Reads-if :
    {A : Type 0} {Q : A → List ℕ → Type 0} (b : Bool) {p q : Parser A}
    → (b ≡ true → Reads p Q)
    → (b ≡ false → Reads q Q)
    → Reads (if b then p else q) Q
Reads-if true h k = h refl
Reads-if false h k = k refl

pub Reads-reserved_u32 : Reads reserved_u32 (λ _ xs. xs ≡ le_bytes 4 0)
unfolding reserved_u32
Reads-reserved_u32 = Reads->>= _ Reads-u32 (λ v xs q.
    Reads-if (v != 0) (λ _. Reads-fail _)
      (λ z.
        let none : v ≡ 0 = ground arith in
        Reads-pure tt (append-nil xs ∙ q.0 ∙ ap (le_bytes 4) none)))

pub Reads-take_str : Reads take_str (λ s xs. xs ≡ le_bytes 2 (length s) ++ s)
unfolding take_str
Reads-take_str = Reads->>= _ Reads-u16 (λ len xs q. Reads->>= _ (Reads-take len) (λ s ys (e, bs, l).
    Reads-if (contains s 0) (λ _. Reads-fail _)
      (λ _.
        Reads-if (is_utf8 s)
          (λ _.
            Reads-pure s
              (ap (◌++◌ xs) (append-nil ys ∙ e) ∙ ap (λ t. t ++ s) (q.0 ∙ ap (le_bytes 2) (sym l))))
          (λ _. Reads-fail _))))

Reads-rect : Reads read_rect (λ r xs. xs ≡ rect_bytes r)
unfolding read_rect
Reads-rect = Reads->>= _ Reads-i32 (λ x xs e. Reads->>= _ Reads-i32 (λ y ys f.
    Reads->>= _ Reads-u32
      (λ w ws g. Reads->>= _ Reads-u32 (λ h hs k. Reads-pure _ (cc (e, f, g.0, k.0))))))

pub Reads-damage :
    (n : ℕ) → Reads (read_damage n) (λ rs xs. (xs ≡ damage_bytes rs) × (length rs ≡ n))
unfolding read_damage
Reads-damage zero = Reads-pure [] (refl, refl)
Reads-damage (suc n) = Reads->>= _ Reads-rect (λ r xs e.
    Reads->>= _ (Reads-damage n) (λ rs ys f. Reads-pure (r ∷ rs) (cc (e, f.0), omega (arith, f.1))))
