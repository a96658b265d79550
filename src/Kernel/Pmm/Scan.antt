-- ===== src/Kernel/Pmm/Scan.antt =====
-- kernel/src/memory/pmm.rs: the search of `alloc_frame`.
use dunit_os.Prelude.{
  ℕ, zero, suc, ◌+◌, ◌-◌, ◌*◌, ◌/◌, ◌%◌, ◌≡◌, ◌≤◌, ◌<◌, refl, sym, subst, ◌∙◌, Bool, true, false,
  List, length, get_or, Option, none, some, ltb, ◌==◌, ◌!=◌, if◌then◌else◌, arith, inl, inr,
  Bool-cases, ==→≡, if-cases,
}
use dunit_os.Kernel.Pmm.{is_clear, is_free, mark_used, scan_bits, scan_bytes}
use dunit_os.Kernel.Pmm.Bits.{is_clear-full}
use dunit_os.Kernel.Pmm.Frames.{
  Covers, read_byte, is_free-mark_used, mark_used-Covers, length-mark_used,
}

-- Two bitmaps that show the same frames of the pool as free.
pub record Same (total : ℕ) (bitmap bitmap' : List ℕ) : Type 0 where
  pub covers : Covers total bitmap'
  pub long : length bitmap' ≡ length bitmap
  pub same : (g : ℕ) → g < total → is_free bitmap' g ≡ is_free bitmap g

-- The lowest free frame is taken, and no other.
pub record Took (total frame : ℕ) (bitmap bitmap' : List ℕ) : Type 0 where
  pub covers : Covers total bitmap'
  pub long : length bitmap' ≡ length bitmap
  pub inside : frame < total
  pub was_free : is_free bitmap frame ≡ true
  pub lowest : (g : ℕ) → g < frame → is_free bitmap g ≡ false
  pub after :
      (g : ℕ) → g < total → is_free bitmap' g ≡ (if frame == g then false else is_free bitmap g)

-- What a search that has seen the frames below `seen` has made of a bitmap.
abbrev pub Seen : (total seen : ℕ) → List ℕ → List ℕ × Option ℕ → Type 0
Seen total seen bitmap (bitmap', none) =
    Same total bitmap bitmap' × ((g : ℕ) → g < seen → g < total → is_free bitmap g ≡ false)
Seen total seen bitmap (bitmap', some frame) = Took total frame bitmap bitmap'

Same-refl : {total : ℕ} {bitmap : List ℕ} → Covers total bitmap → Same total bitmap bitmap
Same-refl c = record { covers = c; long = refl; same = λ g h. refl }

Same-Seen :
    {total : ℕ} (seen : ℕ) {bitmap bitmap1 : List ℕ} (r : List ℕ × Option ℕ)
    → Same total bitmap bitmap1
    → Seen total seen bitmap1 r
    → Seen total seen bitmap r
Same-Seen seen (bitmap', none) s (t, n) = (
  record { covers = t.covers; long = t.long ∙ s.long; same = λ g h. t.same g h ∙ s.same g h },
  λ g k h. sym (s.same g h) ∙ n g k h,
)
Same-Seen {total} seen (bitmap', some frame) s t = record {
  covers = t.covers;
  long = t.long ∙ s.long;
  inside = t.inside;
  was_free = sym (s.same frame t.inside) ∙ t.was_free;
  lowest = λ g h. sym (s.same g (omega (arith, t.inside))) ∙ t.lowest g h;
  after = λ g h. ground (arith, t.after g h, s.same g h);
}

-- A frame that is not in the pool may be marked.
mark_outside :
    {total : ℕ} {bitmap : List ℕ} (frame : ℕ)
    → Covers total bitmap
    → frame < 8 * length bitmap
    → total ≤ frame
    → Same total bitmap (mark_used frame bitmap)
mark_outside {total} {bitmap} frame c h k = record {
  covers = mark_used-Covers total bitmap frame c h;
  long = length-mark_used frame bitmap;
  same = λ g l. ground (arith, is_free-mark_used bitmap frame c.bytes h g);
}

mark_inside :
    {total : ℕ} {bitmap : List ℕ} (frame : ℕ)
    → Covers total bitmap
    → frame < total
    → is_free bitmap frame ≡ true
    → ((g : ℕ) → g < frame → is_free bitmap g ≡ false)
    → Took total frame bitmap (mark_used frame bitmap)
mark_inside {total} {bitmap} frame c h e low =
    let k : frame < 8 * length bitmap = omega (arith, c.long) in
    record {
      covers = mark_used-Covers total bitmap frame c k;
      long = length-mark_used frame bitmap;
      inside = h;
      was_free = e;
      lowest = low;
      after = λ g l. is_free-mark_used bitmap frame c.bytes k g;
    }

-- One frame more that is not free.
none_below :
    (q : ℕ → Bool) (n total : ℕ)
    → ((g : ℕ) → g < n → g < total → q g ≡ false)
    → (n < total → q n ≡ false)
    → (g : ℕ) → g < suc n
    → g < total
    → q g ≡ false
none_below q n total low here g h l = elim (Bool-cases (g == n)) [
  | inl e ↦
      let e' = ==→≡ g n e in subst (λ k. q k ≡ false) (sym e') (here (subst (λ k. k < total) e' l))
  | inr ne ↦ low g (ground arith) l
]

module _ (total index byte : ℕ) where
  scan_bits-Seen :
      (turns bit : ℕ) (bitmap : List ℕ)
      → Covers total bitmap
      → turns + bit ≡ 8
      → index < length bitmap
      → ((j : ℕ) → bit ≤ j → j < 8 → is_clear byte j ≡ is_free bitmap (index * 8 + j))
      → ((g : ℕ) → g < index * 8 + bit → g < total → is_free bitmap g ≡ false)
      → Seen total (index * 8 + 8) bitmap (scan_bits turns bit byte index total bitmap)
  unfolding scan_bits
  scan_bits-Seen zero bit bitmap c e h eq low = (Same-refl c, λ g k l. low g (omega arith) l)
  scan_bits-Seen (suc turns) bit bitmap c e h eq low = elim (Bool-cases (is_clear byte bit)) [
    | inr used ↦ rw used (
        scan_bits-Seen turns (suc bit) bitmap c (omega arith) h (λ j k l. eq j (omega arith) l)
          (λ g k l.
            none_below (is_free bitmap) (index * 8 + bit) total low
              (λ _. sym (eq bit (omega arith) (omega arith)) ∙ used) g (omega arith) l))
    | inl clear ↦ elim (Bool-cases (ltb (index * 8 + bit) total)) [
      | inl inside ↦
          rw (clear, inside)
            (mark_inside (index * 8 + bit) c (ground arith)
              (sym (eq bit (omega arith) (omega arith)) ∙ clear) (λ g k. low g k (ground arith)))
      | inr outside ↦
          let same = mark_outside (index * 8 + bit) c (omega (arith)) (ground arith) in
          rw (clear, outside)
            (Same-Seen (index * 8 + 8)
              (scan_bits turns (suc bit) byte index total (mark_used (index * 8 + bit) bitmap)) same
              (scan_bits-Seen turns (suc bit) (mark_used (index * 8 + bit) bitmap) same.covers
                (omega arith) (omega (arith, same.long))
                (λ j k l. ground (
                  arith,
                  eq j (omega arith) l,
                  is_free-mark_used bitmap (index * 8 + bit) c.bytes (omega (arith))
                      (index * 8 + j),
                ))
                (λ g k l.
                  same.same g l
                  ∙ none_below (is_free bitmap) (index * 8 + bit) total low
                      (λ n. absurd (ground arith)) g (omega arith) l)))
    ]
  ]

byte_bits :
    (bitmap : List ℕ) (total index j : ℕ)
    → Covers total bitmap
    → index < length bitmap
    → j < 8
    → is_clear (get_or bitmap index 0) j ≡ is_free bitmap (index * 8 + j)
unfolding is_free
byte_bits bitmap total index j c h k =
    let q : (index * 8 + j) / 8 ≡ index = omega arith in
    let r : (index * 8 + j) % 8 ≡ j = omega arith in
    rw (q, r, (read_byte bitmap index c.bytes h).0) refl

-- A byte with every bit set has no free frame.
full_byte :
    (bitmap : List ℕ) (total index : ℕ)
    → Covers total bitmap
    → index < length bitmap
    → (get_or bitmap index 0 != 0xFF) ≡ false
    → ((g : ℕ) → g < index * 8 → g < total → is_free bitmap g ≡ false)
    → (g : ℕ) → g < index * 8 + 8
    → g < total
    → is_free bitmap g ≡ false
full_byte bitmap total index c h full low g k l = elim (Bool-cases (ltb g (index * 8))) [
  | inl below ↦ low g (ground arith) l
  | inr here ↦
      let j : ℕ = g - index * 8 in
      let e : index * 8 + j ≡ g = ground arith in
      let b : get_or bitmap index 0 ≡ 255 = ground arith in
      subst (λ n. is_free bitmap n ≡ false) e
        (sym (byte_bits bitmap total index j c h (omega arith))
          ∙ subst (λ n. is_clear n j ≡ false) (sym b) (is_clear-full j (omega arith)))
]

scan_bytes-Seen :
    (turns index total : ℕ) (bitmap : List ℕ)
    → Covers total bitmap
    → turns + index ≡ length bitmap
    → ((g : ℕ) → g < index * 8 → g < total → is_free bitmap g ≡ false)
    → Seen total total bitmap (scan_bytes turns index total bitmap)
unfolding scan_bytes
scan_bytes-Seen zero index total bitmap c e low =
    (Same-refl c, λ g k l. low g (omega (arith, c.long)) l)
scan_bytes-Seen (suc turns) index total bitmap c e low =
    go (if byte != 0xFF then scan_bits 8 0 byte index total bitmap else (bitmap, none))
      (if-cases (Seen total (index * 8 + 8) bitmap) (byte != 0xFF)
        (λ _.
          scan_bits-Seen total index byte 8 0 bitmap c refl (omega arith)
            (λ j k l. byte_bits bitmap total index j c (omega arith) l)
            (λ g k l. low g (omega arith) l))
        (λ full. (Same-refl c, full_byte bitmap total index c (omega arith) full low)))
      (λ bitmap' s n.
        scan_bytes-Seen turns (suc index) total bitmap' s.covers (omega (arith, s.long))
          (λ g k l. s.same g l ∙ n g (omega arith) l))
  where
    byte : ℕ
    byte = get_or bitmap index 0

    go :
        (here : List ℕ × Option ℕ)
        → Seen total (index * 8 + 8) bitmap here
        → ((bitmap' : List ℕ)
            → Same total bitmap bitmap'
            → ((g : ℕ) → g < index * 8 + 8 → g < total → is_free bitmap g ≡ false)
            → Seen total total bitmap' (scan_bytes turns (suc index) total bitmap'))
        → Seen total total bitmap
            (elim here.1 [ none ↦ scan_bytes turns (suc index) total here.0 | some frame ↦ here ])
    go (bitmap', none) (s, n) ih =
        Same-Seen total (scan_bytes turns (suc index) total bitmap') s (ih bitmap' s n)
    go (bitmap', some frame) t ih = t

-- The search of `alloc_frame` takes the lowest free frame, if there is one.
pub scan_lem :
    (total : ℕ) (bitmap : List ℕ)
    → Covers total bitmap
    → Seen total total bitmap (scan_bytes (length bitmap) 0 total bitmap)
scan_lem total bitmap c =
    scan_bytes-Seen (length bitmap) 0 total bitmap c (omega arith) (λ g k l. absurd (omega arith))
