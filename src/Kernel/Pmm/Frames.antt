-- ===== src/Kernel/Pmm/Frames.antt =====
-- kernel/src/memory/pmm.rs: the bitmap as a set of free frames.
use dunit_os.Prelude.{
  ℕ, zero, suc, ◌+◌, ◌*◌, ◌/◌, ◌%◌, ◌≡◌, ◌≤◌, ◌<◌, refl, ap, Bool, true, false, not, List, [], ◌∷◌,
  length, set, get_elem?, get_or, Option, none, some, ◌==◌, if◌then◌else◌, arith, inl, inr,
  Bool-cases, ==→≡,
}
use dunit_os.Kernel.Pmm.{set_bit, clear_bit, is_free, is_used, at_byte, mark_used, mark_free}
use dunit_os.Kernel.Pmm.Bits.{is_clear-set_bit, is_clear-clear_bit, set_bit-lt, clear_bit-lt}

abbrev pub AllBytes : List ℕ → Type 0
AllBytes [] = Unit
AllBytes (b ∷ bs) = (b < 256) × AllBytes bs

-- A bitmap is bytes, with a bit for each frame of the pool.
pub record Covers (total : ℕ) (bitmap : List ℕ) : Type 0 where
  pub bytes : AllBytes bitmap
  pub long : total ≤ 8 * length bitmap

get_elem?-set :
    (bs : List ℕ) (i j v : ℕ)
    → i < length bs
    → get_elem? (set bs i v) j ≡ (if i == j then some v else get_elem? bs j)
get_elem?-set [] i j v h = absurd (omega arith)
get_elem?-set (b ∷ bs) zero zero v h = refl
get_elem?-set (b ∷ bs) zero (suc j) v h = ground arith
get_elem?-set (b ∷ bs) (suc i) zero v h = ground arith
get_elem?-set (b ∷ bs) (suc i) (suc j) v h = ground (arith, get_elem?-set bs i j v)

set-AllBytes : (bs : List ℕ) (i v : ℕ) → v < 256 → AllBytes bs → AllBytes (set bs i v)
set-AllBytes [] i v h a = tt
set-AllBytes (b ∷ bs) zero v h a = (h, a.1)
set-AllBytes (b ∷ bs) (suc i) v h a = (a.0, set-AllBytes bs i v h a.1)

length-set : (bs : List ℕ) (i v : ℕ) → length (set bs i v) ≡ length bs
length-set [] i v = refl
length-set (b ∷ bs) zero v = refl
length-set (b ∷ bs) (suc i) v = ap suc (length-set bs i v)

-- A read inside the bitmap gives a byte.
pub read_byte :
    (bs : List ℕ) (i : ℕ)
    → AllBytes bs
    → i < length bs
    → (get_elem? bs i ≡ some (get_or bs i 0)) × (get_or bs i 0 < 256)
read_byte [] i a h = absurd (omega arith)
read_byte (b ∷ bs) zero a h = (refl, a.0)
read_byte (b ∷ bs) (suc i) a h = read_byte bs i a.1 (omega arith)

-- What a change of one bit leaves of the set: only that frame changes.
module _ (bitmap : List ℕ) (frame : ℕ) (a : AllBytes bitmap) (h : frame < 8 * length bitmap) where
  pub is_free-mark_used :
      (g : ℕ)
      → is_free (mark_used frame bitmap) g ≡ (if frame == g then false else is_free bitmap g)
  unfolding is_free mark_used
  is_free-mark_used g =
      let (e, lt) = read_byte bitmap (frame / 8) a (omega arith) in
      let b : ℕ = get_or bitmap (frame / 8) 0 in
      rw e (
        ground (
          arith,
          get_elem?-set bitmap (frame / 8) (g / 8) (set_bit b (frame % 8)),
          is_clear-set_bit b (frame % 8) (g % 8),
        ))

  pub is_free-mark_free :
      (g : ℕ) → is_free (mark_free frame bitmap) g ≡ (if frame == g then true else is_free bitmap g)
  unfolding is_free mark_free
  is_free-mark_free g =
      let (e, lt) = read_byte bitmap (frame / 8) a (omega arith) in
      let b : ℕ = get_or bitmap (frame / 8) 0 in
      rw e (
        ground (
          arith,
          get_elem?-set bitmap (frame / 8) (g / 8) (clear_bit b (frame % 8)),
          is_clear-clear_bit b (frame % 8) (g % 8),
        ))

  mark_used-AllBytes : AllBytes (mark_used frame bitmap)
  unfolding mark_used
  mark_used-AllBytes =
      let (e, lt) = read_byte bitmap (frame / 8) a (omega arith) in
      let b : ℕ = get_or bitmap (frame / 8) 0 in
      rw e (
        set-AllBytes bitmap (frame / 8) (set_bit b (frame % 8))
          (set_bit-lt b (frame % 8) lt (omega arith)) a)

  mark_free-AllBytes : AllBytes (mark_free frame bitmap)
  unfolding mark_free
  mark_free-AllBytes =
      let (e, lt) = read_byte bitmap (frame / 8) a (omega arith) in
      let b : ℕ = get_or bitmap (frame / 8) 0 in
      rw e (
        set-AllBytes bitmap (frame / 8) (clear_bit b (frame % 8))
          (clear_bit-lt b (frame % 8) lt (omega arith)) a)

  pub is_used-is_free : is_used bitmap frame ≡ not (is_free bitmap frame)
  unfolding is_used is_free
  is_used-is_free = let (e, lt) = read_byte bitmap (frame / 8) a (omega arith) in rw e refl

length-at_byte :
    (f : ℕ → ℕ) (bitmap : List ℕ) (i : ℕ) (byte : Option ℕ)
    → length (at_byte f bitmap i byte) ≡ length bitmap
length-at_byte f bitmap i none = refl
length-at_byte f bitmap i (some byte) = length-set bitmap i (f byte)

pub length-mark_used :
    (frame : ℕ) (bitmap : List ℕ) → length (mark_used frame bitmap) ≡ length bitmap
unfolding mark_used
length-mark_used frame bitmap =
    length-at_byte (λ byte. set_bit byte (frame % 8)) bitmap (frame / 8)
      (get_elem? bitmap (frame / 8))

pub length-mark_free :
    (frame : ℕ) (bitmap : List ℕ) → length (mark_free frame bitmap) ≡ length bitmap
unfolding mark_free
length-mark_free frame bitmap =
    length-at_byte (λ byte. clear_bit byte (frame % 8)) bitmap (frame / 8)
      (get_elem? bitmap (frame / 8))

module _ (total : ℕ) (bitmap : List ℕ) (frame : ℕ) (c : Covers total bitmap)
    (h : frame < 8 * length bitmap) where
  pub mark_used-Covers : Covers total (mark_used frame bitmap)
  mark_used-Covers = record {
    bytes = mark_used-AllBytes bitmap frame c.bytes h;
    long = omega (arith, c.long, length-mark_used frame bitmap);
  }

  pub mark_free-Covers : Covers total (mark_free frame bitmap)
  mark_free-Covers = record {
    bytes = mark_free-AllBytes bitmap frame c.bytes h;
    long = omega (arith, c.long, length-mark_free frame bitmap);
  }

-- How many of the first frames a set holds.
unfoldable pub count : ℕ → (ℕ → Bool) → ℕ
count zero q = 0
count (suc n) q = (if q n then 1 else 0) + count n q

pub count-ext : (n : ℕ) (q r : ℕ → Bool) → ((g : ℕ) → g < n → q g ≡ r g) → count n q ≡ count n r
unfolding count
count-ext zero q r e = refl
count-ext (suc n) q r e =
    rw (e n (omega arith)) (omega (arith, count-ext n q r (λ g h. e g (omega arith))))

-- One frame more or less.
pub count_change :
    (n f : ℕ) (q r : ℕ → Bool)
    → f < n
    → q f ≡ true
    → ((g : ℕ) → g < n → r g ≡ (if f == g then false else q g))
    → count n q ≡ count n r + 1
unfolding count
count_change zero f q r h k e = absurd (omega arith)
count_change (suc n) f q r h k e = elim (Bool-cases (f == n)) [
  | inl last ↦
      let same = count-ext n q r (λ g l. ground (arith, e g (omega arith))) in
      ground (arith, e n (omega arith), same, ==→≡ f n last)
  | inr below ↦
      let rest = count_change n f q r (ground arith) k (λ g l. e g (omega arith)) in
      ground (arith, e n (omega arith), rest)
]

pub count-le : (n : ℕ) (q : ℕ → Bool) → count n q ≤ n
unfolding count
count-le zero q = omega arith
count-le (suc n) q = ground (arith, count-le n q)
