-- ===== src/Kernel/Pmm/Bits.antt =====
-- kernel/src/memory/pmm.rs: the masks of one byte, by tables over all bytes and bits.
use dunit_os.Prelude.{
  ℕ, zero, suc, ◌<◌, ◌≡◌, refl, Bool, true, false, not, ◌&&◌, ◌||◌, ltb, ◌==◌, if◌then◌else◌, arith,
}
use dunit_os.Kernel.Pmm.{is_clear, set_bit, clear_bit}

all_below : ℕ → (ℕ → Bool) → Bool
all_below zero p = true
all_below (suc n) p = p n && all_below n p

all_below_lem : (n : ℕ) (p : ℕ → Bool) (x : ℕ) → all_below n p ≡ true → x < n → p x ≡ true
unfolding all_below
all_below_lem zero p x h lt = absurd (omega arith)
all_below_lem (suc n) p x h lt = ground (arith, all_below_lem n p x)

agree : Bool → Bool → Bool
agree true b = b
agree false b = not b

agree_lem : (a b : Bool) → agree a b ≡ true → a ≡ b
unfolding agree
agree_lem true true h = refl
agree_lem true false h = cc
agree_lem false true h = cc
agree_lem false false h = refl

-- What a change of one bit leaves in each bit, and that it stays a byte.
marks : (byte bit other : ℕ) → Bool
unfolding is_clear set_bit clear_bit agree
marks byte bit other =
    agree (is_clear (set_bit byte bit) other) (not (bit == other) && is_clear byte other)
    && (agree (is_clear (clear_bit byte bit) other) (bit == other || is_clear byte other)
        && (ltb (set_bit byte bit) 256 && ltb (clear_bit byte bit) 256))

marks_table :
    all_below 256 (λ byte. all_below 8 (λ bit. all_below 8 (λ other. marks byte bit other))) ≡ true
unfolding all_below marks
marks_table = refl

full_table : all_below 8 (λ bit. not (is_clear 0xFF bit)) ≡ true
unfolding all_below is_clear
full_table = refl

marks_lem : (byte bit other : ℕ) → byte < 256 → bit < 8 → other < 8 → marks byte bit other ≡ true
marks_lem byte bit other h k l =
    all_below_lem 8 (λ o. marks byte bit o) other
      (all_below_lem 8 (λ b. all_below 8 (λ o. marks byte b o)) bit
        (all_below_lem 256 (λ y. all_below 8 (λ b. all_below 8 (λ o. marks y b o))) byte marks_table
          h)
        k)
      l

module _ (byte bit other : ℕ) (hb : byte < 256) (hi : bit < 8) (ho : other < 8) where
  pub is_clear-set_bit :
      is_clear (set_bit byte bit) other ≡ (if bit == other then false else is_clear byte other)
  unfolding marks
  is_clear-set_bit = ground (
    arith,
    marks_lem byte bit other hb hi ho,
    agree_lem (is_clear (set_bit byte bit) other) (not (bit == other) && is_clear byte other),
  )

  pub is_clear-clear_bit :
      is_clear (clear_bit byte bit) other ≡ (if bit == other then true else is_clear byte other)
  unfolding marks
  is_clear-clear_bit = ground (
    arith,
    marks_lem byte bit other hb hi ho,
    agree_lem (is_clear (clear_bit byte bit) other) (bit == other || is_clear byte other),
  )

module _ (byte bit : ℕ) (hb : byte < 256) (hi : bit < 8) where
  pub set_bit-lt : set_bit byte bit < 256
  unfolding marks
  set_bit-lt = ground (arith, marks_lem byte bit 0 hb hi)

  pub clear_bit-lt : clear_bit byte bit < 256
  unfolding marks
  clear_bit-lt = ground (arith, marks_lem byte bit 0 hb hi)

-- No bit of 0xFF is clear.
pub is_clear-full : (bit : ℕ) → bit < 8 → is_clear 0xFF bit ≡ false
is_clear-full bit h = ground (arith, all_below_lem 8 (λ b. not (is_clear 0xFF b)) bit full_table h)
