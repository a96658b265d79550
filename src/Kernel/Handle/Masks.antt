-- ===== src/Kernel/Handle/Masks.antt =====
-- kernel/src/handle.rs: what its tests on masks of rights mean, digit by digit.
use Prim.Native.Nat.{digits, bit_and-bitwise}
use dunit_os.Prelude.{
  ℕ, zero, suc, ◌+◌, ◌-◌, ◌*◌, ◌/◌, ◌%◌, ◌≤◌, ◌≡◌, ◌⊎◌, inl, inr, refl, subst, sym, ap, ◌∙◌, min,
  bit_and, arith,
}

-- The digits that two numbers share, with a count of digits to go.
abbrev shared : ℕ → ℕ → ℕ → ℕ
shared count a b = digits (λ _. zero) min count a b

-- One digit more to go than there are makes no difference, and so no number of them.
shared_more : (count a b : ℕ) → a ≤ count → shared (suc count) a b ≡ shared count a b
shared_more zero zero b h = refl
shared_more zero (suc a) b h = absurd (omega arith)
shared_more (suc count) zero b h = refl
shared_more (suc count) (suc a) b h =
    omega (arith, shared_more count (suc a / 2) (b / 2) (omega arith))

le_cases : (a m : ℕ) → a ≤ suc m → (a ≡ suc m) ⊎ (a ≤ m)
le_cases a m h = ground arith

shared_enough : (count a b : ℕ) → a ≤ count → shared count a b ≡ bit_and a b
shared_enough zero zero b h = sym (bit_and-bitwise 0 b)
shared_enough zero (suc a) b h = absurd (omega arith)
shared_enough (suc count) a b h = elim (le_cases a count h) [
  | inl e ↦ subst (λ n. shared n a b ≡ bit_and a b) e (sym (bit_and-bitwise a b))
  | inr k ↦ shared_more count a b k ∙ shared_enough count a b k
]

and-zero : (b : ℕ) → bit_and 0 b ≡ 0
and-zero b = bit_and-bitwise 0 b

-- The lowest digit of `a & b`, and the others.
and_halves : (a b : ℕ) → bit_and a b ≡ bit_and (a / 2) (b / 2) * 2 + min (a % 2) (b % 2)
and_halves zero b = omega (arith, and-zero b, and-zero (b / 2))
and_halves (suc a) b =
    omega (arith, bit_and-bitwise (suc a) b, shared_enough a (suc a / 2) (b / 2) (omega arith))

-- The number of `bits` digits that are all one.
unfoldable pub ones : ℕ → ℕ
ones zero = 0
ones (suc bits) = ones bits * 2 + 1

-- A mask that has nothing outside another has only what the other has.
pub mask_narrow :
    (bits a b r : ℕ)
    → a ≤ ones bits
    → b ≤ ones bits
    → bit_and a (ones bits - b) ≡ 0
    → bit_and a r ≡ r
    → bit_and b r ≡ r
unfolding ones
mask_narrow zero a b r ha hb h k =
    let p : a ≡ 0 = omega arith in let q : b ≡ 0 = omega arith in cc (k, p, q)
mask_narrow (suc bits) a b r ha hb h k =
    let c : ℕ = ones bits * 2 + 1 - b in
    let c_half : c / 2 ≡ ones bits - b / 2 = omega arith in
    let c_digit : c % 2 ≡ 1 - b % 2 = omega arith in
    let outside : bit_and (a / 2) (c / 2) ≡ 0 = omega (arith, and_halves a c) in
    let inside : bit_and (a / 2) (r / 2) ≡ r / 2 = omega (arith, and_halves a r) in
    let upper =
      mask_narrow bits (a / 2) (b / 2) (r / 2) (omega arith) (omega arith)
        (subst (λ d. bit_and (a / 2) d ≡ 0) c_half outside) inside in
    omega (arith, and_halves b r, and_halves a r, and_halves a c, upper)

and_ones_half :
    (bits n : ℕ)
    → (bit_and n (ones (suc bits)) / 2 ≡ bit_and (n / 2) (ones bits))
      × (bit_and n (ones (suc bits)) % 2 ≡ n % 2)
unfolding ones
and_ones_half bits n =
    let half : (ones bits * 2 + 1) / 2 ≡ ones bits = omega arith in
    let digit : (ones bits * 2 + 1) % 2 ≡ 1 = omega arith in
    let whole : bit_and n (ones bits * 2 + 1) ≡ bit_and (n / 2) (ones bits) * 2 + n % 2 =
      subst (λ d. bit_and n (ones bits * 2 + 1) ≡ bit_and (n / 2) d * 2 + n % 2) half
        (omega (arith, and_halves n (ones bits * 2 + 1))) in
    (omega (arith, whole), omega (arith, whole))

nothing_shared : (bound n : ℕ) → n ≤ bound → bit_and n 0 ≡ 0
nothing_shared bound zero h = and-zero 0
nothing_shared zero (suc n) h = absurd (omega arith)
nothing_shared (suc bound) (suc n) h =
    omega (arith, and_halves (suc n) 0, nothing_shared bound (suc n / 2) (omega arith))

-- A number that is cut to some digits is no more than their mask, and is not changed by a second cut.
pub mask_le : (bits n : ℕ) → bit_and n (ones bits) ≤ ones bits
unfolding ones
mask_le zero n = omega (arith, nothing_shared n n (omega arith))
mask_le (suc bits) n =
    let (h, d) = and_ones_half bits n in omega (arith, h, d, mask_le bits (n / 2))

pub mask_twice : (bits n : ℕ) → bit_and (bit_and n (ones bits)) (ones bits) ≡ bit_and n (ones bits)
unfolding ones
mask_twice zero n = omega (
  arith,
  nothing_shared n n (omega arith),
  nothing_shared (bit_and n 0) (bit_and n 0) (omega arith),
)
mask_twice (suc bits) n =
    let (h, d) = and_ones_half bits n in
    let (h', d') = and_ones_half bits (bit_and n (ones (suc bits))) in
    omega (arith, h, d, d', h' ∙ ap (λ x. bit_and x (ones bits)) h ∙ mask_twice bits (n / 2))
