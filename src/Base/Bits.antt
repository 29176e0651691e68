-- ===== src/Base/Bits.antt =====
-- Bit masks on the native numbers: a test against `d | r` is a test against `d` or against `r`.
use Prim.Native.Nat.{
  ◌<◌, ◌^◌, ℕ, zero, suc, ◌+◌, ◌*◌, ◌/◌, ◌%◌, ◌≤◌, min, max, bit_and, bit_or, digits,
  bit_and-bitwise, bit_or-bitwise,
}
use mathlib.Core.Path.{◌≡◌, refl, ap, sym, ◌∙◌}
use mathlib.Core.Logic.{◌↔◌}
use native.Mathlib.Omega.{arith}
use native.Mathlib.Nat.{pow-suc, mul_assoc}

-- Both operations stand for a digit recursion with fuel, which the first operand bounds.
module _ (rest : ℕ → ℕ) (join : ℕ → ℕ → ℕ) where
  enough_digits : (k n a b : ℕ) → a ≤ k → a ≤ n → digits rest join k a b ≡ digits rest join n a b
  enough_digits zero zero a b hk hn = refl
  enough_digits (suc k) zero zero b hk hn = refl
  enough_digits zero (suc n) zero b hk hn = refl
  enough_digits (suc k) (suc n) zero b hk hn = refl
  enough_digits zero n (suc a) b hk hn = absurd (omega arith)
  enough_digits (suc k) zero (suc a) b hk hn = absurd (omega arith)
  enough_digits (suc k) (suc n) (suc a) b hk hn =
      let below = enough_digits k n (suc a / 2) (b / 2) (omega arith) (omega arith) in
      omega (arith, below)

-- The lowest binary digit, split off.
and_digit : (a b : ℕ) → bit_and a b ≡ bit_and (a / 2) (b / 2) * 2 + min (a % 2) (b % 2)
and_digit zero b = omega (arith, bit_and-bitwise 0 b, bit_and-bitwise 0 (b / 2))
and_digit (suc a) b = omega (
  arith,
  bit_and-bitwise (suc a) b,
  bit_and-bitwise (suc a / 2) (b / 2),
  enough_digits (λ _. 0) min a (suc a / 2) (suc a / 2) (b / 2) (omega arith) (omega arith),
)

or_digit : (a b : ℕ) → bit_or a b ≡ bit_or (a / 2) (b / 2) * 2 + max (a % 2) (b % 2)
or_digit zero b = omega (arith, bit_or-bitwise 0 b, bit_or-bitwise 0 (b / 2))
or_digit (suc a) b = omega (
  arith,
  bit_or-bitwise (suc a) b,
  bit_or-bitwise (suc a / 2) (b / 2),
  enough_digits (λ t. t) max a (suc a / 2) (suc a / 2) (b / 2) (omega arith) (omega arith),
)

pub zero-bit_and : (b : ℕ) → bit_and 0 b ≡ 0
zero-bit_and b = bit_and-bitwise 0 b

or-half : (d r : ℕ) → bit_or d r / 2 ≡ bit_or (d / 2) (r / 2)
or-half d r = omega (arith, or_digit d r)

and-or_digit :
    (a d r : ℕ)
    → bit_and a (bit_or d r)
      ≡ bit_and (a / 2) (bit_or (d / 2) (r / 2)) * 2 + min (a % 2) (max (d % 2) (r % 2))
and-or_digit a d r =
    omega (
      arith,
      and_digit a (bit_or d r),
      or_digit d r,
      ap (λ (t : ℕ). bit_and (a / 2) t) (or-half d r),
    )

mask_none_below :
    (k a d r : ℕ) → a ≤ k → bit_and a d ≡ 0 → bit_and a r ≡ 0 → bit_and a (bit_or d r) ≡ 0
mask_none_below k zero d r h p q = zero-bit_and (bit_or d r)
mask_none_below zero (suc a) d r h p q = absurd (omega arith)
mask_none_below (suc k) (suc a) d r h p q = omega (
  arith,
  and_digit (suc a) d,
  and_digit (suc a) r,
  and-or_digit (suc a) d r,
  mask_none_below k (suc a / 2) (d / 2) (r / 2),
)

mask_parts_below :
    (k a d r : ℕ) → a ≤ k → bit_and a (bit_or d r) ≡ 0 → (bit_and a d ≡ 0) × (bit_and a r ≡ 0)
mask_parts_below k zero d r h p = (zero-bit_and d, zero-bit_and r)
mask_parts_below zero (suc a) d r h p = absurd (omega arith)
mask_parts_below (suc k) (suc a) d r h p = omega (
  arith,
  and_digit (suc a) d,
  and_digit (suc a) r,
  and-or_digit (suc a) d r,
  mask_parts_below k (suc a / 2) (d / 2) (r / 2),
)

pub bit_and-or_iff :
    (a d r : ℕ) → (bit_and a (bit_or d r) ≡ 0) ↔ ((bit_and a d ≡ 0) × (bit_and a r ≡ 0))
bit_and-or_iff a d r =
    (mask_parts_below a a d r (omega arith), λ h. mask_none_below a a d r (omega arith) h.0 h.1)

or_zero_below : (k a : ℕ) → a ≤ k → bit_or a 0 ≡ a
or_zero_below k zero h = omega (arith, bit_or-bitwise 0 0)
or_zero_below zero (suc a) h = absurd (omega arith)
or_zero_below (suc k) (suc a) h =
    omega (arith, or_digit (suc a) 0, or_zero_below k (suc a / 2) (omega arith))

-- A number below the bits of another that is shifted to the left joins it as a sum does.
pub shift-or : (s a c : ℕ) → c < 2 ^ s → bit_or (a * 2 ^ s) c ≡ a * 2 ^ s + c
shift-or zero a c h =
    let e : c ≡ 0 = omega arith in rw e (or_zero_below (a * 1) (a * 1) (omega arith) ∙ omega arith)
shift-or (suc s) a c h =
    let p : 2 ^ suc s ≡ 2 ^ s * 2 = pow-suc 2 s in
    let e : a * 2 ^ suc s ≡ a * 2 ^ s * 2 = ap (λ (n : ℕ). a * n) p ∙ sym (mul_assoc a (2 ^ s) 2) in
    let half : (a * 2 ^ s * 2) / 2 ≡ a * 2 ^ s = omega arith in
    rw e (
      or_digit (a * 2 ^ s * 2) c
      ∙ omega (
        arith,
        half,
        ap (λ (n : ℕ). bit_or n (c / 2)) half,
        shift-or s a (c / 2) (omega (arith, p)),
      ))
