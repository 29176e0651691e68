-- ===== src/Examples/Bytes.antt =====
-- `u64::to_ne_bytes` and `from_ne_bytes`, and the patterns that the examples send.
use async_ucx.Base.{
  ℕ, zero, suc, ◌+◌, ◌*◌, ◌/◌, ◌%◌, ◌^◌, ◌<◌, ◌≡◌, refl, ap, ◌∙◌, Bool, true, false, List, [], ◌∷◌,
  arith, ◌==◌, ◌&&◌, if◌then◌else◌,
}
use mathlib.Core.List.{reverse, reverse-reverse}
use native.Mathlib.Nat.{pow-suc}

-- The low `n` bytes, the lowest first.
unfoldable pub low_bytes : ℕ → ℕ → List ℕ
low_bytes zero x = []
low_bytes (suc n) x = x % 256 ∷ low_bytes n (x / 256)

unfoldable pub from_low : List ℕ → ℕ
from_low [] = 0
from_low (b ∷ bs) = b + 256 * from_low bs

-- The machine's order, which the first argument chooses.
unfoldable pub to_ne_bytes : Bool → ℕ → List ℕ
to_ne_bytes big x = if big then reverse (low_bytes 8 x) else low_bytes 8 x

unfoldable pub from_ne_bytes : Bool → List ℕ → ℕ
from_ne_bytes big bs = if big then from_low (reverse bs) else from_low bs

-- `(0..n).map(|x| x as u8).collect()`
unfoldable pub pattern_from : ℕ → ℕ → List ℕ
pattern_from start zero = []
pattern_from start (suc n) = start % 256 ∷ pattern_from (suc start) n

-- `==` of two slices
unfoldable pub same_bytes : List ℕ → List ℕ → Bool
same_bytes [] [] = true
same_bytes (x ∷ xs) (y ∷ ys) = (x == y) && same_bytes xs ys
same_bytes _ _ = false

from-low_bytes : (n x : ℕ) → x < 256 ^ n → from_low (low_bytes n x) ≡ x
unfolding from_low low_bytes
from-low_bytes zero x h = omega (arith, h)
from-low_bytes (suc n) x h =
    let p : 256 ^ suc n ≡ 256 ^ n * 256 = pow-suc 256 n in
    let e = from-low_bytes n (x / 256) (omega (arith, h, p)) in omega (arith, e)

-- A 64-bit number that is written in the machine's order is read back, in either order.
pub from-to_ne_bytes : (big : Bool) (x : ℕ) → x < 2 ^ 64 → from_ne_bytes big (to_ne_bytes big x) ≡ x
unfolding from_ne_bytes to_ne_bytes
from-to_ne_bytes true x h =
    ap from_low (reverse-reverse (low_bytes 8 x)) ∙ from-low_bytes 8 x (omega arith)
from-to_ne_bytes false x h = from-low_bytes 8 x (omega arith)

pub same_bytes_self : (bs : List ℕ) → same_bytes bs bs ≡ true
unfolding same_bytes
same_bytes_self [] = refl
same_bytes_self (b ∷ bs) = ground (arith, same_bytes_self bs)
