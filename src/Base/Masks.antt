-- ===== src/Base/Masks.antt =====
-- `&` with a mask and `|` of disjoint fields, at variables.
use Prim.Native.Nat.{
  ℕ, ◌+◌, ◌-◌, ◌*◌, ◌/◌, ◌%◌, ◌^◌, ◌≤◌, ◌<◌, zero, suc, min, max, bit_and, bit_or, bit_and-bitwise,
  bit_or-bitwise,
}
use mathlib.Core.Path.{◌≡◌, refl}
use native.Mathlib.Nat.{pow-suc, one-le-pow, le_refl}
use cheshire_fork.Base.Digits.{lowest_digit, twice_shift}
use native.Mathlib.Omega.{arith}

-- The lowest digit of a conjunction and of a disjunction.
and_lowest : (x y : ℕ) → bit_and x y ≡ bit_and (x / 2) (y / 2) * 2 + min (x % 2) (y % 2)
and_lowest zero y = simp bit_and-bitwise (omega arith)
and_lowest (suc x) y = simp bit_and-bitwise (lowest_digit (λ _. 0) min x y)

or_lowest : (x y : ℕ) → bit_or x y ≡ bit_or (x / 2) (y / 2) * 2 + max (x % 2) (y % 2)
or_lowest zero y = simp bit_or-bitwise (omega arith)
or_lowest (suc x) y = simp bit_or-bitwise (lowest_digit (λ t. t) max x y)

and_none : (n a : ℕ) → a ≤ n → bit_and a 0 ≡ 0
and_none n zero p = refl
and_none zero (suc a) p = absurd (omega arith)
and_none (suc n) (suc a) p =
    omega (arith, and_lowest (suc a) 0, and_none n (suc a / 2) (omega arith))

or_none : (n a : ℕ) → a ≤ n → bit_or a 0 ≡ a
or_none n zero p = refl
or_none zero (suc a) p = absurd (omega arith)
or_none (suc n) (suc a) p = omega (arith, or_lowest (suc a) 0, or_none n (suc a / 2) (omega arith))

half-lt : (w low : ℕ) → low < 2 ^ suc w → low / 2 < 2 ^ w
half-lt w low below = omega (arith, below, pow-suc 2 w)

ones-and : (w low high : ℕ) → low < 2 ^ w → bit_and (high * 2 ^ w + low) (2 ^ w - 1) ≡ low
ones-and (suc w) low high below = ground (
  arith,
  ones-and w (low / 2) high (half-lt w low below),
  and_lowest (high * 2 ^ suc w + low) (2 ^ suc w - 1),
  pow-suc 2 w,
  twice_shift high w,
)
ones-and zero low high below = omega (arith, and_none (high * 1 + low) (high * 1 + low) (le_refl _))

-- `x & (2 ^ w - 1)` keeps the lowest `w` bits.
pub and_ones : (w x : ℕ) → bit_and x (2 ^ w - 1) ≡ x % 2 ^ w
and_ones w x = ground (arith, ones-and w (x % 2 ^ w) (x / 2 ^ w), one-le-pow w 2)

bit_and_high : (k q r b : ℕ) → r < 2 ^ k → bit_and (q * 2 ^ k + r) (b * 2 ^ k) ≡ bit_and q b * 2 ^ k
bit_and_high zero q r b h = let r0 : r ≡ 0 = omega arith in rw r0 (ground arith)
bit_and_high (suc k) q r b h =
    let half_r : r / 2 < 2 ^ k = omega (arith, pow-suc 2 k) in
    ground (
      arith,
      and_lowest (q * 2 ^ suc k + r) (b * 2 ^ suc k),
      twice_shift q k,
      twice_shift b k,
      twice_shift (bit_and q b) k,
      bit_and_high k q (r / 2) b half_r,
    )

-- Only the bits above `k` meet a mask that is shifted by `k`.
pub bit_and_shifted : (k a b : ℕ) → bit_and a (b * 2 ^ k) ≡ bit_and (a / 2 ^ k) b * 2 ^ k
bit_and_shifted k a b = ground (arith, one-le-pow k 2, bit_and_high k (a / 2 ^ k) (a % 2 ^ k) b)

-- `high << w | low` is a sum when the second field stays below bit `w`.
pub or_apart : (w low high : ℕ) → low < 2 ^ w → bit_or (high * 2 ^ w) low ≡ high * 2 ^ w + low
or_apart (suc w) low high below = ground (
  arith,
  or_apart w (low / 2) high (half-lt w low below),
  or_lowest (high * 2 ^ suc w) low,
  twice_shift high w,
)
or_apart zero low high below = ground (arith, or_none high high)

bit_or_comm_fuel : (n a b : ℕ) → a + b ≤ n → bit_or a b ≡ bit_or b a
bit_or_comm_fuel n zero b p = omega (arith, or_none b b (le_refl _), bit_or-bitwise 0 b)
bit_or_comm_fuel zero (suc a) b p = absurd (omega arith)
bit_or_comm_fuel (suc n) (suc a) b p = omega (
  arith,
  or_lowest (suc a) b,
  or_lowest b (suc a),
  bit_or_comm_fuel n (suc a / 2) (b / 2) (omega arith),
)

pub bit_or_comm : (a b : ℕ) → bit_or a b ≡ bit_or b a
bit_or_comm a b = bit_or_comm_fuel (a + b) a b (le_refl _)

-- The same with the field below first.
pub bit_or_above : (k q r : ℕ) → r < 2 ^ k → bit_or r (q * 2 ^ k) ≡ q * 2 ^ k + r
bit_or_above k q r h = rw (bit_or_comm r (q * 2 ^ k)) (or_apart k r q h)

-- A mask of `w` bits sees the lowest `w` bits only.
pub bit_and_below : (w low high m : ℕ) → m < 2 ^ w → bit_and (high * 2 ^ w + low) m ≡ bit_and low m
bit_and_below zero low high m h =
    let none : m ≡ 0 = omega (arith, h) in
    rw none (
      omega (
        arith,
        and_none (high * 1 + low) (high * 1 + low) (le_refl _),
        and_none low low (le_refl _),
      ))
bit_and_below (suc w) low high m h = ground (
  arith,
  and_lowest (high * 2 ^ suc w + low) m,
  and_lowest low m,
  twice_shift high w,
  bit_and_below w (low / 2) high (m / 2) (half-lt w m h),
)
