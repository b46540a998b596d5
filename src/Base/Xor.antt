-- ===== src/Base/Xor.antt =====
-- Laws of `bit_xor` at variables, from its recursion on binary digits.
use Prim.Native.Nat.{
  ℕ, ◌+◌, ◌*◌, ◌/◌, ◌%◌, ◌^◌, ◌≤◌, ◌<◌, zero, suc, bit_xor, bit_xor-bitwise, differ,
}
use mathlib.Core.Path.{◌≡◌, refl, ap}
use native.Mathlib.Nat.{pow-suc, le_refl}
use cheshire_fork.Base.Digits.{lowest_digit, twice_shift}
use native.Mathlib.Omega.{arith}

differ-digit : (a b : ℕ) → a < 2 → b < 2 → differ a b ≡ (a + b) % 2
differ-digit zero zero p q = refl
differ-digit zero (suc zero) p q = refl
differ-digit (suc zero) zero p q = refl
differ-digit (suc zero) (suc zero) p q = refl
differ-digit (suc (suc a)) b p q = absurd (omega arith)
differ-digit zero (suc (suc b)) p q = absurd (omega arith)
differ-digit (suc zero) (suc (suc b)) p q = absurd (omega arith)

-- One equation for the lowest digit.
pub bit_xor_step : (a b : ℕ) → bit_xor a b ≡ bit_xor (a / 2) (b / 2) * 2 + (a % 2 + b % 2) % 2
bit_xor_step zero b = simp bit_xor-bitwise (omega arith)
bit_xor_step (suc a) b = simp bit_xor-bitwise (
    omega (
      arith,
      lowest_digit (λ t. t) differ a b,
      differ-digit (suc a % 2) (b % 2) (omega arith) (omega arith),
    ))

bit_xor-half : (a b : ℕ) → bit_xor a b / 2 ≡ bit_xor (a / 2) (b / 2)
bit_xor-half a b = omega (arith, bit_xor_step a b)

bit_xor-low : (a b : ℕ) → bit_xor a b % 2 ≡ (a % 2 + b % 2) % 2
bit_xor-low a b = omega (arith, bit_xor_step a b)

pub bit_xor-zero : (n a : ℕ) → a ≤ n → bit_xor a 0 ≡ a
bit_xor-zero n zero p = refl
bit_xor-zero zero (suc a) p = absurd (omega arith)
bit_xor-zero (suc n) (suc a) p =
    omega (arith, bit_xor_step (suc a) 0, bit_xor-zero n (suc a / 2) (omega arith))

xor_self_fuel : (n a : ℕ) → a ≤ n → bit_xor a a ≡ 0
xor_self_fuel n zero p = refl
xor_self_fuel zero (suc a) p = absurd (omega arith)
xor_self_fuel (suc n) (suc a) p =
    omega (arith, bit_xor_step (suc a) (suc a), xor_self_fuel n (suc a / 2) (omega arith))

pub bit_xor_self : (a : ℕ) → bit_xor a a ≡ 0
bit_xor_self a = xor_self_fuel a a (le_refl _)

pub bit_xor-zero_right : (a : ℕ) → bit_xor a 0 ≡ a
bit_xor-zero_right a = bit_xor-zero a a (le_refl _)

pub zero-bit_xor : (b : ℕ) → bit_xor 0 b ≡ b
zero-bit_xor b = bit_xor-bitwise 0 b

xor_comm_fuel : (n a b : ℕ) → a + b ≤ n → bit_xor a b ≡ bit_xor b a
xor_comm_fuel n zero b p = omega (arith, bit_xor-zero_right b, bit_xor-bitwise 0 b)
xor_comm_fuel zero (suc a) b p = absurd (omega arith)
xor_comm_fuel (suc n) (suc a) b p = omega (
  arith,
  bit_xor_step (suc a) b,
  bit_xor_step b (suc a),
  xor_comm_fuel n (suc a / 2) (b / 2) (omega arith),
)

pub bit_xor_comm : (a b : ℕ) → bit_xor a b ≡ bit_xor b a
bit_xor_comm a b = xor_comm_fuel (a + b) a b (le_refl _)

xor_assoc_fuel : (n a b c : ℕ) → a + b + c ≤ n → bit_xor (bit_xor a b) c ≡ bit_xor a (bit_xor b c)
xor_assoc_fuel zero zero zero zero p = refl
xor_assoc_fuel zero (suc a) b c p = absurd (omega arith)
xor_assoc_fuel zero zero (suc b) c p = absurd (omega arith)
xor_assoc_fuel zero zero zero (suc c) p = absurd (omega arith)
xor_assoc_fuel (suc n) zero zero c p = omega (arith, zero-bit_xor c, zero-bit_xor (bit_xor 0 c))
xor_assoc_fuel (suc n) zero (suc b) c p =
    omega
      (arith, zero-bit_xor (bit_xor (suc b) c), ap (λ (t : ℕ). bit_xor t c) (zero-bit_xor (suc b)))
xor_assoc_fuel (suc n) (suc a) b c p = ground (
  arith,
  bit_xor_step (bit_xor (suc a) b) c,
  bit_xor_step (suc a) (bit_xor b c),
  bit_xor-half (suc a) b,
  bit_xor-half b c,
  bit_xor-low (suc a) b,
  bit_xor-low b c,
  xor_assoc_fuel n (suc a / 2) (b / 2) (c / 2) (omega arith),
)

pub bit_xor_assoc : (a b c : ℕ) → bit_xor (bit_xor a b) c ≡ bit_xor a (bit_xor b c)
bit_xor_assoc a b c = xor_assoc_fuel (a + b + c) a b c (le_refl _)

-- The fields above and below bit `k` are combined apart.
pub bit_xor_fields :
    (k a b r s : ℕ)
    → r < 2 ^ k
    → s < 2 ^ k
    → (bit_xor (a * 2 ^ k + r) (b * 2 ^ k + s) ≡ bit_xor a b * 2 ^ k + bit_xor r s)
      × (bit_xor r s < 2 ^ k)
bit_xor_fields zero a b r s p q =
    let r0 : r ≡ 0 = omega arith in
    let s0 : s ≡ 0 = omega arith in rw (r0, s0) (ground arith, omega (arith, bit_xor_self 0))
bit_xor_fields (suc k) a b r s p q =
    let half_r : r / 2 < 2 ^ k = omega (arith, pow-suc 2 k) in
    let half_s : s / 2 < 2 ^ k = omega (arith, pow-suc 2 k) in
    ground (
      arith,
      bit_xor_step (a * 2 ^ suc k + r) (b * 2 ^ suc k + s),
      bit_xor_step r s,
      twice_shift a k,
      twice_shift b k,
      twice_shift (bit_xor a b) k,
      pow-suc 2 k,
      bit_xor_fields k a b (r / 2) (s / 2) half_r half_s,
    )
