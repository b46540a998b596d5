-- ===== src/Base/Digits.antt =====
-- The recursion behind the native bit operations: `digits` on the fuel that its first number
-- gives. More fuel changes nothing, so one equation describes the lowest digit.
use Prim.Native.Nat.{ℕ, ◌+◌, ◌*◌, ◌/◌, ◌%◌, ◌^◌, ◌≤◌, zero, suc, digits, bitwise}
use mathlib.Core.Path.{◌≡◌, refl, ap}
use native.Mathlib.Nat.{pow-suc}
use native.Mathlib.Omega.{arith}

module _ (left : ℕ → ℕ) (digit : ℕ → ℕ → ℕ) where
  -- `top` bounds the fuel on both sides, and falls in each call.
  spare :
      (top fuel x y : ℕ)
      → fuel ≤ top
      → x ≤ fuel
      → digits left digit fuel x y ≡ bitwise left digit x y
  spare top zero (suc x) y bounded enough = elim enough [ ]
  spare zero (suc fuel) (suc x) y bounded enough = elim bounded [ ]
  spare (suc top) (suc fuel) (suc x) y bounded enough =
      let here = spare top fuel (suc x / 2) (y / 2) (omega arith) (omega arith) in
      let there = spare top x (suc x / 2) (y / 2) (omega arith) (omega arith) in
      omega (arith, here, there)
  spare top zero zero y bounded enough = refl
  spare top (suc fuel) zero y bounded enough = refl

  pub lowest_digit :
      (x y : ℕ)
      → bitwise left digit (suc x) y
        ≡ bitwise left digit (suc x / 2) (y / 2) * 2 + digit (suc x % 2) (y % 2)
  lowest_digit x y = omega (arith, spare x x (suc x / 2) (y / 2) (omega arith) (omega arith))

-- One more place of a shift doubles.
pub twice_shift : (high w : ℕ) → high * 2 ^ suc w ≡ 2 * (high * 2 ^ w)
twice_shift high w = omega (arith, ap (λ (power : ℕ). high * power) (pow-suc 2 w))
