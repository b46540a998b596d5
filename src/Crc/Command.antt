-- ===== src/Crc/Command.antt =====
-- The CRC-7 of a command frame. The table holds the register shifted left by one, which suits
-- `lookup[data ^ state]`; `__spi_sdcard_crc7` shifts the state once more.
use Prim.Native.Nat.{bit_or, bit_xor}
use cheshire_fork.Base.{
  ℕ, ◌+◌, ◌*◌, ◌%◌, ◌≡◌, ◌≢◌, refl, arith, true, List, [], ◌∷◌, ◌==◌, ==_iff, holds_below,
  holds_below_at, u8, ◌<<<◌,
}
use cheshire_fork.Base.Masks.{or_apart}
use cheshire_fork.Crc.{crc7_entry, crc7_round, crc7_loop, crc7}
use cheshire_fork.Crc.Serial.{crc7_serial}

even_table : holds_below (λ x. crc7_entry x % 2 == 0) 256 ≡ true
unfolding holds_below crc7_entry
even_table = refl

crc7_loop_even : (s : ℕ) (xs : List ℕ) → s % 2 ≡ 0 → crc7_loop s xs % 2 ≡ 0
unfolding crc7_loop crc7_round
crc7_loop_even s [] h = h
crc7_loop_even s (x ∷ xs) h =
    let i = u8 (bit_xor x (s <<< 1)) in
    crc7_loop_even (crc7_entry i) xs
      ((==_iff _ 0).0 (holds_below_at _ 256 i (omega arith) even_table))

-- The byte that `__spi_sdcard_build_cmd` puts behind the five bytes of a frame.
unfoldable pub crc_byte : List ℕ → ℕ
crc_byte xs = u8 (bit_or (crc7 xs <<< 1) 1)

-- Whatever the message, the byte is 1 modulo 4. So it is not the CRC-7 above an end bit of any
-- message whose bit-serial CRC-7 is odd.
pub crc_byte-ne-serial :
    (xs : List ℕ)
    → (crc_byte xs % 4 ≡ 1) × (crc7_serial xs % 2 ≡ 1 → crc_byte xs ≢ crc7_serial xs * 2 + 1)
unfolding crc_byte crc7
crc_byte-ne-serial xs =
    let even = crc7_loop_even 0 xs (omega arith) in
    let fields = or_apart 1 1 (crc7_loop 0 xs) (omega arith) in
    (omega (arith, even, fields), λ h. omega (arith, even, fields))
