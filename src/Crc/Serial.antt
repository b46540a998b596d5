-- ===== src/Crc/Serial.antt =====
-- The checksums by bit-serial polynomial division, highest bit first: the definition that the
-- tables of sw/lib/hal/spi_sdcard.c shorten. G(x) = x^16 + x^12 + x^5 + 1 is 0x1021 below its top
-- term; the 7-bit register of x^7 + x^3 + 1 is kept shifted left by one, so its polynomial is 0x12.
use Prim.Native.Nat.{bit_xor}
use cheshire_fork.Base.{ℕ, zero, suc, ◌*◌, ◌/◌, ◌%◌, ◌^◌, List, [], ◌∷◌, ◌<<<◌}

-- One clock of a `w + 1` bit register: the top bit drops out and is fed back through `poly`.
unfoldable pub clock : ℕ → ℕ → ℕ → ℕ
clock w poly s = bit_xor (s % 2 ^ w * 2) (s / 2 ^ w * poly)

unfoldable pub clocks : ℕ → ℕ → ℕ → ℕ → ℕ
clocks w poly zero s = s
clocks w poly (suc n) s = clocks w poly n (clock w poly s)

-- A message byte enters at the top of the register, and eight clocks follow.
unfoldable pub serial16 : ℕ → List ℕ → ℕ
serial16 s [] = s
serial16 s (x ∷ xs) = serial16 (clocks 15 0x1021 8 (bit_xor s (x <<< 8))) xs

unfoldable pub serial7 : ℕ → List ℕ → ℕ
serial7 s [] = s
serial7 s (x ∷ xs) = serial7 (clocks 7 0x12 8 (bit_xor s x)) xs

-- The CRC-7 of a command, and the sixth byte of its frame: the CRC above an end bit.
abbrev pub crc7_serial : List ℕ → ℕ
crc7_serial xs = serial7 0 xs / 2
