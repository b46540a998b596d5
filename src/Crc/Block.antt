-- ===== src/Crc/Block.antt =====
-- `__spi_sdcard_crc16` is the bit-serial CRC-16 of the block.
use Prim.Native.Nat.{bit_xor}
use cheshire_fork.Base.{
  ℕ, zero, suc, ◌+◌, ◌*◌, ◌/◌, ◌%◌, ◌^◌, ◌<◌, ◌≡◌, refl, sym, ap, ◌∙◌, arith, List, [], ◌∷◌,
}
use cheshire_fork.Base.Masks.{and_ones, bit_and_shifted, or_apart}
use cheshire_fork.Base.Xor.{
  bit_xor_comm, bit_xor_assoc, bit_xor_self, bit_xor-zero_right, zero-bit_xor, bit_xor_fields,
}
use cheshire_fork.Crc.{crc16_round, crc16_loop, crc16, crc16_entry, swap_bytes}
use cheshire_fork.Crc.Serial.{clock, clocks, serial16}
use cheshire_fork.Crc.Tables.{crc16_entry_lem, clocks-low}

abbrev pub IsBytes : List ℕ → Type 0
IsBytes [] = Unit {0}
IsBytes (x ∷ xs) = (x < 256) × IsBytes xs

-- The operands of two exclusive ors change places.
xor_swap : (a b c d : ℕ) → bit_xor (bit_xor a b) (bit_xor c d) ≡ bit_xor (bit_xor a c) (bit_xor b d)
xor_swap a b c d =
    bit_xor_assoc a b (bit_xor c d)
    ∙ ap (λ t. bit_xor a t)
        (sym (bit_xor_assoc b c d) ∙ ap (λ t. bit_xor t d) (bit_xor_comm b c) ∙ bit_xor_assoc c b d)
    ∙ sym (bit_xor_assoc a c (bit_xor b d))

xor_double : (a b : ℕ) → bit_xor (a * 2) (b * 2) ≡ bit_xor a b * 2
xor_double a b = ground (arith, bit_xor_fields 1 a b 0 0, bit_xor_self 0)

-- Feeding back the sum of two top bits is the sum of the feedbacks.
xor_feedback : (p a b : ℕ) → a < 2 → b < 2 → bit_xor a b * p ≡ bit_xor (a * p) (b * p)
xor_feedback p zero b h k = ground (arith, zero-bit_xor b, zero-bit_xor (b * p))
xor_feedback p (suc zero) zero h k = ground (arith, bit_xor-zero_right 1, bit_xor-zero_right p)
xor_feedback p (suc zero) (suc zero) h k = ground (arith, bit_xor_self 1, bit_xor_self p)
xor_feedback p (suc zero) (suc (suc b)) h k = absurd (omega arith)
xor_feedback p (suc (suc a)) b h k = absurd (omega arith)

xor_parts :
    (y z : ℕ)
    → (bit_xor y z % 2 ^ 15 ≡ bit_xor (y % 2 ^ 15) (z % 2 ^ 15))
      × (bit_xor y z / 2 ^ 15 ≡ bit_xor (y / 2 ^ 15) (z / 2 ^ 15))
xor_parts y z =
    ground (arith, bit_xor_fields 15 (y / 2 ^ 15) (z / 2 ^ 15) (y % 2 ^ 15) (z % 2 ^ 15))

bit_xor-lt : (r s : ℕ) → r < 2 ^ 16 → s < 2 ^ 16 → bit_xor r s < 2 ^ 16
bit_xor-lt r s hr hs = (bit_xor_fields 16 0 0 r s hr hs).1

-- A clock is linear.
clock-xor :
    (p y z : ℕ)
    → y < 2 ^ 16
    → z < 2 ^ 16
    → clock 15 p (bit_xor y z) ≡ bit_xor (clock 15 p y) (clock 15 p z)
unfolding clock
clock-xor p y z hy hz =
    rw
      (
        (xor_parts y z).0,
        (xor_parts y z).1,
        xor_feedback p (y / 2 ^ 15) (z / 2 ^ 15) (omega arith) (omega arith),
        ← xor_double (y % 2 ^ 15) (z % 2 ^ 15),
      )
      (xor_swap (y % 2 ^ 15 * 2) (z % 2 ^ 15 * 2) (y / 2 ^ 15 * p) (z / 2 ^ 15 * p))

clock-lt : (y : ℕ) → y < 2 ^ 16 → clock 15 0x1021 y < 2 ^ 16
unfolding clock
clock-lt y h = bit_xor-lt (y % 2 ^ 15 * 2) (y / 2 ^ 15 * 0x1021) (omega arith) (omega arith)

clocks-lt : (n y : ℕ) → y < 2 ^ 16 → clocks 15 0x1021 n y < 2 ^ 16
unfolding clocks
clocks-lt zero y h = h
clocks-lt (suc n) y h = clocks-lt n (clock 15 0x1021 y) (clock-lt y h)

clocks-xor :
    (n y z : ℕ)
    → y < 2 ^ 16
    → z < 2 ^ 16
    → clocks 15 0x1021 n (bit_xor y z) ≡ bit_xor (clocks 15 0x1021 n y) (clocks 15 0x1021 n z)
unfolding clocks
clocks-xor zero y z hy hz = refl
clocks-xor (suc n) y z hy hz =
    rw (clock-xor 0x1021 y z hy hz)
      (clocks-xor n (clock 15 0x1021 y) (clock 15 0x1021 z) (clock-lt y hy) (clock-lt z hz))

xor_byte :
    (x s : ℕ)
    → x < 256
    → s < 2 ^ 16
    → bit_xor s (x * 256) ≡ bit_xor (bit_xor x (s / 256) * 256) (s % 256)
xor_byte x s hx hs = ground (
  arith,
  bit_xor_fields 8 (s / 256) x (s % 256) 0,
  bit_xor_fields 8 (bit_xor x (s / 256)) 0 0 (s % 256),
  bit_xor_comm x (s / 256),
  bit_xor-zero_right (bit_xor x (s / 256)),
  bit_xor-zero_right (s % 256),
  zero-bit_xor (s % 256),
)

byte-lt : (x s : ℕ) → x < 256 → s < 2 ^ 16 → bit_xor x (s / 256) < 256
byte-lt x s hx hs = (bit_xor_fields 8 0 0 x (s / 256) hx (omega arith)).1

-- One look-up does the work of eight clocks.
crc16_round_lem :
    (s x : ℕ) → s < 2 ^ 16 → x < 256 → crc16_round s x ≡ clocks 15 0x1021 8 (bit_xor s (x * 256))
unfolding crc16_round
crc16_round_lem s x hs hx =
    let b = bit_xor x (s / 256) in
    let hb : b < 256 = byte-lt x s hx hs in
    let entry : crc16_entry b ≡ clocks 15 0x1021 8 (b * 256) = crc16_entry_lem b hb in
    let small : crc16_entry b < 2 ^ 16 = rw entry (clocks-lt 8 (b * 256) (omega arith)) in
    rw
      (
        xor_byte x s hx hs,
        clocks-xor 8 (b * 256) (s % 256) (omega arith) (omega arith),
        clocks-low (s % 256) (omega arith),
        ← entry,
      )
      (ground (arith, bit_xor_fields 16 0 (s / 256) (crc16_entry b) (s % 256 * 256)))

crc16_loop-serial16 :
    (s : ℕ) (xs : List ℕ) → s < 2 ^ 16 → IsBytes xs → crc16_loop s xs ≡ serial16 s xs
unfolding crc16_loop serial16
crc16_loop-serial16 s [] hs h = refl
crc16_loop-serial16 s (x ∷ xs) hs h = rw (crc16_round_lem s x hs h.0) (
    crc16_loop-serial16 (clocks 15 0x1021 8 (bit_xor s (x * 256))) xs
      (clocks-lt 8 _ (bit_xor-lt s (x * 256) hs (omega arith))) h.1)

serial16-lt : (s : ℕ) (xs : List ℕ) → s < 2 ^ 16 → IsBytes xs → serial16 s xs < 2 ^ 16
unfolding serial16
serial16-lt s [] hs h = hs
serial16-lt s (x ∷ xs) hs h =
    serial16-lt (clocks 15 0x1021 8 (bit_xor s (x * 256))) xs
      (clocks-lt 8 _ (bit_xor-lt s (x * 256) hs (omega arith))) h.1

swap_bytes_lem : (s : ℕ) → s < 2 ^ 16 → swap_bytes s ≡ s % 256 * 256 + s / 256
unfolding swap_bytes
swap_bytes_lem s h = ground (
  arith,
  and_ones 8 s,
  bit_and_shifted 8 s 0xFF,
  and_ones 8 (s / 256),
  or_apart 8 (s / 256) (s % 256),
)

-- For a block of bytes, `__spi_sdcard_crc16` returns the bit-serial CRC-16 (register preset to 0)
-- with its two bytes swapped.
pub crc16-serial16 :
    (xs : List ℕ)
    → IsBytes xs
    → (crc16 xs ≡ serial16 0 xs % 256 * 256 + serial16 0 xs / 256) × (serial16 0 xs < 2 ^ 16)
unfolding crc16
crc16-serial16 xs h =
    let fits = serial16-lt 0 xs (omega arith) h in
    (rw (crc16_loop-serial16 0 xs (omega arith) h) (swap_bytes_lem (serial16 0 xs) fits), fits)
