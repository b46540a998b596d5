-- ===== src/Crc/Tables.antt =====
-- The lookup tables hold eight clocks of the bit-serial division for every byte.
use cheshire_fork.Base.{ℕ, ◌*◌, ◌<◌, ◌≡◌, refl, true, ◌==◌, ==_iff, holds_below, holds_below_at}
use cheshire_fork.Crc.{crc7_entry, crc16_entry}
use cheshire_fork.Crc.Serial
use cheshire_fork.Crc.Serial.{clocks}

table7 : holds_below (λ x. crc7_entry x == clocks 7 0x12 8 x) 256 ≡ true
unfolding holds_below clocks Serial.clock crc7_entry
table7 = refl

table16 : holds_below (λ x. crc16_entry x == clocks 15 0x1021 8 (x * 256)) 256 ≡ true
unfolding holds_below clocks Serial.clock crc16_entry
table16 = refl

low16 : holds_below (λ x. clocks 15 0x1021 8 x == x * 256) 256 ≡ true
unfolding holds_below clocks Serial.clock
low16 = refl

pub crc7_entry_lem : (x : ℕ) → x < 256 → crc7_entry x ≡ clocks 7 0x12 8 x
crc7_entry_lem x h = (==_iff _ _).0 (holds_below_at _ 256 x h table7)

pub crc16_entry_lem : (x : ℕ) → x < 256 → crc16_entry x ≡ clocks 15 0x1021 8 (x * 256)
crc16_entry_lem x h = (==_iff _ _).0 (holds_below_at _ 256 x h table16)

-- A low byte has no bit that reaches the top within eight clocks.
pub clocks-low : (x : ℕ) → x < 256 → clocks 15 0x1021 8 x ≡ x * 256
clocks-low x h = (==_iff _ _).0 (holds_below_at _ 256 x h low16)
