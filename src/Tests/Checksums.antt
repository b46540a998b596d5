-- ===== src/Tests/Checksums.antt =====
-- Checksums of known messages.
use cheshire_fork.Base.{ℕ, ◌+◌, ◌*◌, ◌/◌, ◌%◌, ◌^◌, ◌<◌, ◌≡◌, ◌≢◌, refl, arith, List, [], ◌∷◌, ◌++◌}
use cheshire_fork.Crc.{crc7, crc16}
use cheshire_fork.Crc.Serial
use cheshire_fork.Crc.Serial.{serial7, serial16, crc7_serial}
use cheshire_fork.Crc.Block.{crc16-serial16}
use cheshire_fork.Crc.Command.{crc_byte, crc_byte-ne-serial}
use cheshire_fork.SdCard.Frame.{build_cmd, bytes_of, frame_head, build_cmd-bytes}

abbrev message : List ℕ
message = 0x31 ∷ 0x32 ∷ 0x33 ∷ 0x34 ∷ 0x35 ∷ 0x36 ∷ 0x37 ∷ 0x38 ∷ 0x39 ∷ []

-- The check value of this CRC-16 is 0x31C3; it is returned as 0xC331.
crc16_check : crc16 message ≡ 0xC331
unfolding crc16
crc16_check = refl

crc16-serial16_example :
    (crc16 message ≡ serial16 0 message % 256 * 256 + serial16 0 message / 256)
    × (serial16 0 message < 2 ^ 16)
crc16-serial16_example = crc16-serial16 message (omega arith)

-- CMD0: the bit-serial CRC gives the 0x95 of the hard-coded frame, the routine gives 0x61.
abbrev cmd0 : List ℕ
cmd0 = 0x40 ∷ 0 ∷ 0 ∷ 0 ∷ 0 ∷ []

cmd0_bytes : (crc7_serial cmd0 * 2 + 1 ≡ 0x95) × (crc_byte cmd0 ≡ 0x61)
unfolding serial7 Serial.clocks Serial.clock crc_byte crc7
cmd0_bytes = (refl, refl)

crc_byte-ne-serial_example :
    (crc_byte cmd0 % 4 ≡ 1) × (crc7_serial cmd0 % 2 ≡ 1 → crc_byte cmd0 ≢ crc7_serial cmd0 * 2 + 1)
crc_byte-ne-serial_example = crc_byte-ne-serial cmd0

build_cmd-bytes_example :
    bytes_of 6 (build_cmd 0x51 0x1234)
    ≡ frame_head 0x51 0x1234 ++ crc_byte (frame_head 0x51 0x1234) ∷ []
build_cmd-bytes_example = build_cmd-bytes 0x51 0x1234 (omega arith) (omega arith)
