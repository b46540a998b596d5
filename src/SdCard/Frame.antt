-- ===== src/SdCard/Frame.antt =====
-- `__spi_sdcard_build_cmd`: the 6-byte frame of a command as a little-endian number.
use Prim.Native.Nat.{bit_and, bit_or}
use cheshire_fork.Base.{
  ℕ, zero, suc, ◌+◌, ◌*◌, ◌/◌, ◌%◌, ◌^◌, ◌<◌, ◌≡◌, ap, ◌∙◌, arith, List, [], ◌∷◌, ◌++◌, u64, u8,
  ◌<<<◌, ◌>>>◌,
}
use cheshire_fork.Base.Masks.{and_ones, or_apart, bit_or_above}
use cheshire_fork.Crc.{crc7}
use cheshire_fork.Crc.Command.{crc_byte}

-- The low `n` bytes of a number, lowest first: what a pointer to it shows.
unfoldable pub bytes_of : ℕ → ℕ → List ℕ
bytes_of zero x = []
bytes_of (suc n) x = x % 256 ∷ bytes_of n (x / 256)

-- The opcode and the argument in big endian, before the checksum.
unfoldable pub build_body : ℕ → ℕ → ℕ
build_body opcode arg =
    let c1 = bit_or opcode (bit_and (arg >>> 24) 0xff <<< 8) in
    let c2 = bit_or c1 (bit_and (arg >>> 16) 0xff <<< 16) in
    let c3 = bit_or c2 (bit_and (arg >>> 8) 0xff <<< 24) in
    bit_or c3 (bit_and (arg >>> 0) 0xff <<< 32)

unfoldable pub build_cmd : ℕ → ℕ → ℕ
unfolding build_body bytes_of
build_cmd opcode arg =
    let cmd = build_body opcode arg in
    let crcbyte = bit_or (crc7 (bytes_of 5 cmd) <<< 1) 1 in bit_or (u64 (crcbyte <<< 40)) cmd

build_body_lem :
    (opcode arg : ℕ)
    → opcode < 256
    → arg < 2 ^ 32
    → build_body opcode arg
      ≡ opcode
        + arg / 2 ^ 24 * 2 ^ 8
        + arg / 2 ^ 16 % 256 * 2 ^ 16
        + arg / 2 ^ 8 % 256 * 2 ^ 24
        + arg % 256 * 2 ^ 32
unfolding build_body
build_body_lem opcode arg ho ha =
    let b3 = arg / 2 ^ 24 % 256 in
    let b2 = arg / 2 ^ 16 % 256 in
    let b1 = arg / 2 ^ 8 % 256 in
    rw
      (
        and_ones 8 (arg / 2 ^ 24),
        and_ones 8 (arg / 2 ^ 16),
        and_ones 8 (arg / 2 ^ 8),
        and_ones 8 (arg / 2 ^ 0),
        bit_or_above 8 b3 opcode ho,
        bit_or_above 16 b2 (b3 * 2 ^ 8 + opcode) (omega arith),
        bit_or_above 24 b1 (b2 * 2 ^ 16 + (b3 * 2 ^ 8 + opcode)) (omega arith),
        bit_or_above 32 (arg / 2 ^ 0 % 256) (b1 * 2 ^ 24 + (b2 * 2 ^ 16 + (b3 * 2 ^ 8 + opcode)))
            (omega arith),
      )
      (omega arith)

abbrev pub frame_head : ℕ → ℕ → List ℕ
frame_head opcode arg =
    opcode ∷ arg / 2 ^ 24 ∷ (arg / 2 ^ 16 % 256) ∷ (arg / 2 ^ 8 % 256) ∷ (arg % 256) ∷ []

body_bytes :
    (opcode arg : ℕ)
    → opcode < 256
    → arg < 2 ^ 32
    → bytes_of 5 (build_body opcode arg) ≡ frame_head opcode arg
unfolding bytes_of
body_bytes opcode arg ho ha = ground (arith, build_body_lem opcode arg ho ha)

bytes_of-or :
    (x body : ℕ)
    → body < 2 ^ 40
    → bytes_of 6 (bit_or (u64 (x <<< 40)) body) ≡ bytes_of 5 body ++ u8 x ∷ []
unfolding bytes_of
bytes_of-or x body h =
    let fields = or_apart 40 body (x % 2 ^ 24) h in
    let cut : u64 (x <<< 40) ≡ x % 2 ^ 24 * 2 ^ 40 = omega arith in rw (cut, fields) (ground arith)

-- The six bytes that go over the bus for a command: the opcode, the argument in big endian, and
-- the checksum byte of these five.
pub build_cmd-bytes :
    (opcode arg : ℕ)
    → opcode < 256
    → arg < 2 ^ 32
    → bytes_of 6 (build_cmd opcode arg)
      ≡ frame_head opcode arg ++ crc_byte (frame_head opcode arg) ∷ []
unfolding build_cmd crc_byte
build_cmd-bytes opcode arg ho ha =
    let small : build_body opcode arg < 2 ^ 40 = omega (arith, build_body_lem opcode arg ho ha) in
    let head = body_bytes opcode arg ho ha in
    let x = bit_or (crc7 (bytes_of 5 (build_body opcode arg)) <<< 1) 1 in
    bytes_of-or x (build_body opcode arg) small
    ∙ ap (λ t. t ++ u8 (bit_or (crc7 t <<< 1) 1) ∷ []) head
