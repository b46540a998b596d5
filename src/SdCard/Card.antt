-- ===== src/SdCard/Card.antt =====
-- An SD card in SPI mode, as the bus shows it to sw/lib/hal/spi_sdcard.c.
use cheshire_fork.Base.{
  ℕ, zero, suc, ◌+◌, ◌*◌, ◌/◌, ◌%◌, ◌^◌, ◌≤◌, ◌<◌, ◌≡◌, Bool, true, false, List, [], ◌∷◌, ◌++◌, ltb,
  if◌then◌else◌, tabulate,
}
use cheshire_fork.Machine.Bytes.{Mem}
use cheshire_fork.SpiHost.{SpiHost, rx, tx, dummy}
use cheshire_fork.Crc.Serial.{serial16}
use cheshire_fork.SdCard.{Handle, r1b_timeout, data_timeout}
use cheshire_fork.SdCard.Command.{no_response, is_busy}
use cheshire_fork.SdCard.Frame.{frame_head}
use cheshire_fork.SdCard.Read.{no_token}

-- The bytes that a card will send, from the next one on.
abbrev pub Stream : Type 0
Stream = ℕ → ℕ

unfoldable pub shift : ℕ → Stream → Stream
shift n s i = s (n + i)

-- The first byte that ends a wait is byte `w`, and it is within `limit`.
pub record Comes (again : ℕ → Bool) (limit w : ℕ) (s : Stream) : Type 0 where
  pub in_time : w + 1 < limit
  pub before : (i : ℕ) → i < w → again (s i) ≡ true
  pub at : again (s w) ≡ false

-- The 16-bit checksum of a block, sent with the high byte first.
abbrev pub block_crc : Mem → ℕ → ℕ
block_crc disk block = serial16 0 (tabulate disk (512 * block) 512)

-- One block: the start token after a wait, 512 bytes, and the checksum. `next` is what follows.
pub record IsBlock (disk : Mem) (block : ℕ) (s next : Stream) : Type 0 where
  pub wait : ℕ
  pub token : Comes no_token data_timeout wait s
  pub start : s wait ≡ 0xFE
  pub bytes : (i : ℕ) → i < 512 → s (wait + 1 + i) ≡ disk (512 * block + i)
  pub crc_high : s (wait + 513) ≡ block_crc disk block / 256
  pub crc_low : s (wait + 514) ≡ block_crc disk block % 256
  pub rest : next ≡ shift (wait + 515) s

abbrev pub AreBlocks : Mem → (block count : ℕ) → Stream → Type 0
AreBlocks disk block zero s = Unit {0}
AreBlocks disk block (suc k) s =
    (next : Stream) × IsBlock disk block s next × AreBlocks disk (block + 1) k next

-- The answer to a read command: a response, and the blocks.
pub record IsReadAnswer (disk : Mem) (block count : ℕ) (s : Stream) : Type 0 where
  pub wait : ℕ
  pub response : Comes no_response 8 wait s
  pub blocks : AreBlocks disk block count (shift (wait + 1) s)

-- The answer to the command that ends a transfer: a stuff byte, a response, and the end of busy.
pub record IsStopAnswer (s : Stream) : Type 0 where
  pub wait : ℕ
  pub response : Comes no_response 8 wait (shift 1 s)
  pub busy : ℕ
  pub idle : Comes is_busy r1b_timeout busy (shift (wait + 1) (shift 1 s))

-- A selected device: in a state of `Open` it sends its `line`.
pub record IsLine {D : Type 0} (host : SpiHost D) (h : Handle) (Open : D → Type 0)
    (line : D → Stream) : Type 0 where
  pub receives :
      (d : D) (n : ℕ)
      → Open d
      → (let r = host.transaction true h.csid (rx n ∷ []) d in
          (r.code ≡ 0)
          × (r.received ≡ tabulate (line d) 0 n)
          × Open r.after
          × (line r.after ≡ shift n (line d)))

-- A card that holds `disk`, behind a host. In a state of `Ready` it waits for a command; in one of
-- `Open` it is selected and sends its `line`. It takes commands with any checksum byte, as cards in
-- SPI mode do.
pub record IsCard {D : Type 0} (host : SpiHost D) (h : Handle) (Ready Open : D → Type 0)
    (line : D → Stream) (disk : Mem) (size : ℕ) : Type 0 where
  pub depth : 0 < host.rx_depth
  pub size_fits : size ≤ 2 ^ 41
  pub whole_blocks : size % 512 ≡ 0
  pub are_bytes : (a : ℕ) → disk a < 256
  pub talks : IsLine host h Open line
  pub reads :
      (d : D) (block count last : ℕ)
      → Ready d
      → 0 < count
      → 512 * (block + count) ≤ size
      → (let opcode : ℕ = if ltb 1 count then 0x52 else 0x51 in
          let r = host.transaction true h.csid (tx (frame_head opcode block ++ last ∷ []) ∷ []) d in
          (r.code ≡ 0) × Open r.after × IsReadAnswer disk block count (line r.after))
  pub stops :
      (d : D)
      → Open d
      → (let frame : List ℕ = 0x4C ∷ 0 ∷ 0 ∷ 0 ∷ 0 ∷ 0x61 ∷ [] in
          let r = host.transaction true h.csid (tx frame ∷ []) d in
          (r.code ≡ 0) × Open r.after × IsStopAnswer (line r.after))
  pub closes :
      (d : D)
      → Open d
      → (let r = host.transaction false h.csid_dummy (dummy 8 ∷ []) d in
          (r.code ≡ 0) × Ready r.after)
