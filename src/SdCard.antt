-- ===== src/SdCard.antt =====
-- sw/lib/hal/spi_sdcard.c: commands, polling, initialisation and block reads of an SD card.
pub mod Frame
pub mod Command
pub mod Init
pub mod Read
pub mod Checks
pub mod Card
pub mod Polling
pub mod Chunks
pub mod Blocks
pub mod Transfer
pub mod Reading
pub mod Startup
pub mod Exchange
pub mod Activation
pub mod Late
pub mod Absent
use Prim.Native.Nat.{bit_and}
use cheshire_fork.Base.{
  ℕ, zero, suc, ◌+◌, ◌-◌, ◌*◌, ◌/◌, ◌%◌, ◌^◌, Bool, true, false, not, ◌&&◌, Option, none, some,
  List, [], ◌∷◌, ◌==◌, if◌then◌else◌, get_or,
}
use cheshire_fork.Machine.{Machine, Cmd, ◌>>=◌, ◌>>◌, pure, throw, check_assert}
use cheshire_fork.SpiHost.{SpiHost, Segment, rx, tx, dummy, transact}

-- `spi_sdcard_t`; the state of the SPI host driver is with the devices.
pub record Handle : Type 0 where
  pub spi_freq : ℕ
  pub csid : ℕ
  pub csid_dummy : ℕ

pub data Resp : Type 0 where
  r1 r1b r2 r3 r7 : Resp

-- `__spi_sdcard_resp_len`.
abbrev pub resp_len : Resp → ℕ
resp_len r1 = 1
resp_len r1b = 1
resp_len r2 = 2
resp_len r3 = 5
resp_len r7 = 5

abbrev pub r1b_timeout : ℕ
r1b_timeout = 10000

abbrev pub data_timeout : ℕ
data_timeout = 10000

abbrev is_some {ℓ} : {A : Type ℓ} → Option A → Bool
is_some none = false
is_some (some a) = true

-- The segment of `__spi_sdcard_xfer_csaat`: transmit if `tx` is given, else receive if `rx` is.
pub segment : Bool → Option (List ℕ) → ℕ → Segment
segment to_rx (some bytes) len = tx bytes
segment true none len = rx len
segment false none len = dummy (8 * len)

module _ {D : Type 0} (host : SpiHost D) (h : Handle) where
  -- `__spi_sdcard_xfer_csaat`; the flag says whether `rx` is a buffer.
  unfoldable pub xfer_csaat : Bool → Option (List ℕ) → ℕ → Cmd D (List ℕ)
  unfolding segment
  xfer_csaat to_rx from_tx len = do
    check_assert 0x11 (not (is_some from_tx && to_rx))
    transact host true h.csid (segment to_rx from_tx len ∷ [])

  abbrev pub send : List ℕ → ℕ → Cmd D (List ℕ)
  send bytes = xfer_csaat false (some bytes)

  abbrev pub receive : ℕ → Cmd D (List ℕ)
  receive = xfer_csaat true none

  -- `__spi_sdcard_csfree`.
  unfoldable pub csfree : Cmd D (List ℕ)
  csfree = transact host false h.csid_dummy (dummy 8 ∷ [])

  -- `do CHECK_CALL(xfer(&byte, 1)) while (--timeout && again(byte));` from a timeout of at least 1:
  -- the timeout that is left, and the last byte.
  unfoldable pub poll : (ℕ → Bool) → ℕ → ℕ → Cmd D (ℕ × ℕ)
  poll again zero byte = pure (0, byte)
  poll again (suc t) byte = do
    got ← receive 1
    let next = get_or got 0 byte
    let rest = poll again t next
    if not (t == 0) && again next then rest else pure (t, next)
