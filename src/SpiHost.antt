-- ===== src/SpiHost.antt =====
-- The interface of OpenTitan's SPI host driver (`sw/device/lib/dif/dif_spi_host.h` and
-- `spi_host_regs.h`, fetched by the build), as sw/lib/hal calls it. A call works on the state of
-- the devices. The bytes of a transmit segment are those of its buffer when it is issued; the reply
-- lists the bytes that the call has stored into its receive buffer, and the caller stores them.
use cheshire_fork.Base.{ℕ, Bool, List}
use cheshire_fork.Machine.{Cmd, on_dev, ◌>>=◌, ◌>>◌, pure, check_call}

-- The segments that the drivers issue, all at standard width and, for addresses, in 4-byte mode.
-- A dummy segment has its length in cycles.
pub data Segment : Type 0 where
  opcode address dummy rx : ℕ → Segment
  tx : List ℕ → Segment

pub record Reply (D : Type 0) : Type 0 where
  pub code : ℕ
  pub received : List ℕ
  pub after : D

-- `dif_spi_host_config_t`, with the chip select timing as (idle, lead, trail).
pub record Config : Type 0 where
  pub chip_select : ℕ × ℕ × ℕ
  pub cpha : ℕ
  pub cpol : ℕ
  pub full_cycle : Bool
  pub peripheral_clock_freq_hz : ℕ
  pub spi_clock : ℕ

pub record SpiHost (D : Type 0) : Type 0 where
  -- `SPI_HOST_PARAM_NUM_C_S` and `SPI_HOST_PARAM_RX_DEPTH`
  pub num_cs : ℕ
  pub rx_depth : ℕ
  pub init : D → ℕ × D
  pub reset : D → D
  pub configure_cs : Config → ℕ → D → ℕ × D
  pub enable : Bool → D → D
  pub output_set_enabled : Bool → D → ℕ × D
  -- `dif_spi_host_transaction`, and with `true` its variant that keeps chip select asserted
  pub transaction : Bool → ℕ → List Segment → D → Reply D

-- A driver call that returns an `int`, under `CHECK_CALL`.
abbrev pub checked : {D : Type 0} → (D → ℕ × D) → Cmd D (Unit {0})
checked f = on_dev f >>= check_call

-- A driver call whose result is dropped.
abbrev pub ignored : {D : Type 0} → (D → D) → Cmd D (Unit {0})
ignored f = on_dev (λ d. (tt, f d))

unfoldable pub transact : {D : Type 0} → SpiHost D → Bool → ℕ → List Segment → Cmd D (List ℕ)
transact host csaat csid segs = do
  r ← on_dev (λ d. let r = host.transaction csaat csid segs d in (r, r.after))
  check_call r.code
  pure r.received
