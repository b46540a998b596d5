-- ===== src/Uart.antt =====
-- sw/lib/dif/uart.c: a 16550 UART behind memory-mapped registers. The loops that wait for the line
-- status take fuel; the source waits without a bound.
pub mod Stream
pub mod Input
pub mod Setup
use Prim.Native.Nat.{bit_and}
use cheshire_fork.Base.{
  ℕ, zero, suc, ◌+◌, ◌*◌, ◌/◌, ◌^◌, Bool, true, false, not, ◌&&◌, ◌==◌, if◌then◌else◌, ◌<<<◌, ◌>>>◌,
  u64,
}
use cheshire_fork.Machine.{Cmd, diverge, ◌>>=◌, ◌>>◌, pure, mem_of, set_mem}
use cheshire_fork.Machine.Bytes.{store_bytes}
use cheshire_fork.Mmio.{Bus, get8, put8}
use cheshire_fork.Base.{[], ◌∷◌, ◌%◌}

-- The register offsets of sw/include/dif/uart.h. Reads of offset 0 are the receive buffer (RBR) and
-- writes the transmit holding register (THR), or the divisor's low byte while DLAB is set.
abbrev pub rbr : ℕ
rbr = 0

abbrev pub thr : ℕ
thr = 0

abbrev pub intr_enable : ℕ
intr_enable = 4

abbrev pub fifo_control : ℕ
fifo_control = 8

abbrev pub line_control : ℕ
line_control = 12

abbrev pub modem_control : ℕ
modem_control = 16

abbrev pub line_status : ℕ
line_status = 20

abbrev pub dlab_lsb : ℕ
dlab_lsb = 0

abbrev pub dlab_msb : ℕ
dlab_msb = 4

-- The masks of the line status bits DATA_READY, THR_EMPTY and TMIT_EMPTY.
abbrev pub data_ready : ℕ
data_ready = 2 ^ 0

abbrev pub thr_empty : ℕ
thr_empty = 2 ^ 5

abbrev pub tmit_empty : ℕ
tmit_empty = 2 ^ 6

module _ {D : Type 0} (bus : Bus D) (base : ℕ) where
  -- `uart_init`.
  unfoldable pub uart_init : (freq baud : ℕ) → Cmd D (Unit {0})
  uart_init freq baud = do
    let divisor = freq / u64 (baud <<< 4)
    put8 bus base intr_enable 0x00
    put8 bus base line_control 0x80
    put8 bus base dlab_lsb divisor
    put8 bus base dlab_msb (divisor >>> 8)
    put8 bus base line_control 0x03
    put8 bus base fifo_control 0xC7
    put8 bus base modem_control 0x20

  -- `uart_read_ready`.
  unfoldable pub read_ready : Cmd D Bool
  read_ready = do status ← get8 bus base line_status; pure (not (bit_and status data_ready == 0))

  -- `__uart_write_ready`.
  unfoldable pub write_ready : Cmd D Bool
  write_ready = do status ← get8 bus base line_status; pure (not (bit_and status thr_empty == 0))

  -- `__uart_write_idle`: the second access is made only if the first test passes.
  unfoldable pub write_idle : Cmd D Bool
  unfolding write_ready
  write_idle = do
    ready ← write_ready
    if ready
        then (do status ← get8 bus base line_status; pure (not (bit_and status tmit_empty == 0)))
        else pure false

  -- `while (!test());`
  unfoldable pub wait_for : Cmd D Bool → ℕ → Cmd D (Unit {0})
  wait_for test zero = diverge
  wait_for test (suc n) = do
    passed ← test
    let again = wait_for test n
    if passed then pure tt else again

  -- `uart_write`.
  unfoldable pub write_byte : (fuel byte : ℕ) → Cmd D (Unit {0})
  unfolding wait_for write_ready
  write_byte fuel byte = do wait_for write_ready fuel; put8 bus base thr byte

  -- The loop of `uart_write_str` at index `i`, with `left` rounds left.
  unfoldable pub write_loop : (fuel src left i : ℕ) → Cmd D (Unit {0})
  write_loop fuel src zero i = pure tt
  write_loop fuel src (suc left) i = do
    f ← mem_of
    write_byte fuel (f (src + i))
    write_loop fuel src left (i + 1)

  -- `uart_write_str`.
  unfoldable pub write_str : (fuel src len : ℕ) → Cmd D (Unit {0})
  unfolding write_loop
  write_str fuel src len = write_loop fuel src len 0

  -- `uart_write_flush`, without its fence.
  unfoldable pub write_flush : (fuel : ℕ) → Cmd D (Unit {0})
  unfolding wait_for write_idle
  write_flush fuel = wait_for write_idle fuel

  -- `uart_read`.
  unfoldable pub read_byte : (fuel : ℕ) → Cmd D ℕ
  unfolding wait_for read_ready
  read_byte fuel = do wait_for read_ready fuel; get8 bus base rbr

  unfoldable pub read_loop : (fuel dst left i : ℕ) → Cmd D (Unit {0})
  read_loop fuel dst zero i = pure tt
  read_loop fuel dst (suc left) i = do
    byte ← read_byte fuel
    f ← mem_of
    set_mem (store_bytes (dst + i) (byte ∷ []) f)
    read_loop fuel dst left (i + 1)

  -- `uart_read_str`.
  unfoldable pub read_str : (fuel dst len : ℕ) → Cmd D (Unit {0})
  unfolding read_loop
  read_str fuel dst len = read_loop fuel dst len 0
