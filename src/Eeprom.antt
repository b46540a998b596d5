-- ===== src/Eeprom.antt =====
-- sw/lib/hal/i2c_24fc1025.c: the 24FC1025 EEPROM on the I2C host. OpenTitan's I2C driver
-- (`sw/device/lib/dif/dif_i2c.h` and `i2c_regs.h`, fetched by the build) is a parameter.
pub mod Device
pub mod Chunk
pub mod Reading
use Prim.Native.Nat.{bit_and, bit_or}
use cheshire_fork.Base.{
  ℕ, zero, suc, ◌+◌, ◌-◌, ◌*◌, ◌/◌, ◌%◌, ◌^◌, Bool, true, false, not, ◌&&◌, ◌||◌, List, [], ◌∷◌,
  ltb, leb, ◌==◌, if◌then◌else◌, u8, u64, sub64, ◌<<<◌, ◌>>>◌,
}
use cheshire_fork.Machine.{
  Cmd, diverge, ◌>>=◌, ◌>>◌, pure, when, check_call, check_assert, on_dev, mem_of, set_mem,
}
use cheshire_fork.Machine.Bytes.{store_bytes}

-- `dif_i2c_fmt_t`, the flags that the driver uses.
pub data Fmt : Type 0 where
  start transmit transmit_stop receive : Fmt

pub record FifoLevels : Type 0 where
  pub fmt : ℕ
  pub rx : ℕ
  pub tx : ℕ
  pub acq : ℕ

unfoldable pub any_level : FifoLevels → Bool
any_level l = not (l.fmt == 0 && (l.rx == 0 && (l.tx == 0 && l.acq == 0)))

-- `dif_i2c_timing_config_t`.
pub record Timing : Type 0 where
  pub clock_period_nanos : ℕ
  pub is_fast : Bool
  pub scl_period_nanos : ℕ
  pub sda_fall_nanos : ℕ
  pub sda_rise_nanos : ℕ

-- `C` is the driver's `dif_i2c_config_t`.
pub record I2cHost (D C : Type 0) : Type 0 where
  pub fifo_depth : ℕ
  pub init : D → ℕ × D
  pub host_set_enabled : Bool → D → ℕ × D
  pub reset_acq_fifo : D → ℕ × D
  pub reset_fmt_fifo : D → ℕ × D
  pub reset_rx_fifo : D → ℕ × D
  pub reset_tx_fifo : D → ℕ × D
  pub compute_timing : Timing → ℕ × C
  pub configure : C → D → ℕ × D
  -- the code and the four levels
  pub get_fifo_levels : D → ℕ × FifoLevels × D
  -- a byte, its flag, and whether a missing acknowledge is tolerated
  pub write_byte : ℕ → Fmt → Bool → D → ℕ × D
  pub read_byte : D → ℕ × ℕ × D

-- The variable of this name in `__i2c_24fc1025_access_chunk`: the device's code and the selects.
unfoldable pub ctrl_waddr : ℕ → ℕ
ctrl_waddr addr = bit_or (bit_or 0xA0 (bit_and addr 0x10000 >>> 1)) (bit_and addr 0x1100000 >>> 4)

abbrev pub checked : {D : Type 0} → (D → ℕ × D) → Cmd D (Unit {0})
checked f = on_dev f >>= check_call

module _ {D C : Type 0} (i2c : I2cHost D C) where
  -- `i2c_24fc1025_init` for a handle that is not null.
  unfoldable pub i2c_init : (core_freq : ℕ) → Cmd D (Unit {0})
  i2c_init core_freq = do
    check_assert 0x12 (not (core_freq == 0))
    checked i2c.init
    checked (i2c.host_set_enabled false)
    checked i2c.reset_acq_fifo
    checked i2c.reset_fmt_fifo
    checked i2c.reset_rx_fifo
    checked i2c.reset_tx_fifo
    let timing : Timing = record {
      clock_period_nanos = 1000000000 / core_freq;
      is_fast = true;
      scl_period_nanos = 1000000 / 400;
      sda_fall_nanos = 300;
      sda_rise_nanos = 100;
    }
    let (code, config) = i2c.compute_timing timing
    check_call code
    checked (i2c.configure config)
    checked (i2c.host_set_enabled true)

  unfoldable pub levels : Cmd D FifoLevels
  levels = do
    (code, l) ← on_dev (λ d. let (code, l, d') = i2c.get_fifo_levels d in ((code, l), d'))
    check_call code
    pure l

  -- `do get_fifo_levels while (again);`, on fuel.
  unfoldable pub wait_levels : (FifoLevels → Bool) → ℕ → Cmd D (Unit {0})
  unfolding levels
  wait_levels again zero = diverge
  wait_levels again (suc n) = do
    l ← levels
    let rest = wait_levels again n
    if again l then rest else pure tt

  abbrev pub send : ℕ → Fmt → Bool → Cmd D (Unit {0})
  send byte flag suppress = checked (i2c.write_byte (u8 byte) flag suppress)

  -- `for (b = 0; b < n; b++) write_byte(buf[b])` from `b` on.
  unfoldable pub send_loop : (buf left b : ℕ) → Cmd D (Unit {0})
  send_loop buf zero b = pure tt
  send_loop buf (suc left) b = do
    f ← mem_of
    send (f (buf + b)) transmit true
    send_loop buf left (b + 1)

  -- `for (b = 0; b < len; b++) read_byte(buf + b)` from `b` on.
  unfoldable pub fetch_loop : (buf left b : ℕ) → Cmd D (Unit {0})
  fetch_loop buf zero b = pure tt
  fetch_loop buf (suc left) b = do
    (code, byte) ← on_dev (λ d. let (code, byte, d') = i2c.read_byte d in ((code, byte), d'))
    f ← mem_of
    set_mem (store_bytes (buf + b) (byte ∷ []) f)
    check_call code
    fetch_loop buf left (b + 1)

  module _ (spin_tick : Cmd D (Unit {0})) (patience : ℕ) where
    -- The read half of `__i2c_24fc1025_access_chunk`.
    unfoldable pub read_half : (buf addr len : ℕ) → Cmd D (Unit {0})
    unfolding wait_levels fetch_loop
    read_half buf addr len = do
      send (bit_or (ctrl_waddr addr) 0x1) start true
      send len receive false
      checked (i2c.host_set_enabled true)
      wait_levels (λ l. ltb l.rx len) patience
      fetch_loop buf len 0

    -- What `__i2c_24fc1025_access_chunk` does before it branches.
    unfoldable pub address_phase : (addr : ℕ) → Bool → Cmd D (Unit {0})
    unfolding wait_levels any_level ctrl_waddr
    address_phase addr write = do
      wait_levels any_level patience
      spin_tick
      checked (i2c.host_set_enabled false)
      send (ctrl_waddr addr) start true
      send (bit_and (addr >>> 8) 0xFF) transmit true
      send (bit_and addr 0xFF) (if write then transmit else transmit_stop) true

    -- `__i2c_24fc1025_access_chunk`, on fuel for its recursion. As in the source, the recursive
    -- call of a write moves on by `len` and is left with `len - half_fill` bytes.
    unfoldable pub access_chunk : (fuel buf addr len : ℕ) → Bool → Cmd D (Unit {0})
    access_chunk zero buf addr len write = diverge
    access_chunk (suc n) buf addr len false = do address_phase addr false; read_half buf addr len
    access_chunk (suc n) buf addr len true = do
      let half_fill = i2c.fifo_depth / 2
      let head = sub64 len 1
      let again = access_chunk n (buf + len) (u64 (addr + len)) (len - half_fill) true
      address_phase addr true
      send_loop buf (if leb head half_fill then head else half_fill) 0
      f ← mem_of
      send (f (buf + head)) transmit true
      checked (i2c.host_set_enabled true)
      if ltb half_fill len then again else pure tt

    -- `for (; offs < len; offs += FIFO_DEPTH)`, on fuel.
    unfoldable pub chunk_loop : (fuel buf addr len offs : ℕ) → Bool → Cmd D (Unit {0})
    unfolding access_chunk
    chunk_loop zero buf addr len offs write = diverge
    chunk_loop (suc n) buf addr len offs write =
        let chunk_len = if leb i2c.fifo_depth (len - offs) then i2c.fifo_depth else len - offs in
        let more =
          access_chunk (chunk_len + 1) (buf + offs) (u64 (addr + offs)) chunk_len write
          >> chunk_loop n buf addr len (offs + i2c.fifo_depth) write in
        if ltb offs len then more else pure tt

    -- `__i2c_24fc1025_access`.
    unfoldable pub access : Bool → (buf addr len : ℕ) → Cmd D (Unit {0})
    unfolding chunk_loop access_chunk
    access write buf addr len = do
      check_assert 0x13 (128 % i2c.fifo_depth == 0)
      let addr_offs = addr % i2c.fifo_depth
      let offs = if addr_offs == 0 then 0 else i2c.fifo_depth - addr_offs
      when (not (addr_offs == 0)) (access_chunk (offs + 1) buf addr offs write)
      chunk_loop (len + 1) buf addr len offs write

    -- `i2c_24fc1025_read` and `i2c_24fc1025_write`.
    unfoldable pub eeprom_read : (buf addr len : ℕ) → Cmd D (Unit {0})
    unfolding access
    eeprom_read = access false

    unfoldable pub eeprom_write : (buf addr len : ℕ) → Cmd D (Unit {0})
    unfolding access
    eeprom_write = access true
