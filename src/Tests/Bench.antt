-- ===== src/Tests/Bench.antt =====
-- A board around the devices of a test, with nothing on the buses that the test does not need.
use mathlib.Core.Path.{subst}
use cheshire_fork.Gpt.Table.{first_byte, byte_count, whole}
use cheshire_fork.Base.{ℕ, ◌+◌, ◌^◌, ◌<◌, ◌≡◌, refl, arith, false, some, none, [], ◌==◌}
use cheshire_fork.Machine.{Machine, pure}
use cheshire_fork.Machine.Bytes.{Mem, load64}
use cheshire_fork.Mmio.{Bus, AddressMap}
use cheshire_fork.SpiHost.{SpiHost}
use cheshire_fork.Eeprom.{I2cHost}
use cheshire_fork.Gpt.{Frame, PartFields, signature}
use cheshire_fork.Gpt.Boot.{IsBootRange, IsRangeIf}
use cheshire_fork.Gpt.Handover.{IsHandover}
use cheshire_fork.BootRom.{Board, boot_spm_max_lbas, boot_zsl_type_guid}

abbrev pub absent_spi : {D : Type 0} → SpiHost D
absent_spi = record {
  num_cs = 2;
  rx_depth = 16;
  init = λ d. (0, d);
  reset = λ d. d;
  configure_cs = λ c i d. (0, d);
  enable = λ b d. d;
  output_set_enabled = λ b d. (0, d);
  transaction = λ csaat csid segs d. record { code = 1; received = []; after = d };
}

abbrev pub absent_i2c : {D : Type 0} → I2cHost D (Unit {0})
absent_i2c = record {
  fifo_depth = 64;
  init = λ d. (0, d);
  host_set_enabled = λ b d. (0, d);
  reset_acq_fifo = λ d. (0, d);
  reset_fmt_fifo = λ d. (0, d);
  reset_rx_fifo = λ d. (0, d);
  reset_tx_fifo = λ d. (0, d);
  compute_timing = λ t. (0, tt);
  configure = λ c d. (0, d);
  get_fifo_levels = λ d. (0, record { fmt = 0; rx = 0; tx = 0; acq = 0 }, d);
  write_byte = λ byte flag suppress d. (0, d);
  read_byte = λ d. (0, 0, d);
}

abbrev pub bench :
    {D : Type 0}
    → Bus D
    → SpiHost D
    → I2cHost D (Unit {0})
    → (D → ℕ × D)
    → Frame
    → (swap : ℕ) → Board D (Unit {0})
bench bus spi i2c mcycle frame swap = record {
  bus = bus;
  map = record { regs = 0x3000000; uart = 0x3002000; clint = 0x2040000; spm = 0x20000000 };
  spi = spi;
  i2c = i2c;
  mcycle = mcycle;
  next_stage = λ a. pure tt;
  invoke = λ a. pure 0;
  undefined = record { buf = 0; wide_mask = λ n. 255 };
  frame = frame;
  slots = record { addr = 0x10040; len = 0x10048; ret = 0x10050 };
  swap = swap;
  device = 0x4000;
  gp = 0x5000;
  sdcard_read_at = 0x2000;
  flash_read_at = 0x2100;
  eeprom_read_at = 0x2200;
  fuel = 2 ^ 35;
}

lens : (first_byte (whole 96) ≡ 0) × (byte_count (whole 96) ≡ 0xC000)
lens = (refl, refl)

-- The range that the boot ROM takes from a disk without signature.
pub unsigned_range :
    (disk : Mem) (range : PartFields)
    → (load64 disk 0x200 == signature) ≡ false
    → IsBootRange disk boot_spm_max_lbas (some boot_zsl_type_guid) none range
    → (first_byte range ≡ 0) × (byte_count range ≡ 0xC000)
unsigned_range disk range unsigned is =
    let (from, count) = lens in
    let raw : range ≡ whole 96 =
      subst (λ b. IsRangeIf b disk boot_spm_max_lbas (some boot_zsl_type_guid) none range) unsigned
        is in
    (rw raw from, rw raw count)

pub unsigned_loaded :
    {D : Type 0} {Ready : D → Type 0} (disk : Mem) {bus : Bus D} {map : AddressMap}
    {read_at priv gp : ℕ} (code_buf : ℕ) (m : Machine D)
    → (load64 disk 0x200 == signature) ≡ false
    → IsHandover Ready disk bus map read_at priv gp code_buf boot_spm_max_lbas
        (some boot_zsl_type_guid)
        none
        m
    → (i : ℕ) → i < 0xC000
    → m.mem (code_buf + i) ≡ disk i
unsigned_loaded disk code_buf m unsigned h i below =
    let (from, count) = unsigned_range disk h.range unsigned h.booted in
    let same : 0 + i ≡ i = omega arith in
    subst (λ a. m.mem (code_buf + i) ≡ disk a) same
      (subst (λ a. m.mem (code_buf + i) ≡ disk (a + i)) from (h.loaded i (rw count below)))
