-- ===== src/Mmio.antt =====
-- Register accesses: `reg8` and `reg32` of sw/include/util.h, the base addresses that the linker
-- provides (sw/include/params.h), and the register offsets of sw/include/regs. What a register
-- does is the hardware's: a bus is a parameter, and a read may change the device too.
use cheshire_fork.Base.{ℕ, ◌+◌, u8, u32}
use cheshire_fork.Machine.{Cmd, on_dev}

pub record Bus (D : Type 0) : Type 0 where
  pub read8 : ℕ → D → ℕ × D
  pub read32 : ℕ → D → ℕ × D
  pub write8 : ℕ → ℕ → D → D
  pub write32 : ℕ → ℕ → D → D

-- `__base_regs`, `__base_uart`, `__base_clint` and `__base_spm`.
pub record AddressMap : Type 0 where
  pub regs : ℕ
  pub uart : ℕ
  pub clint : ℕ
  pub spm : ℕ

module _ {D : Type 0} (bus : Bus D) where
  -- `*reg32(base, offs)` and the assignments to it; the value is cut to the width.
  unfoldable pub get32 : (base offs : ℕ) → Cmd D ℕ
  get32 base offs = on_dev (bus.read32 (base + offs))

  unfoldable pub put32 : (base offs value : ℕ) → Cmd D (Unit {0})
  put32 base offs value = on_dev (λ d. (tt, bus.write32 (base + offs) (u32 value) d))

  unfoldable pub get8 : (base offs : ℕ) → Cmd D ℕ
  get8 base offs = on_dev (bus.read8 (base + offs))

  unfoldable pub put8 : (base offs value : ℕ) → Cmd D (Unit {0})
  put8 base offs value = on_dev (λ d. (tt, bus.write8 (base + offs) (u8 value) d))

-- Offsets in `__base_regs` (sw/include/regs/cheshire.h).
abbrev pub scratch_0 : ℕ
scratch_0 = 0x0

abbrev pub scratch_1 : ℕ
scratch_1 = 0x4

abbrev pub scratch_2 : ℕ
scratch_2 = 0x8

abbrev pub scratch_3 : ℕ
scratch_3 = 0xc

abbrev pub boot_mode : ℕ
boot_mode = 0x40

abbrev pub rtc_freq : ℕ
rtc_freq = 0x44
