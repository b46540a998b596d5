-- ===== src/BootRom.antt =====
-- hw/bootrom/cheshire_bootrom.c: the boot ROM's main function and its four boot modes.
pub mod FlashBoot
pub mod CardBoot
pub mod EepromBoot
pub mod Passive
pub mod Main
pub mod Disks
pub mod NoCard
use Prim.Native.Nat.{bit_and, bit_or}
use cheshire_fork.Base.{
  ℕ, zero, suc, ◌+◌, ◌-◌, ◌*◌, ◌/◌, none, some, leb, ◌==◌, if◌then◌else◌, u64, ◌<<<◌,
}
use cheshire_fork.Machine.{Run, done, fail, halt, spin, Cmd, diverge, ◌>>=◌, ◌>>◌}
use cheshire_fork.Mmio.{Bus, AddressMap, get32, put32, scratch_0, scratch_1, scratch_2, boot_mode}
use cheshire_fork.Mmio
use cheshire_fork.SpiHost.{SpiHost}
use cheshire_fork.SdCard
use cheshire_fork.SdCard.Command.{Undefined}
use cheshire_fork.SdCard.Init
use cheshire_fork.SdCard.Read.{read_checkcrc}
use cheshire_fork.Flash
use cheshire_fork.Eeprom.{I2cHost, i2c_init, eeprom_read}
use cheshire_fork.Clint.{get_core_freq, spin_until, spin_ticks}
use cheshire_fork.UartDebug.{Slots, debug_init, debug_check, serve}
use cheshire_fork.Gpt.{Frame, Guid}
use cheshire_fork.Gpt.Boot.{boot_part_else_raw}
use cheshire_fork.Reader.{Reader}

-- `__BOOT_SPM_MAX_LBAS` and `__BOOT_ZSL_TYPE_GUID` of sw/include/params.h.
abbrev pub boot_spm_max_lbas : ℕ
boot_spm_max_lbas = 2 * 48

abbrev pub boot_zsl_type_guid : Guid
boot_zsl_type_guid = (0x4CE4FD950269B26A, 0x622C41011494CF98)

-- What surrounds the C code: the devices and drivers that are not part of it, the assembly routine
-- that runs the next stage, the call of loaded code, the addresses that the linker and the stack
-- frame give, and the fuel of the waiting loops.
pub record Board (D C : Type 0) : Type 0 where
  pub bus : Bus D
  pub map : AddressMap
  pub spi : SpiHost D
  pub i2c : I2cHost D C
  pub mcycle : D → ℕ × D
  pub next_stage : ℕ → Cmd D (Unit {0})
  pub invoke : ℕ → Cmd D ℕ
  pub undefined : Undefined
  pub frame : Frame
  pub slots : Slots
  pub swap : ℕ
  pub device : ℕ
  pub gp : ℕ
  pub sdcard_read_at : ℕ
  pub flash_read_at : ℕ
  pub eeprom_read_at : ℕ
  pub fuel : ℕ

module _ {D C : Type 0} (b : Board D C) where
  -- The calls of `gpt_boot_part_else_raw`: into the scratchpad, for the loader's partition type.
  unfoldable pub boot_disk : (read_at : ℕ) → Reader D → Cmd D (Unit {0})
  boot_disk read_at read =
      boot_part_else_raw read b.frame b.bus b.map b.next_stage read_at b.device b.gp b.map.spm
        boot_spm_max_lbas (some boot_zsl_type_guid) none

  -- `while (!(scratch[2] & 2)) if (uart_debug_check()) return uart_debug_serve();` and the launch.
  -- C leaves the order of the two last reads to the compiler; here it is that of the expression.
  unfoldable pub passive_loop : ℕ → Cmd D (Unit {0})
  passive_loop zero = diverge
  passive_loop (suc n) = do
    flags ← get32 b.bus b.map.regs scratch_2
    let again = (do
      request ← debug_check b.bus b.map.uart
      let next = passive_loop n
      if request then serve b.bus b.map.uart b.invoke b.slots b.fuel b.fuel else next)
    let launch = (do
      put32 b.bus b.map.regs scratch_2 0
      high ← get32 b.bus b.map.regs scratch_1
      low ← get32 b.bus b.map.regs scratch_0
      b.next_stage (bit_or (u64 (high <<< 32)) low))
    if bit_and flags 2 == 0 then again else launch

  -- A call whose return value is dropped.
  unfoldable pub dropped : Run D (Unit {0}) → Run D (Unit {0})
  dropped (done a m) = done a m
  dropped (fail c m) = done tt m
  dropped (halt m) = halt m
  dropped spin = spin

  -- `boot_passive`.
  unfoldable pub boot_passive : (core_freq : ℕ) → Cmd D (Unit {0})
  unfolding passive_loop dropped
  boot_passive core_freq = do
    (λ m. dropped (debug_init b.bus b.map.uart core_freq m))
    passive_loop b.fuel

  unfoldable pub sdcard_device : SdCard.Handle
  sdcard_device = record { spi_freq = 24 * 1000 * 1000; csid = 0; csid_dummy = b.spi.num_cs - 1 }

  -- `boot_spi_sdcard`.
  unfoldable pub boot_spi_sdcard : (core_freq rtc_freq : ℕ) → Cmd D (Unit {0})
  unfolding sdcard_device
  boot_spi_sdcard core_freq rtc_freq = do
    Init.init b.spi b.undefined (some sdcard_device) core_freq b.fuel
    spin_until b.bus b.map.clint b.fuel (u64 (1000 * rtc_freq) / (1000 * 1000) + 1)
    boot_disk b.sdcard_read_at (read_checkcrc b.spi b.undefined sdcard_device b.swap)

  unfoldable pub flash_device : ℕ → Flash.Handle
  flash_device core_freq = record {
    spi_freq = if leb (40 * 1000 * 1000) (core_freq / 4) then 40 * 1000 * 1000 else core_freq / 4;
    csid = 1;
  }

  -- `boot_spi_s25fs512s`.
  unfoldable pub boot_spi_s25fs512s : (core_freq rtc_freq : ℕ) → Cmd D (Unit {0})
  unfolding flash_device
  boot_spi_s25fs512s core_freq rtc_freq = do
    Flash.init b.spi (some (flash_device core_freq)) core_freq
    spin_until b.bus b.map.clint b.fuel (u64 (350 * rtc_freq) / (1000 * 1000) + 1)
    boot_disk b.flash_read_at (Flash.single_read b.spi (flash_device core_freq))

  -- `boot_i2c_24fc1025`.
  unfoldable pub boot_i2c_24fc1025 : (core_freq : ℕ) → Cmd D (Unit {0})
  boot_i2c_24fc1025 core_freq = do
    i2c_init b.i2c core_freq
    boot_disk b.eeprom_read_at (eeprom_read b.i2c (spin_ticks b.bus b.map.clint b.fuel 1) b.fuel)

  -- The switch of `main`.
  unfoldable pub boot : (mode core_freq rtc_freq : ℕ) → Cmd D (Unit {0})
  unfolding boot_passive boot_spi_sdcard boot_spi_s25fs512s boot_i2c_24fc1025
  boot mode core_freq rtc_freq =
      if mode == 0
      then boot_passive core_freq
      else if mode == 1
      then boot_spi_sdcard core_freq rtc_freq
      else if mode == 2
      then boot_spi_s25fs512s core_freq rtc_freq
      else if mode == 3
      then boot_i2c_24fc1025 core_freq
      else boot_passive core_freq

  -- `main`.
  unfoldable pub main : Cmd D (Unit {0})
  unfolding boot
  main = do
    bootmode ← get32 b.bus b.map.regs boot_mode
    rtc ← get32 b.bus b.map.regs Mmio.rtc_freq
    core_freq ← get_core_freq b.bus b.map.clint b.mcycle b.fuel rtc 2500
    boot bootmode core_freq rtc
