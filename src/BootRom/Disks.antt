-- ===== src/BootRom/Disks.antt =====
-- `main` of hw/bootrom/cheshire_bootrom.c, from its reads of the strap registers on, in the modes
-- that boot from a disk.
use cheshire_fork.Base.{ℕ, ◌+◌, ◌*◌, ◌/◌, ◌^◌, ◌≤◌, ◌<◌, ◌≡◌, arith, false, some, none, ◌==◌, u64}
use cheshire_fork.Machine.{Machine}
use cheshire_fork.Machine.Bytes.{Mem, load64, in_range}
use cheshire_fork.Machine.Returns.{Returns}
use cheshire_fork.Clint.Time.{IsClock}
use cheshire_fork.Clint.Waiting.{IsTicking}
use cheshire_fork.Clint.Pace.{IsPaced}
use cheshire_fork.Clint.Straps.{IsStrapped, IsMeasurable, measure_lem}
use cheshire_fork.Gpt.{PartFields, signature}
use cheshire_fork.Gpt.Table.{first_byte, byte_count, IsOnDisk, IsFrame}
use cheshire_fork.Gpt.Boot.{IsBootRange}
use cheshire_fork.Gpt.Handover.{IsHandover}
use cheshire_fork.Flash.Reading.{IsFlash}
use cheshire_fork.SdCard.Card.{Stream, IsCard}
use cheshire_fork.SdCard.Startup.{Phase, cold, ready, IsStartup, IsController}
use cheshire_fork.Eeprom.Device
use cheshire_fork.Eeprom.Device.{wrapped, draining, empty, IsEeprom}
use cheshire_fork.BootRom.{Board, boot, main, boot_spm_max_lbas, boot_zsl_type_guid}
use cheshire_fork.BootRom.FlashBoot
use cheshire_fork.BootRom.FlashBoot.{boot_spi_s25fs512s-next_stage}
use cheshire_fork.BootRom.CardBoot.{card_slot, boot_spi_sdcard-next_stage}
use cheshire_fork.BootRom.EepromBoot
use cheshire_fork.BootRom.EepromBoot.{boot_i2c_24fc1025-next_stage}

-- The boot range of a disk lies on the disk and may be loaded to the scratchpad.
abbrev pub HasRoom : {D C : Type 0} → Board D C → (ℕ → ℕ → Type 0) → Mem → ℕ → Type 0
HasRoom b Free disk size =
    (range : PartFields)
    → IsBootRange disk boot_spm_max_lbas (some boot_zsl_type_guid) none range
    → (first_byte range + byte_count range ≤ size)
      × (b.map.spm + byte_count range ≤ 2 ^ 64)
      × Free b.map.spm (byte_count range)

-- The state in which a boot from `disk` enters the next stage.
abbrev pub IsEntered :
    {D C : Type 0} → Board D C → (D → Type 0) → Mem → (read_at : ℕ) → Machine D → Type 0
IsEntered b Ready disk read_at m =
    IsHandover Ready disk b.bus b.map read_at b.device b.gp b.map.spm boot_spm_max_lbas
      (some boot_zsl_type_guid) none m

module _ {D C : Type 0} (b : Board D C) {Keep : D → Type 0} {cycles : D → ℕ} {span step rtc : ℕ}
    (pace : IsPaced b.bus b.map.clint b.mcycle Keep cycles span step) {disk : Mem}
    {time lag : D → ℕ} {period : ℕ} (clock : IsClock b.bus b.map.clint time)
    (ticking : IsTicking b.bus b.map.clint time lag period) where
  -- The boot ROM in mode 2, from its reads of the straps: if the frequency can be measured, that of
  -- the real-time clock has 32 bits, the clock goes on with the reads, the SPI host starts up where
  -- the flash's chip select is set to the fastest clock up to 40 MHz and a quarter of the core's,
  -- the flash holds `disk` and is ready once 350 us have gone by since the clock's start, and the
  -- core runs at 5 Hz or more beyond the error of the measurement, then `main` enters the next
  -- stage at the scratchpad with the boot range of the disk loaded and the scratch registers
  -- written. The boot range fits into the disk and the scratchpad. The fuel is that of a
  -- measurement, and has `period` readings for each tick that is waited for and for each of 2 ^ 32
  -- carries of the clock.
  pub main-flash :
      {Free : ℕ → ℕ → Type 0} {size : ℕ} {Up Set Warm Ready : D → Type 0}
      (Q : Unit {0} → Machine D → Type 0) (m : Machine D)
      → IsStrapped b.bus b.map Keep cycles span step 2 rtc
      → Keep m.dev
      → IsMeasurable rtc span step (cycles m.dev) b.fuel
      → 6 * step * 2500 + 5 ≤ span * rtc
      → rtc < 2 ^ 32
      → ((d : D) → Warm d → 350 * rtc ≤ 1000000 * time d → Ready d)
      → FlashBoot.Starts b.spi Up Set Warm
      → IsFlash b.spi 1 Ready disk size
      → ((a : ℕ) (d : D) → Warm d → Warm (b.bus.read32 a d).1)
      → IsFrame Free b.frame
      → IsOnDisk disk size
      → (u64 (350 * rtc) / 1000000 + 1 + 2 ^ 32 + 1) * period ≤ b.fuel
      → HasRoom b Free disk size
      → ((m' : Machine D)
          → IsEntered b Ready disk b.flash_read_at m'
          → Returns Q (b.next_stage b.map.spm m'))
      → Returns Q (main b m)
  unfolding main boot
  main-flash Q m straps keep can hertz narrow settles starts flash keeps ok on enough room enter =
      measure_lem pace straps (λ mode rtc f. boot b mode f rtc) (Returns Q) m keep can
        λ f m1 near kept same.
          boot_spi_s25fs512s-next_stage b starts flash clock ticking keeps ok on f rtc Q m1
            (omega (arith, near, hertz)) narrow settles enough room enter

  -- The boot ROM in mode 1, from its reads of the straps: if the frequency can be measured, that of
  -- the real-time clock has 32 bits, the clock goes on with the reads, the SPI host takes its
  -- configuration and has a chip select, the card is at chip select 0 and is released by the last
  -- one, starts up within the fuel, is ready once 1 ms has gone by since the clock's start and
  -- holds `disk`, the core runs at 24 MHz or more beyond the error of the measurement, and the mask
  -- for five-byte responses, which C leaves open, has at most 40 bits, then `main` enters the next
  -- stage at the scratchpad with the boot range of the disk loaded and the scratch registers
  -- written. The boot range fits into the disk and the scratchpad, and the driver's own buffer is
  -- apart from what is read into. The fuel is as for the flash.
  pub main-card :
      {line : D → Stream} {State Starting : Phase → D → Type 0} {rounds : ℕ}
      {Up On Off Warm Ready Open : D → Type 0} {Free : ℕ → ℕ → Type 0} {size : ℕ}
      (Q : Unit {0} → Machine D → Type 0) (m : Machine D)
      → IsStrapped b.bus b.map Keep cycles span step 1 rtc
      → Keep m.dev
      → IsMeasurable rtc span step (cycles m.dev) b.fuel
      → 24000000 + 6 * step * 2500 + 1 ≤ span * rtc
      → rtc < 2 ^ 32
      → ((d : D) → Warm d → 1000 * rtc ≤ 1000000 * time d → Ready d)
      → IsController b.spi Up On (State cold) (State ready) Off Warm
      → IsStartup b.spi (card_slot b.spi) line State Starting rounds
      → IsCard b.spi (card_slot b.spi) Ready Open line disk size
      → ((a : ℕ) (d : D) → Warm d → Warm (b.bus.read32 a d).1)
      → IsFrame Free b.frame
      → IsOnDisk disk size
      → ((buf len : ℕ)
          → Free buf len
          → (512 ≤ buf) × ((i : ℕ) → i < len → in_range b.swap 512 (buf + i) ≡ false))
      → 0 < b.spi.num_cs
      → b.undefined.wide_mask 40 < 2 ^ 40
      → rounds < b.fuel
      → (u64 (1000 * rtc) / 1000000 + 1 + 2 ^ 32 + 1) * period ≤ b.fuel
      → HasRoom b Free disk size
      → ((m' : Machine D)
          → IsEntered b Ready disk b.sdcard_read_at m'
          → Returns Q (b.next_stage b.map.spm m'))
      → Returns Q (main b m)
  unfolding main boot
  main-card Q m straps keep can hertz low settles controller start card keeps ok on roomy selects
        narrow rounded enough room enter =
      measure_lem pace straps (λ mode rtc f. boot b mode f rtc) (Returns Q) m keep can
        λ f m1 near kept same.
          boot_spi_sdcard-next_stage b controller start card clock ticking keeps ok on roomy f rtc Q
            m1 (omega (arith, near, hertz)) low settles selects narrow rounded enough room enter

  -- The boot ROM in mode 3, from its reads of the straps: if the frequency can be measured, the clock
  -- goes on with the reads, the I2C host starts up, the EEPROM holds `disk` without a GPT signature,
  -- and the core runs at 1 GHz at most and not at 0 Hz, the error of the measurement included, then
  -- `main` enters the next stage at the scratchpad with the first 96 blocks of the EEPROM loaded and
  -- the scratch registers written. The fuel is that of a measurement, exceeds the looks that the
  -- host needs, and has `period` readings for each of 2 ^ 32 carries of the clock.
  pub main-eeprom :
      {State : Device.Phase → D → Type 0} {drain arrive : ℕ} {Up Set : D → Type 0}
      (Q : Unit {0} → Machine D → Type 0) (m : Machine D)
      → IsStrapped b.bus b.map Keep cycles span step 3 rtc
      → Keep m.dev
      → IsMeasurable rtc span step (cycles m.dev) b.fuel
      → 6 * step * 2500 + 1 < span * rtc
      → span * rtc + 6 * step * 2500 + 1 ≤ 1000000000
      → EepromBoot.Starts b.i2c Up Set (State (draining drain))
      → IsEeprom b.i2c State disk drain arrive
      → ((a : ℕ) (d : D) → State empty d → State empty (b.bus.read32 a d).1)
      → (1 + 2 ^ 32 + 1) * period ≤ b.fuel
      → drain < b.fuel
      → arrive < b.fuel
      → (load64 (wrapped disk) 0x200 == signature) ≡ false
      → ((m' : Machine D)
          → IsEntered b (State (draining drain)) (wrapped disk) b.eeprom_read_at m'
          → Returns Q (b.next_stage b.map.spm m'))
      → Returns Q (main b m)
  unfolding main boot
  main-eeprom Q m straps keep can hertz slow starts rom keeps clock_fuel patient patient_read
        unsigned enter =
      measure_lem pace straps (λ mode rtc f. boot b mode f rtc) (Returns Q) m keep can
        λ f m1 near kept same.
          boot_i2c_24fc1025-next_stage b rom clock ticking keeps clock_fuel patient patient_read f Q
            m1 starts (omega (arith, near, hertz)) (omega (arith, near, slow)) unsigned enter
