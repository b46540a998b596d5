-- ===== src/BootRom/NoCard.antt =====
-- `main` of hw/bootrom/cheshire_bootrom.c in the SD card mode, with no card in the slot.
use cheshire_fork.Base.{◌+◌, ◌*◌, ◌≤◌, ◌<◌, ◌≡◌, ℕ, ◌∙◌, arith}
use cheshire_fork.Machine.{Machine}
use cheshire_fork.Machine.Returns.{Fails, Fails-first, Fails-mono}
use cheshire_fork.Clint.Pace.{IsPaced}
use cheshire_fork.Clint.Straps.{IsStrapped, IsMeasurable, measure_lem}
use cheshire_fork.SdCard.Startup.{IsController}
use cheshire_fork.SdCard.Absent.{IsEmptySlot, init-absent}
use cheshire_fork.BootRom.{Board, sdcard_device, boot_spi_sdcard, boot, main}

module _ {D C : Type 0} (b : Board D C) {Keep : D → Type 0} {cycles : D → ℕ} {span step rtc : ℕ}
    {Up On Silent Started Off Ready : D → Type 0}
    (pace : IsPaced b.bus b.map.clint b.mcycle Keep cycles span step)
    (straps : IsStrapped b.bus b.map Keep cycles span step 1 rtc)
    (controller : IsController b.spi Up On Silent Started Off Ready)
    (slot : IsEmptySlot b.spi (sdcard_device b) Silent) where
  -- The boot ROM in mode 1, from its reads of the straps, without a card: if the frequency can be
  -- measured, the SPI host takes its configuration and has a chip select, the line stays high, and
  -- the core runs at 24 MHz or more beyond the error of the measurement, then `main` returns the
  -- code of a timed-out command, whatever the next stage is, and memory is as it was.
  pub main-no_card :
      (m : Machine D)
      → Keep m.dev
      → IsMeasurable rtc span step (cycles m.dev) b.fuel
      → 24000000 + 6 * step * 2500 + 1 ≤ span * rtc
      → 0 < b.spi.num_cs
      → Fails 0x12 (λ m'. m'.mem ≡ m.mem) (main b m)
  unfolding main boot boot_spi_sdcard sdcard_device
  main-no_card m keep can hertz selects =
      measure_lem pace straps (λ mode rtc f. boot b mode f rtc) (Fails 0x12 λ m'. m'.mem ≡ m.mem) m
        keep can
        λ f m1 near kept same. Fails-first _ (
          Fails-mono
            (init-absent slot b.undefined f b.fuel m1 controller (omega (arith, selects))
              (omega (arith, selects)) (omega arith) (omega arith) (omega (arith, near, hertz)))
            λ m' same'. same' ∙ same)
