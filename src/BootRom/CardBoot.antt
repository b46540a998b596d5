-- ===== src/BootRom/CardBoot.antt =====
-- The boot mode `boot_spi_sdcard` as a whole, from power-up of the card to the next stage.
use cheshire_fork.Base.{ℕ, ◌+◌, ◌-◌, ◌*◌, ◌/◌, ◌^◌, ◌≤◌, ◌<◌, ◌≡◌, arith, false, some, none, u64}
use cheshire_fork.Machine.{Machine}
use cheshire_fork.Machine.Bytes.{Mem, in_range}
use cheshire_fork.Machine.Returns
use cheshire_fork.Machine.Returns.{Returns}
use cheshire_fork.Clint.Time.{IsClock}
use cheshire_fork.Clint.Waiting.{IsTicking, spin_within_lem}
use cheshire_fork.Gpt.{PartFields}
use cheshire_fork.Gpt.Table.{first_byte, byte_count, IsOnDisk, IsFrame}
use cheshire_fork.Gpt.Boot.{IsBootRange}
use cheshire_fork.Gpt.Handover.{IsHandover, boot_part_else_raw-next_stage}
use cheshire_fork.SpiHost.{SpiHost}
use cheshire_fork.SdCard.{Handle}
use cheshire_fork.SdCard.Card.{Stream, IsCard}
use cheshire_fork.SdCard.Reading.{read_checkcrc-Reads}
use cheshire_fork.SdCard.Startup.{Phase, cold, ready, IsStartup, IsController}
use cheshire_fork.SdCard.Activation.{init-ready}
use cheshire_fork.BootRom.{
  Board, boot_disk, sdcard_device, boot_spi_sdcard, boot_spm_max_lbas, boot_zsl_type_guid,
}

-- The slot's wiring: the card is at chip select 0, and the last chip select is not connected.
abbrev pub card_slot : {D : Type 0} → SpiHost D → Handle
card_slot host = record { spi_freq = 24000000; csid = 0; csid_dummy = host.num_cs - 1 }

module _ {D C : Type 0} (b : Board D C) {line : D → Stream} {State Starting : Phase → D → Type 0}
    {rounds : ℕ} {Up On Off Warm Ready Open : D → Type 0} {Free : ℕ → ℕ → Type 0} {disk : Mem}
    {size : ℕ} {time lag : D → ℕ} {period : ℕ}
    (controller : IsController b.spi Up On (State cold) (State ready) Off Warm)
    (start : IsStartup b.spi (card_slot b.spi) line State Starting rounds)
    (card : IsCard b.spi (card_slot b.spi) Ready Open line disk size)
    (clock : IsClock b.bus b.map.clint time) (ticking : IsTicking b.bus b.map.clint time lag period)
    (keeps : (a : ℕ) (d : D) → Warm d → Warm (b.bus.read32 a d).1) (ok : IsFrame Free b.frame)
    (on : IsOnDisk disk size)
    (roomy : (buf len : ℕ)
      → Free buf len
      → (512 ≤ buf) × ((i : ℕ) → i < len → in_range b.swap 512 (buf + i) ≡ false)) where
  -- The boot from an SD card: from any state of the devices, if the SPI host takes its
  -- configuration, the card starts up within the fuel, is ready once 1 ms has gone by since the
  -- clock's start and holds `disk`, and the clock goes on and its frequency has 32 bits, the next
  -- stage is entered at the scratchpad with the boot range of the disk loaded and the scratch
  -- registers written. The core runs at 24 MHz or more, the host has a chip select, and the mask
  -- for five-byte responses, which C leaves open, has at most 40 bits. The fuel has `period`
  -- readings for each tick that is waited for and for each of 2 ^ 32 carries of the clock.
  pub boot_spi_sdcard-next_stage :
      (core_freq rtc_freq : ℕ) (Q : Unit {0} → Machine D → Type 0) (m : Machine D)
      → 24000000 ≤ core_freq
      → rtc_freq < 2 ^ 32
      → ((d : D) → Warm d → 1000 * rtc_freq ≤ 1000000 * time d → Ready d)
      → 0 < b.spi.num_cs
      → b.undefined.wide_mask 40 < 2 ^ 40
      → rounds < b.fuel
      → (u64 (1000 * rtc_freq) / 1000000 + 1 + 2 ^ 32 + 1) * period ≤ b.fuel
      → ((range : PartFields)
          → IsBootRange disk boot_spm_max_lbas (some boot_zsl_type_guid) none range
          → (first_byte range + byte_count range ≤ size)
            × (b.map.spm + byte_count range ≤ 2 ^ 64)
            × Free b.map.spm (byte_count range))
      → ((m' : Machine D)
          → IsHandover Ready disk b.bus b.map b.sdcard_read_at b.device b.gp b.map.spm
              boot_spm_max_lbas
              (some boot_zsl_type_guid)
              none
              m'
          → Returns Q (b.next_stage b.map.spm m'))
      → Returns Q (boot_spi_sdcard b core_freq rtc_freq m)
  unfolding boot_spi_sdcard boot_disk sdcard_device
  boot_spi_sdcard-next_stage core_freq rtc_freq Q m hertz low settles selects narrow rounded enough
        room enter =
      Returns.bind
        (init-ready start b.undefined core_freq b.fuel m controller selects (omega (arith, selects))
          (omega arith) (omega arith) hertz narrow rounded)
        λ _ m1 (warm1, same1).
          Returns.bind
            (spin_within_lem clock ticking Warm b.fuel (u64 (1000 * rtc_freq) / 1000000 + 1)
              (u64 (1000 * rtc_freq) / 1000000 + 1) m1 keeps warm1 (omega arith) (omega arith)
              enough)
            λ _ m2 ((come, same2), warm2).
              let ready2 = settles m2.dev warm2 (omega (arith, come, low)) in
              boot_part_else_raw-next_stage
                ((read_checkcrc-Reads card b.undefined Free b.swap roomy).0) ok on b.bus b.map
                b.next_stage b.sdcard_read_at b.device b.gp b.map.spm boot_spm_max_lbas
                (some boot_zsl_type_guid) none Q m2 ready2 room enter
