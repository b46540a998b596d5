-- ===== src/BootRom/FlashBoot.antt =====
-- The boot mode `boot_spi_s25fs512s` as a whole, from reset of the SPI host to the next stage.
use cheshire_fork.Base.{
  ℕ, ◌+◌, ◌*◌, ◌/◌, ◌^◌, ◌≤◌, ◌<◌, ◌≡◌, refl, arith, true, false, some, none, ltb, leb, ◌==◌, u64,
}
use cheshire_fork.Machine.{Machine, check_assert, check_call}
use cheshire_fork.Machine.Bytes.{Mem}
use cheshire_fork.Machine.Returns
use cheshire_fork.Machine.Returns.{Returns, returns}
use cheshire_fork.SpiHost.{SpiHost, Config}
use cheshire_fork.Clint.Time.{IsClock}
use cheshire_fork.Clint.Waiting.{IsTicking, spin_within_lem}
use cheshire_fork.Gpt.{PartFields}
use cheshire_fork.Gpt.Table.{first_byte, byte_count, IsOnDisk, IsFrame}
use cheshire_fork.Gpt.Boot.{IsBootRange}
use cheshire_fork.Gpt.Handover.{IsHandover, boot_part_else_raw-next_stage}
use cheshire_fork.Flash
use cheshire_fork.Flash.{init_handle}
use cheshire_fork.Flash.Reading.{IsFlash, single_read-Reads}
use cheshire_fork.BootRom.{
  Board, boot_disk, flash_device, boot_spi_s25fs512s, boot_spm_max_lbas, boot_zsl_type_guid,
}

-- The fastest clock up to 40 MHz that divides the core's by four or more.
abbrev pub IsFastest : (core_freq clock : ℕ) → Type 0
IsFastest core_freq clock =
    (clock ≤ 40000000)
    × (4 * clock ≤ core_freq)
    × ((other : ℕ) → other ≤ 40000000 → 4 * other ≤ core_freq → other ≤ clock)

-- An SPI host that starts up: after its initialisation it is `Up`, after a configuration of chip
-- select 1 for the fastest clock `Set`, and with its outputs enabled it is `Warm`.
pub record Starts {D : Type 0} (host : SpiHost D) (Up Set Warm : D → Type 0) : Type 0 where
  pub two_devices : 1 < host.num_cs
  pub inits : (d : D) → (let r = host.init d in (r.0 ≡ 0) × Up r.1)
  pub resets : (d : D) → Up d → Up (host.reset d)
  pub configures :
      (c : Config) (d : D)
      → IsFastest c.peripheral_clock_freq_hz c.spi_clock
      → Up d
      → (let r = host.configure_cs c 1 d in (r.0 ≡ 0) × Set r.1)
  pub enables : (d : D) → Set d → Set (host.enable true d)
  pub outputs : (d : D) → Set d → (let r = host.output_set_enabled true d in (r.0 ≡ 0) × Warm r.1)

init_lem :
    {D : Type 0} {host : SpiHost D} {Up Set Warm : D → Type 0}
    → Starts host Up Set Warm
    → (h : Flash.Handle) (core_freq : ℕ) (m : Machine D) → h.csid ≡ 1
    → 0 < h.spi_freq
    → h.spi_freq ≤ core_freq
    → IsFastest core_freq h.spi_freq
    → Returns (λ _ m'. Warm m'.dev) (Flash.init host (some h) core_freq m)
unfolding Flash.init init_handle check_assert check_call
init_lem {host = host} starts h core_freq m csid some_freq fits fastest =
    let known : ltb h.csid host.num_cs ≡ true = ground (arith, csid, starts.two_devices) in
    let nonzero : (h.spi_freq == 0) ≡ false = ground (arith, some_freq) in
    let slower : leb h.spi_freq core_freq ≡ true = ground (arith, fits) in
    let (e1, up) = starts.inits m.dev in
    let (e2, set) = starts.configures config _ fastest (starts.resets _ up) in
    let (e3, warm) = starts.outputs _ (starts.enables _ set) in
    rw (known, nonzero, slower, e1, csid, e2, e3) (returns warm)
  where
    config : Config
    config = record {
      chip_select = (0xF, 0xF, 0xF);
      cpha = 0;
      cpol = 0;
      full_cycle = false;
      peripheral_clock_freq_hz = core_freq;
      spi_clock = h.spi_freq;
    }

module _ {D C : Type 0} (b : Board D C) {Up Set Warm Ready : D → Type 0} {Free : ℕ → ℕ → Type 0}
    {disk : Mem} {size : ℕ} {time lag : D → ℕ} {period : ℕ} (starts : Starts b.spi Up Set Warm)
    (flash : IsFlash b.spi 1 Ready disk size) (clock : IsClock b.bus b.map.clint time)
    (ticking : IsTicking b.bus b.map.clint time lag period)
    (keeps : (a : ℕ) (d : D) → Warm d → Warm (b.bus.read32 a d).1) (ok : IsFrame Free b.frame)
    (on : IsOnDisk disk size) where
  -- The boot from the NOR flash: from any state of the devices, if the SPI host starts up, the
  -- flash holds `disk` and is ready once 350 us have gone by since the clock's start, the clock
  -- goes on and its frequency has 32 bits, and the core runs at 4 Hz or more, the next stage is
  -- entered at the scratchpad with the boot range of the disk loaded and the scratch registers
  -- written. The fuel has `period` readings for each tick that is waited for and for each of 2 ^ 32
  -- carries of the clock.
  pub boot_spi_s25fs512s-next_stage :
      (core_freq rtc_freq : ℕ) (Q : Unit {0} → Machine D → Type 0) (m : Machine D)
      → 4 ≤ core_freq
      → rtc_freq < 2 ^ 32
      → ((d : D) → Warm d → 350 * rtc_freq ≤ 1000000 * time d → Ready d)
      → (u64 (350 * rtc_freq) / 1000000 + 1 + 2 ^ 32 + 1) * period ≤ b.fuel
      → ((range : PartFields)
          → IsBootRange disk boot_spm_max_lbas (some boot_zsl_type_guid) none range
          → (first_byte range + byte_count range ≤ size)
            × (b.map.spm + byte_count range ≤ 2 ^ 64)
            × Free b.map.spm (byte_count range))
      → ((m' : Machine D)
          → IsHandover Ready disk b.bus b.map b.flash_read_at b.device b.gp b.map.spm
              boot_spm_max_lbas
              (some boot_zsl_type_guid)
              none
              m'
          → Returns Q (b.next_stage b.map.spm m'))
      → Returns Q (boot_spi_s25fs512s b core_freq rtc_freq m)
  unfolding boot_spi_s25fs512s boot_disk flash_device
  boot_spi_s25fs512s-next_stage core_freq rtc_freq Q m hertz narrow settles enough room enter =
      let h : Flash.Handle = flash_device b core_freq in
      Returns.bind
        (init_lem starts h core_freq m refl (ground (arith, hertz)) (ground arith) (ground arith))
        λ _ m1 warm1.
          Returns.bind
            (spin_within_lem clock ticking Warm b.fuel (u64 (350 * rtc_freq) / 1000000 + 1)
              (u64 (350 * rtc_freq) / 1000000 + 1) m1 keeps warm1 (omega arith) (omega arith)
              enough)
            λ _ m2 ((come, same), warm2).
              let ready2 = settles m2.dev warm2 (omega (arith, come, narrow)) in
              boot_part_else_raw-next_stage (single_read-Reads h flash Free (ground arith)) ok on
                b.bus b.map b.next_stage b.flash_read_at b.device b.gp b.map.spm boot_spm_max_lbas
                (some boot_zsl_type_guid) none Q m2 ready2 room enter
