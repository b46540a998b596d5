-- ===== src/BootRom/EepromBoot.antt =====
-- The boot mode `boot_i2c_24fc1025` as a whole, and a read that sw/lib/gpt.c makes in it.

use cheshire_fork.Base.{
  ℕ, ◌+◌, ◌*◌, ◌/◌, ◌%◌, ◌^◌, ◌≤◌, ◌<◌, ◌≡◌, ◌∙◌, refl, arith, true, false, some, none, ◌==◌,
}
use cheshire_fork.Machine.{Machine, check_assert, check_call}
use cheshire_fork.Machine.Bytes.{Mem, load64}
use cheshire_fork.Machine.Returns
use cheshire_fork.Machine.Returns.{Returns, returns}
use cheshire_fork.Reader.{Reader}
use cheshire_fork.Clint.Time.{IsClock}
use cheshire_fork.Clint.Waiting.{IsTicking, spin_ticks_lem}
use cheshire_fork.Clint.{spin_ticks}
use cheshire_fork.Gpt.{Frame, signature, read_header}
use cheshire_fork.Gpt.Handover.{IsHandover}
use cheshire_fork.Gpt.Unsigned.{ReadsAligned, boot_part_else_raw_lem}
use cheshire_fork.Eeprom.{I2cHost, Timing, i2c_init, eeprom_read}
use cheshire_fork.Eeprom.Device.{wrapped, Phase, draining, empty, IsEeprom}
use cheshire_fork.Eeprom.Reading.{covered, eeprom_read-IsCopied}
use cheshire_fork.BootRom.{
  Board, boot_disk, boot_i2c_24fc1025, boot_spm_max_lbas, boot_zsl_type_guid,
}

-- An I2C host that starts up: after its initialisation it is `Up`, with its configuration `Set`,
-- and enabled it is `Ready`. Timings need a clock period.
pub record Starts {D C : Type 0} (i2c : I2cHost D C) (Up Set Ready : D → Type 0) : Type 0 where
  pub inits : (d : D) → (let r = i2c.init d in (r.0 ≡ 0) × Up r.1)
  pub disables : (d : D) → Up d → (let r = i2c.host_set_enabled false d in (r.0 ≡ 0) × Up r.1)
  pub clears_acq : (d : D) → Up d → (let r = i2c.reset_acq_fifo d in (r.0 ≡ 0) × Up r.1)
  pub clears_fmt : (d : D) → Up d → (let r = i2c.reset_fmt_fifo d in (r.0 ≡ 0) × Up r.1)
  pub clears_rx : (d : D) → Up d → (let r = i2c.reset_rx_fifo d in (r.0 ≡ 0) × Up r.1)
  pub clears_tx : (d : D) → Up d → (let r = i2c.reset_tx_fifo d in (r.0 ≡ 0) × Up r.1)
  pub times : (t : Timing) → 0 < t.clock_period_nanos → (i2c.compute_timing t).0 ≡ 0
  pub configures : (c : C) (d : D) → Up d → (let r = i2c.configure c d in (r.0 ≡ 0) × Set r.1)
  pub enables : (d : D) → Set d → (let r = i2c.host_set_enabled true d in (r.0 ≡ 0) × Ready r.1)

i2c_init_lem :
    {D C : Type 0} {i2c : I2cHost D C} {Up Set Ready : D → Type 0}
    → Starts i2c Up Set Ready
    → (core_freq : ℕ) (m : Machine D) → 0 < core_freq
    → core_freq ≤ 1000000000
    → Returns (λ _ m'. Ready m'.dev × (m'.mem ≡ m.mem)) (i2c_init i2c core_freq m)
unfolding i2c_init check_assert check_call
i2c_init_lem {i2c = i2c} starts core_freq m some_freq slow =
    let nonzero : (core_freq == 0) ≡ false = ground (arith, some_freq) in
    let (e1, up1) = starts.inits m.dev in
    let (e2, up2) = starts.disables _ up1 in
    let (e3, up3) = starts.clears_acq _ up2 in
    let (e4, up4) = starts.clears_fmt _ up3 in
    let (e5, up5) = starts.clears_rx _ up4 in
    let (e6, up6) = starts.clears_tx _ up5 in
    let e7 = starts.times timing (grind (arith, some_freq, slow)) in
    let (e8, set) = starts.configures (i2c.compute_timing timing).1 _ up6 in
    let (e9, ready) = starts.enables _ set in
    rw (nonzero, e1, e2, e3, e4, e5, e6, e7, e8, e9) (returns (ready, refl))
  where
    timing : Timing
    timing = record {
      clock_period_nanos = 1000000000 / core_freq;
      is_fast = true;
      scl_period_nanos = 2500;
      sda_fall_nanos = 300;
      sda_rise_nanos = 100;
    }

module _ {D C : Type 0} (b : Board D C) {State : Phase → D → Type 0} {memory : Mem}
    {drain arrive : ℕ} {time lag : D → ℕ} {period : ℕ}
    (rom : IsEeprom b.i2c State memory drain arrive) (clock : IsClock b.bus b.map.clint time)
    (ticking : IsTicking b.bus b.map.clint time lag period)
    (keeps : (a : ℕ) (d : D) → State empty d → State empty (b.bus.read32 a d).1)
    (clock_fuel : (1 + 2 ^ 32 + 1) * period ≤ b.fuel) (patient : drain < b.fuel)
    (patient_read : arrive < b.fuel) where
  abbrev eeprom_reader : Reader D
  eeprom_reader = eeprom_read b.i2c (spin_ticks b.bus b.map.clint b.fuel 1) b.fuel

  eeprom_reader-ReadsAligned : ReadsAligned (State (draining drain)) (wrapped memory) eeprom_reader
  unfolding covered
  eeprom_reader-ReadsAligned = record {
    reads = λ buf addr len m aligned fits st.
        let on : (addr % 64 == 0) ≡ true = ground (arith, aligned) in
        Returns.mono
          (eeprom_read-IsCopied rom
            (λ m st. spin_ticks_lem clock ticking (State empty) b.fuel 1 m keeps st clock_fuel)
            patient patient_read buf addr len m fits st)
          λ _ m' (st', copied). (st', λ q. copied q ∙ rw on refl);
  }

  -- The boot from the I2C EEPROM, from any state of the devices: if the I2C host starts up, the
  -- EEPROM holds `memory` without a GPT signature, the clock goes on, and the core runs at 1 GHz at
  -- most, the next stage is entered at the scratchpad with the first 96 blocks of the EEPROM loaded
  -- and the scratch registers written. The fuel exceeds the looks that the host needs, and has
  -- `period` readings for each of 2 ^ 32 carries of the clock.
  pub boot_i2c_24fc1025-next_stage :
      {Up Set : D → Type 0} (core_freq : ℕ) (Q : Unit {0} → Machine D → Type 0) (m : Machine D)
      → Starts b.i2c Up Set (State (draining drain))
      → 0 < core_freq
      → core_freq ≤ 1000000000
      → (load64 (wrapped memory) 0x200 == signature) ≡ false
      → ((m' : Machine D)
          → IsHandover
              (State (draining drain))
              (wrapped memory)
              b.bus
              b.map
              b.eeprom_read_at
              b.device
              b.gp
              b.map.spm
              boot_spm_max_lbas
              (some boot_zsl_type_guid)
              none
              m'
          → Returns Q (b.next_stage b.map.spm m'))
      → Returns Q (boot_i2c_24fc1025 b core_freq m)
  unfolding boot_i2c_24fc1025 boot_disk
  boot_i2c_24fc1025-next_stage core_freq Q m starts some_freq slow unsigned enter =
      Returns.bind (i2c_init_lem starts core_freq m some_freq slow) λ _ m1 (ready1, same).
        boot_part_else_raw_lem eeprom_reader-ReadsAligned b.frame unsigned b.bus b.map b.next_stage
          b.eeprom_read_at b.device b.gp b.map.spm boot_spm_max_lbas (some boot_zsl_type_guid) none
          Q m1 ready1 enter

  -- The read of the partition table's header from the EEPROM, under the same conditions on EEPROM,
  -- clock and fuel, returns, and overwrites the 40 bytes of memory behind the 16 bytes of the local
  -- variable with what follows on the EEPROM.
  pub read_header-overrun :
      (fr : Frame) (m : Machine D)
      → State (draining drain) m.dev
      → Returns
          (λ _ m'. (i : ℕ) → 16 ≤ i → i < 56 → m'.mem (fr.hf + i) ≡ wrapped memory (0x248 + i))
          (read_header eeprom_reader fr m)
  unfolding read_header covered
  read_header-overrun fr m st =
      Returns.bind
        (eeprom_read-IsCopied rom
          (λ m st. spin_ticks_lem clock ticking (State empty) b.fuel 1 m keeps st clock_fuel)
          patient patient_read fr.hf 0x248 16 m (omega arith) st)
        λ _ m1 (st1, copied). returns λ i from to. ground (arith, copied (fr.hf + i))
