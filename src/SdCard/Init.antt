-- ===== src/SdCard/Init.antt =====
-- `__spi_sdcard_activate` and `spi_sdcard_init`.
use cheshire_fork.Base.{
  ℕ, zero, suc, ◌*◌, true, false, not, Option, none, some, ltb, leb, ◌==◌, if◌then◌else◌, get_or,
}
use cheshire_fork.Machine.{Cmd, diverge, ◌>>=◌, ◌>>◌, pure, check_assert}
use cheshire_fork.SpiHost.{SpiHost, Config, checked, ignored}
use cheshire_fork.SdCard.{Handle, r1, r3, r7, xfer_csaat}
use cheshire_fork.SdCard.Command.{Undefined, cmd, cmd_check}

abbrev pub init_clock : ℕ
init_clock = 200000

module _ {D : Type 0} (host : SpiHost D) (u : Undefined) where
  -- The loop `do { CMD55; ACMD41 } while (ret)`, on fuel: the card may stay in its idle state for
  -- ever, and the source waits for ever.
  unfoldable pub op_cond_loop : Handle → ℕ → Cmd D (Unit {0})
  op_cond_loop h zero = diverge
  op_cond_loop h (suc n) = do
    cmd_check host h u 0x650000000077 r1 false 0
    got ← cmd host h 0x770000004069 r1 false
    let rest = op_cond_loop h n
    if get_or got 0 1 == 0 then pure tt else rest

  -- `__spi_sdcard_activate`.
  unfoldable pub activate : Handle → ℕ → Cmd D (Unit {0})
  unfolding op_cond_loop
  activate h fuel = do
    xfer_csaat host h false none 10
    cmd_check host h u 0x950000000040 r1 true 0x01
    cmd_check host h u 0x87AA01000048 r7 true 0xAA01000001
    op_cond_loop h fuel
    cmd_check host h u 0xFD000000007A r3 false 0
    cmd_check host h u 0x150002000050 r1 true 0x00

  abbrev pub config : ℕ → ℕ → Config
  config core_freq clock = record {
    chip_select = (0, 0, 0);
    cpha = 0;
    cpol = 0;
    full_cycle = false;
    peripheral_clock_freq_hz = core_freq;
    spi_clock = clock;
  }

  -- The body of `spi_sdcard_init`, once the handle is known not to be null.
  unfoldable pub init_handle : Handle → ℕ → ℕ → Cmd D (Unit {0})
  unfolding activate
  init_handle h core_freq fuel = do
    check_assert 0x15 (ltb h.csid host.num_cs)
    check_assert 0x15 (ltb h.csid_dummy host.num_cs)
    check_assert 0x16 (not (h.spi_freq == 0))
    check_assert 0x17 (leb h.spi_freq (25 * 1000 * 1000))
    check_assert 0x18 (leb h.spi_freq core_freq)
    checked host.init
    ignored host.reset
    checked (host.configure_cs (config core_freq init_clock) h.csid)
    checked (host.configure_cs (config core_freq init_clock) h.csid_dummy)
    ignored (host.enable true)
    checked (host.output_set_enabled true)
    activate h fuel
    checked (host.output_set_enabled false)
    checked (host.configure_cs (config core_freq h.spi_freq) h.csid)
    checked (host.configure_cs (config core_freq h.spi_freq) h.csid_dummy)
    checked (host.output_set_enabled true)

  -- `spi_sdcard_init`; `none` is the null pointer.
  unfoldable pub init : Option Handle → ℕ → ℕ → Cmd D (Unit {0})
  unfolding init_handle
  init none core_freq fuel = check_assert 0x14 false
  init (some h) core_freq fuel = init_handle h core_freq fuel
