-- ===== src/Flash.antt =====
-- sw/lib/hal/spi_s25fs512s.c: the S25FS512S NOR flash on the SPI host.
pub mod Reading
pub mod Writing
pub mod Latch
use Prim.Native.Nat.{bit_and}
use cheshire_fork.Base.{
  ℕ, zero, suc, ◌+◌, ◌-◌, ◌*◌, ◌/◌, ◌%◌, ◌^◌, Bool, true, false, not, Option, none, some, List, [],
  ◌∷◌, ltb, leb, ◌==◌, if◌then◌else◌, get_or, u32, u64, ◌<<<◌,
}
use cheshire_fork.Machine.{
  Machine, Cmd, diverge, ◌>>=◌, ◌>>◌, pure, check_call, check_assert, mem_of, set_mem,
}
use cheshire_fork.Machine.Bytes.{store_bytes}
use cheshire_fork.SpiHost.{SpiHost, Config, opcode, address, rx, transact, checked, ignored}

-- `spi_s25fs512s_t`; the state of the SPI host driver is with the devices.
pub record Handle : Type 0 where
  pub spi_freq : ℕ
  pub csid : ℕ

module _ {D : Type 0} (host : SpiHost D) where
  unfoldable pub init_handle : Handle → ℕ → Cmd D (Unit {0})
  init_handle h core_freq = do
    check_assert 0x12 (ltb h.csid host.num_cs)
    check_assert 0x13 (not (h.spi_freq == 0))
    check_assert 0x14 (leb h.spi_freq core_freq)
    checked host.init
    ignored host.reset
    checked (
        host.configure_cs
          (record {
            chip_select = (0xF, 0xF, 0xF);
            cpha = 0;
            cpol = 0;
            full_cycle = false;
            peripheral_clock_freq_hz = core_freq;
            spi_clock = h.spi_freq;
          })
          h.csid)
    ignored (host.enable true)
    checked (host.output_set_enabled true)

  -- `spi_s25fs512s_init`; `none` is the null pointer.
  unfoldable pub init : Option Handle → ℕ → Cmd D (Unit {0})
  unfolding init_handle
  init none core_freq = check_assert 0x11 false
  init (some h) core_freq = init_handle h core_freq

  module _ (h : Handle) where
    -- `__spi_s25fs512s_single_read_chunk`. The address field has 32 bits.
    unfoldable pub single_read_chunk : (buf addr len : ℕ) → Cmd D (Unit {0})
    single_read_chunk buf addr len = do
      bytes ← transact host false h.csid (opcode 0x13 ∷ address (u32 addr) ∷ rx len ∷ [])
      f ← mem_of
      set_mem (store_bytes buf bytes f)

    -- The loop of `spi_s25fs512s_single_read` at offset `offs`, on fuel.
    unfoldable pub read_loop : ℕ → (buf addr len offs : ℕ) → Cmd D (Unit {0})
    read_loop zero buf addr len offs = diverge
    read_loop (suc n) buf addr len offs =
        let step = 4 * host.rx_depth in
        let chunk_len = if leb step (len - offs) then step else len - offs in
        let more =
          single_read_chunk (buf + offs) (u64 (addr + offs)) chunk_len
          >> read_loop n buf addr len (offs + step) in
        if ltb offs len then more else pure tt

    -- `spi_s25fs512s_single_read`. `len + 1` rounds are enough for any depth above 0.
    unfoldable pub single_read : (buf addr len : ℕ) → Cmd D (Unit {0})
    unfolding read_loop
    single_read buf addr len = do
      check_assert 0x15 (ltb h.spi_freq (50 * 1000 * 1000))
      read_loop (len + 1) buf addr len 0

    -- `__spi_s25fs512s_poll_wip`, on fuel: the source polls for as long as the device is busy. The
    -- error bits are the return value.
    unfoldable pub poll_wip : ℕ → (status : ℕ) → Cmd D (Unit {0})
    poll_wip zero status = diverge
    poll_wip (suc n) status = do
      got ← transact host false h.csid (opcode 0x05 ∷ rx 1 ∷ [])
      let next = get_or got 0 status
      let again = poll_wip n next
      if bit_and next 1 == 0 then check_call (bit_and next 0b01100000) else again

    -- One round of the erase loop of `__spi_s25fs512s_single_flash_page`.
    unfoldable pub erase : (fuel page i : ℕ) → Cmd D (Unit {0})
    unfolding poll_wip
    erase fuel page i = do
      transact host false h.csid (opcode 0xDC ∷ address (u32 (u64 (page <<< 9) + (i <<< 8))) ∷ [])
      poll_wip fuel 0

    -- `__spi_s25fs512s_single_flash_page`. The third segment of the program transaction is a
    -- receive segment into the buffer, as in the source.
    unfoldable pub single_flash_page : (fuel buf page : ℕ) → Cmd D (Unit {0})
    unfolding erase
    single_flash_page fuel buf page = do
      erase fuel page 0
      erase fuel page 1
      bytes ← transact host false h.csid (opcode 0x12 ∷ address (u32 (page <<< 9)) ∷ rx 512 ∷ [])
      f ← mem_of
      set_mem (store_bytes buf bytes f)
      poll_wip fuel 0

    -- The loop of `spi_s25fs512s_single_flash` from page `p` on, `left` of them.
    unfoldable pub flash_loop : (fuel buf page left p : ℕ) → Cmd D (Unit {0})
    flash_loop fuel buf page zero p = pure tt
    flash_loop fuel buf page (suc left) p =
        single_flash_page fuel (buf + (p <<< 9)) (u64 (page + p))
        >> flash_loop fuel buf page left (p + 1)

    -- `spi_s25fs512s_single_flash`.
    unfoldable pub single_flash : (fuel buf page num_pages : ℕ) → Cmd D (Unit {0})
    unfolding single_flash_page flash_loop
    single_flash fuel buf page num_pages = do
      check_assert 0x16 (ltb h.spi_freq (100 * 1000 * 1000))
      transact host false h.csid (opcode 0x06 ∷ [])
      flash_loop fuel buf page num_pages 0
