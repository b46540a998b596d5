-- ===== src/SdCard/Absent.antt =====
-- `spi_sdcard_init` of sw/lib/hal/spi_sdcard.c with no card in the slot.
use cheshire_fork.Base.{
  ℕ, ◌≡◌, ◌≤◌, ◌<◌, refl, arith, true, false, List, [], ◌∷◌, ◌==◌, ltb, leb, some,
}
use cheshire_fork.Machine.{Machine, check_assert, check_call}
use cheshire_fork.Machine.Returns.{Fails, Fails-first, Fails-mono}
use cheshire_fork.SpiHost.{SpiHost, tx, dummy, transact}
use cheshire_fork.SdCard.{Handle, r1, xfer_csaat}
use cheshire_fork.SdCard.Frame.{bytes_of}
use cheshire_fork.SdCard.Command.{Undefined, no_response, cmd_check}
use cheshire_fork.SdCard.Init.{init_clock, config, activate, init_handle, init}
use cheshire_fork.SdCard.Card.{IsLine}
use cheshire_fork.SdCard.Late.{cmd-late}
use cheshire_fork.SdCard.Startup.{IsController}

-- A slot without a card: transmissions go nowhere, and the line stays high.
pub record IsEmptySlot {D : Type 0} (host : SpiHost D) (h : Handle) (Silent : D → Type 0)
    : Type 0 where
  pub waits :
      (d : D)
      → Silent d
      → (let r = host.transaction true h.csid (dummy 80 ∷ []) d in (r.code ≡ 0) × Silent r.after)
  pub sends :
      (bytes : List ℕ) (d : D)
      → Silent d
      → (let r = host.transaction true h.csid (tx bytes ∷ []) d in (r.code ≡ 0) × Silent r.after)
  pub high : IsLine host h Silent (λ d i. 0xFF)

module _ {D : Type 0} {host : SpiHost D} {h : Handle} {Silent : D → Type 0}
    (slot : IsEmptySlot host h Silent) where
  -- The reset command times out.
  reset_lem :
      (u : Undefined) (m : Machine D)
      → Silent m.dev
      → Fails 0x12 (λ m'. m'.mem ≡ m.mem) (cmd_check host h u 0x950000000040 r1 true 0x01 m)
  unfolding cmd_check no_response
  reset_lem u m silent =
      let (code, silent1) = slot.sends (bytes_of 6 0x950000000040) m.dev silent in
      Fails-first _ (
        Fails-mono
          (cmd-late slot.high 0x950000000040 r1 false m refl (code, silent1, λ i below. refl))
          λ m' (silent2, same). same)

  activate-absent :
      (u : Undefined) (fuel : ℕ) (m : Machine D)
      → Silent m.dev
      → Fails 0x12 (λ m'. m'.mem ≡ m.mem) (activate host u h fuel m)
  unfolding activate xfer_csaat transact check_assert check_call
  activate-absent u fuel m silent =
      let (code, silent1) = slot.waits m.dev silent in
      rw code (Fails-first _ (reset_lem u _ silent1))

  -- `spi_sdcard_init` with valid arguments and an SPI host that takes its configuration, without a
  -- card: it returns the code of a timeout, whatever the fuel, with memory as it was.
  pub init-absent :
      {Up On Started Off Ready : D → Type 0} (u : Undefined) (core_freq fuel : ℕ) (m : Machine D)
      → IsController host Up On Silent Started Off Ready
      → h.csid < host.num_cs
      → h.csid_dummy < host.num_cs
      → 0 < h.spi_freq
      → h.spi_freq ≤ 25000000
      → h.spi_freq ≤ core_freq
      → Fails 0x12 (λ m'. m'.mem ≡ m.mem) (init host u (some h) core_freq fuel m)
  unfolding init init_handle check_assert check_call
  init-absent u core_freq fuel m c csid csid_dummy some_freq slow fits =
      let t1 : ltb h.csid host.num_cs ≡ true = ground (arith, csid) in
      let t2 : ltb h.csid_dummy host.num_cs ≡ true = ground (arith, csid_dummy) in
      let t3 : (h.spi_freq == 0) ≡ false = ground (arith, some_freq) in
      let t4 : leb h.spi_freq 25000000 ≡ true = ground (arith, slow) in
      let t5 : leb h.spi_freq core_freq ≡ true = ground (arith, fits) in
      let (e1, up1) = c.inits m.dev in
      let (e2, up2) = c.configures (config host u core_freq init_clock) h.csid _ (c.resets _ up1) in
      let (e3, up3) = c.configures (config host u core_freq init_clock) h.csid_dummy _ up2 in
      let (e4, silent) = c.outputs _ (c.enables _ up3) in
      rw (t1, t2, t3, t4, t5, e1, e2, e3, e4) (Fails-first _ (activate-absent u fuel _ silent))
