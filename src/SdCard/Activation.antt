-- ===== src/SdCard/Activation.antt =====
-- `__spi_sdcard_activate` and `spi_sdcard_init` with a card that starts up.
use Prim.Native.Nat.{bit_and}
use cheshire_fork.Base.{
  ℕ, zero, suc, ◌+◌, ◌*◌, ◌/◌, ◌^◌, ◌≡◌, ◌≤◌, ◌<◌, ◌∙◌, ap, refl, arith, Bool, true, false, not,
  ◌&&◌, [], ◌∷◌, ◌==◌, ltb, leb, length, some,
}
use cheshire_fork.Base.Masks.{and_ones, bit_and_below}
use cheshire_fork.Machine.{Machine, check_assert, check_call}
use cheshire_fork.Machine.Returns
use cheshire_fork.Machine.Returns.{Returns, returns}
use cheshire_fork.SpiHost.{SpiHost, transact}
use cheshire_fork.SdCard.{Handle, r1, r3, r7, xfer_csaat}
use cheshire_fork.SdCard.Frame.{bytes_of}
use cheshire_fork.SdCard.Command.{Undefined, overlay, resp_mask, cmd_check}
use cheshire_fork.SdCard.Card.{Stream}
use cheshire_fork.SdCard.Init.{init_clock, config, op_cond_loop, activate, init_handle, init}
use cheshire_fork.SdCard.Startup.{
  Phase, cold, running, ready, starting, app, IsStartup, IsController,
}
use cheshire_fork.SdCard.Exchange.{cmd_lem, cmd_check_lem}

-- A one-byte response compares with what was expected.
r1_right :
    (u : Undefined) (x : ℕ)
    → x < 256
    → bit_and (overlay (x ∷ []) u.buf) (resp_mask u r1) ≡ bit_and x (resp_mask u r1)
unfolding overlay resp_mask
r1_right u x small = omega (arith, and_ones 8 (x + 256 * (u.buf / 256)), and_ones 8 x)

-- So does a five-byte one under a mask of at most 40 bits, whatever stood behind it.
r7_right :
    (u : Undefined)
    → u.wide_mask 40 < 2 ^ 40
    → bit_and (overlay (0x01 ∷ 0 ∷ 0 ∷ 0x01 ∷ 0xAA ∷ []) u.buf) (resp_mask u r7)
      ≡ bit_and 0xAA01000001 (resp_mask u r7)
unfolding overlay resp_mask
r7_right u narrow =
    let old = u.buf / 256 / 256 / 256 / 256 / 256 in
    let e : 0x01 + 256 * (0 + 256 * (0 + 256 * (0x01 + 256 * (0xAA + 256 * old))))
        ≡ old * 2 ^ 40 + 0xAA01000001 =
      omega arith in
    rw e (bit_and_below 40 0xAA01000001 old (u.wide_mask 40) narrow)

equal_right : (check : Bool) {a b : ℕ} → a ≡ b → (check && not (a == b)) ≡ false
equal_right check e = ground (arith, e)

module _ {D : Type 0} {host : SpiHost D} {h : Handle} {line : D → Stream}
    {State Open : Phase → D → Type 0} {rounds : ℕ} (start : IsStartup host h line State Open rounds)
    (u : Undefined) where
  -- One round of the start-up loop, up to the answer of ACMD41.
  app_lem :
      (k : ℕ) (m : Machine D)
      → State (starting k) m.dev
      → Returns
          (λ _ m'. State (app k) m'.dev × (m'.mem ≡ m.mem))
          (cmd_check host h u 0x650000000077 r1 false 0 m)
  unfolding bytes_of
  app_lem k m st =
      cmd_check_lem (start.app_cmd k) u 0x650000000077 r1 false 0 m st refl refl refl (λ xs e. e)
        (λ xs e. refl)

  op_cond_lem :
      (fuel k : ℕ) (m : Machine D)
      → k < fuel
      → State (starting k) m.dev
      → Returns (λ _ m'. State running m'.dev × (m'.mem ≡ m.mem)) (op_cond_loop host u h fuel m)
  unfolding op_cond_loop bytes_of
  op_cond_lem zero k m more st = absurd (omega (arith, more))
  op_cond_lem (suc fuel) zero m more st = Returns.bind (app_lem zero m st) λ _ m1 (st1, same1).
      Returns.bind
        (cmd_lem start.op_cond_done 0x770000004069 r1 m1 st1 refl refl refl (λ xs e. ap length e))
        λ got m2 (e, st2, same2). rw e (returns (st2, same2 ∙ same1))
  op_cond_lem (suc fuel) (suc k) m more st =
      Returns.bind (app_lem (suc k) m st) λ _ m1 (st1, same1).
        Returns.bind
          (cmd_lem (start.op_cond_idle k) 0x770000004069 r1 m1 st1 refl refl refl
            (λ xs e. ap length e))
          λ got m2 (e, st2, same2). rw e (
            Returns.mono (op_cond_lem fuel k m2 (omega (arith, more)) st2)
              λ _ m3 (st3, same3). (st3, same3 ∙ same2 ∙ same1))

  activate_lem :
      (fuel : ℕ) (m : Machine D)
      → u.wide_mask 40 < 2 ^ 40
      → rounds < fuel
      → State cold m.dev
      → Returns (λ _ m'. State ready m'.dev × (m'.mem ≡ m.mem)) (activate host u h fuel m)
  unfolding activate bytes_of xfer_csaat transact check_assert check_call
  activate_lem fuel m narrow more st =
      let (code, st0) = start.wakes m.dev st in
      rw code (
        Returns.bind
          (cmd_check_lem start.go_idle u 0x950000000040 r1 true 0x01 _ st0 refl refl refl
            (λ xs e. ap length e) (λ xs e. rw e (equal_right true (r1_right u 0x01 (omega arith)))))
          λ _ m1 (st1, same1).
            Returns.bind
              (cmd_check_lem start.send_if_cond u 0x87AA01000048 r7 true 0xAA01000001 m1 st1 refl
                refl refl (λ xs e. ap length e)
                (λ xs e. rw e (equal_right true (r7_right u narrow))))
              λ _ m2 (st2, same2).
                Returns.bind (op_cond_lem fuel rounds m2 more st2) λ _ m3 (st3, same3).
                  Returns.bind
                    (cmd_check_lem start.read_ocr u 0xFD000000007A r3 false 0 m3 st3 refl refl refl
                      (λ xs e. e) (λ xs e. refl))
                    λ _ m4 (st4, same4).
                      Returns.mono
                        (cmd_check_lem start.set_block_len u 0x150002000050 r1 true 0x00 m4 st4 refl
                          refl refl (λ xs e. ap length e)
                          (λ xs e. rw e (equal_right true (r1_right u 0x00 (omega arith)))))
                        λ _ m5 (st5, same5). (st5, same5 ∙ same4 ∙ same3 ∙ same2 ∙ same1))

  -- `spi_sdcard_init` with valid arguments, an SPI host that takes its configuration, and a card
  -- that starts up: it returns 0 after `rounds` repetitions of the start-up commands, with the host
  -- and the card ready and memory as it was. The mask for five-byte responses, which C leaves open,
  -- has at most 40 bits.
  pub init-ready :
      {Up On Off Ready : D → Type 0} (core_freq fuel : ℕ) (m : Machine D)
      → IsController host Up On (State cold) (State ready) Off Ready
      → h.csid < host.num_cs
      → h.csid_dummy < host.num_cs
      → 0 < h.spi_freq
      → h.spi_freq ≤ 25000000
      → h.spi_freq ≤ core_freq
      → u.wide_mask 40 < 2 ^ 40
      → rounds < fuel
      → Returns (λ _ m'. Ready m'.dev × (m'.mem ≡ m.mem)) (init host u (some h) core_freq fuel m)
  unfolding init init_handle check_assert check_call
  init-ready core_freq fuel m c csid csid_dummy some_freq slow fits narrow more =
      let t1 : ltb h.csid host.num_cs ≡ true = ground (arith, csid) in
      let t2 : ltb h.csid_dummy host.num_cs ≡ true = ground (arith, csid_dummy) in
      let t3 : (h.spi_freq == 0) ≡ false = ground (arith, some_freq) in
      let t4 : leb h.spi_freq 25000000 ≡ true = ground (arith, slow) in
      let t5 : leb h.spi_freq core_freq ≡ true = ground (arith, fits) in
      let (e1, up1) = c.inits m.dev in
      let (e2, up2) = c.configures (config host u core_freq init_clock) h.csid _ (c.resets _ up1) in
      let (e3, up3) = c.configures (config host u core_freq init_clock) h.csid_dummy _ up2 in
      let (e4, up4) = c.outputs _ (c.enables _ up3) in
      rw (t1, t2, t3, t4, t5, e1, e2, e3, e4)
        (Returns.bind (activate_lem fuel _ narrow more up4) λ _ m1 (st1, same1).
          let (e5, off5) = c.disables m1.dev st1 in
          let (e6, off6) = c.reconfigures (config host u core_freq h.spi_freq) h.csid _ off5 in
          let (e7, off7) =
            c.reconfigures (config host u core_freq h.spi_freq) h.csid_dummy _ off6 in
          let (e8, ok) = c.reenables _ off7 in rw (e5, e6, e7, e8) (returns (ok, same1)))
