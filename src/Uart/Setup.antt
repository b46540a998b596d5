-- ===== src/Uart/Setup.antt =====
-- `uart_init` of sw/lib/dif/uart.c against the registers of a 16550.
use mathlib.Core.Path.{subst}
use cheshire_fork.Base.{
  ℕ, ◌+◌, ◌*◌, ◌/◌, ◌%◌, ◌^◌, ◌≤◌, ◌<◌, ◌≡◌, ◌∙◌, ap, sym, refl, Bool-cases, inl, inr, arith, Bool,
  List, [], ◌∷◌, ◌++◌, ◌==◌, leb, if◌then◌else◌, u8, u64, ◌>>>◌, ◌<<<◌,
}
use cheshire_fork.Machine.{Machine}
use cheshire_fork.Machine.Returns.{Returns, returns}
use cheshire_fork.Mmio.{Bus, put8}
use cheshire_fork.Uart.{
  uart_init, intr_enable, fifo_control, line_control, modem_control, dlab_lsb, dlab_msb,
}

-- The registers that are written, the two halves of the divisor among them, and what was sent.
pub record Registers : Type 0 where
  pub interrupts : ℕ
  pub fifo : ℕ
  pub line : ℕ
  pub modem : ℕ
  pub divisor_low : ℕ
  pub divisor_high : ℕ
  pub sent : List ℕ

-- Bit 7 of the line control register moves the divisor to the first two offsets.
unfoldable pub divisor_shown : Registers → Bool
divisor_shown r = leb 0x80 (r.line % 2 ^ 8)

unfoldable pub register_write : (offset byte : ℕ) → Registers → Registers
unfolding divisor_shown
register_write offset byte r =
    if offset == 0
    then (if divisor_shown r
        then record r { divisor_low = byte }
        else record r { sent = r.sent ++ byte ∷ [] })
    else if offset == 4
    then (if divisor_shown r
        then record r { divisor_high = byte }
        else record r { interrupts = byte })
    else if offset == 8
    then record r { fifo = byte }
    else if offset == 12
    then record r { line = byte }
    else if offset == 16
    then record r { modem = byte }
    else r

pub record Is16550 {D : Type 0} (bus : Bus D) (base : ℕ) (registers : D → Registers) : Type 0 where
  pub writes :
      (offset byte : ℕ) (d : D)
      → registers (bus.write8 (base + offset) byte d) ≡ register_write offset byte (registers d)

-- The registers after a set-up for `baud` at a clock of `freq`: the divisor is the quotient, the
-- line has 8 bits without parity, the FIFO is on, and nothing has been sent.
pub record IsSetUp (freq baud : ℕ) (r r' : Registers) : Type 0 where
  pub not_faster : 16 * baud * (r'.divisor_low + 2 ^ 8 * r'.divisor_high) ≤ freq
  pub not_slower : freq < 16 * baud * (r'.divisor_low + 2 ^ 8 * r'.divisor_high + 1)
  pub line_set : r'.line ≡ 0x03
  pub fifo_set : r'.fifo ≡ 0xC7
  pub modem_set : r'.modem ≡ 0x20
  pub interrupts_set : r'.interrupts ≡ (if divisor_shown r then r.interrupts else 0)
  pub none_sent : r'.sent ≡ r.sent

-- A quotient of 16 bits, from its bytes.
quotient :
    (freq x : ℕ)
    → 0 < x
    → freq < 2 ^ 16 * x
    → (let q = freq / x in
        (q % 256 + 2 ^ 8 * (q / 256 % 256) ≡ q) × (x * q ≤ freq) × (freq < x * (q + 1)))
quotient freq x some small =
    let below : freq / x < 2 ^ 16 = grind (arith, some, small) in
    (omega (arith, below), grind (arith, some), grind (arith, some))

module _ {D : Type 0} {bus : Bus D} {base : ℕ} {registers : D → Registers}
    (uart : Is16550 bus base registers) where
  after :
      (offset byte : ℕ) {d : D} {r : Registers}
      → registers d ≡ r
      → registers (bus.write8 (base + offset) byte d) ≡ register_write offset byte r
  after offset byte {d} e = uart.writes offset byte d ∙ ap (register_write offset byte) e

  set_up_lem :
      (freq baud : ℕ) (r : Registers)
      → 0 < baud
      → baud < 2 ^ 60
      → freq < 2 ^ 20 * baud
      → (let divisor = freq / u64 (baud <<< 4) in
          IsSetUp freq baud r (
            register_write modem_control 0x20 (
              register_write fifo_control 0xC7 (
                register_write line_control 0x03 (
                  register_write dlab_msb (u8 (divisor >>> 8)) (
                    register_write dlab_lsb
                      (u8 divisor)
                      (register_write line_control 0x80 (register_write intr_enable 0x00 r))))))))
  unfolding register_write divisor_shown
  set_up_lem freq baud r some_baud small slow =
      let wide : u64 (baud <<< 4) ≡ 16 * baud = omega (arith, small) in
      let (whole, down, up) =
        quotient freq (16 * baud) (omega (arith, some_baud)) (omega (arith, slow)) in
      rw wide (elim (Bool-cases (leb 0x80 (r.line % 2 ^ 8))) [
        | inl on ↦ rw on (record {
          not_faster = rw whole down;
          not_slower = rw whole up;
          line_set = refl;
          fifo_set = refl;
          modem_set = refl;
          interrupts_set = rw on refl;
          none_sent = refl;
        })
        | inr off ↦ rw off (record {
          not_faster = rw whole down;
          not_slower = rw whole up;
          line_set = refl;
          fifo_set = refl;
          modem_set = refl;
          interrupts_set = rw off refl;
          none_sent = refl;
        })
      ])

  -- For a 16550 in any state, a baud rate above 0 and a clock below 2 ^ 20 times the rate, the
  -- initialisation returns with the registers set up: the divisor, put together from its two bytes,
  -- gives a rate of at least `baud`, and one more would give less. Nothing is sent meanwhile.
  -- Interrupts are switched off, unless the divisor is shown in place of their register from before.
  pub uart_init-IsSetUp :
      (freq baud : ℕ) (m : Machine D)
      → 0 < baud
      → baud < 2 ^ 60
      → freq < 2 ^ 20 * baud
      → Returns
          (λ _ m'. IsSetUp freq baud (registers m.dev) (registers m'.dev) × (m'.mem ≡ m.mem))
          (uart_init bus base freq baud m)
  unfolding uart_init put8
  uart_init-IsSetUp freq baud m some_baud small slow =
      let divisor = freq / u64 (baud <<< 4) in
      let e = after modem_control 0x20 (
        after fifo_control 0xC7 (
          after line_control 0x03 (
            after dlab_msb (u8 (divisor >>> 8)) (
              after dlab_lsb (u8 divisor)
                (after line_control 0x80 (after intr_enable 0x00 refl)))))) in
      returns (
        subst (IsSetUp freq baud (registers m.dev)) (sym e)
            (set_up_lem freq baud (registers m.dev) some_baud small slow),
        refl,
      )

-- What the UART's registers do not disturb, the initialisation keeps.
pub uart_init_keeps :
    {D : Type 0} (bus : Bus D) (base : ℕ) (Keep : D → Type 0) (freq baud : ℕ) (m : Machine D)
    → ((offset byte : ℕ) (d : D) → Keep d → Keep (bus.write8 (base + offset) byte d))
    → Keep m.dev
    → Returns (λ _ m'. Keep m'.dev × (m'.mem ≡ m.mem)) (uart_init bus base freq baud m)
unfolding uart_init put8
uart_init_keeps bus base Keep freq baud m keeps keep = returns (
  keeps _ _ _
      (keeps _ _ _ (keeps _ _ _ (keeps _ _ _ (keeps _ _ _ (keeps _ _ _ (keeps _ _ _ keep)))))),
  refl,
)
