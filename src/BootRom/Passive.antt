-- ===== src/BootRom/Passive.antt =====
-- The boot mode `boot_passive`, with code that is loaded from outside, and no debug request.
use Prim.Native.Nat.{bit_and, bit_or}
use cheshire_fork.Base.{
  ℕ, zero, suc, ◌+◌, ◌*◌, ◌/◌, ◌%◌, ◌^◌, ◌<◌, ◌≡◌, ◌⊎◌, inl, inr, ◌∙◌, refl, arith, true, false,
  not, ◌==◌, u64, ◌<<<◌, Bool-cases,
}
use cheshire_fork.Base.Masks.{or_apart}
use cheshire_fork.Machine.{Machine, Run, check_assert}
use cheshire_fork.Machine.Returns
use cheshire_fork.Machine.Returns.{Returns, returns}
use cheshire_fork.Mmio.{Bus, AddressMap, get32, put32, get8, scratch_0, scratch_1, scratch_2}
use cheshire_fork.Uart.{read_ready, line_status, data_ready, rbr}
use cheshire_fork.Uart.Setup.{uart_init_keeps}
use cheshire_fork.UartDebug.{ack, debug_init, debug_check}
use cheshire_fork.BootRom.{Board, passive_loop, dropped, boot_passive}

-- A core that waits for code: the start flag is seen after `k` more polls (`Waiting k`), between
-- which the line has no byte or one that is not a request. Once the flag has been seen (`Flagged`)
-- and taken back (`Started`), the scratch registers hold the address `entry`.
pub record IsPreloaded {D : Type 0} (bus : Bus D) (map : AddressMap)
    (Waiting Polled : ℕ → D → Type 0) (Flagged Started : D → Type 0) (entry : ℕ) : Type 0 where
  pub addressable : entry < 2 ^ 64
  pub keeps :
      (k offset byte : ℕ) (d : D) → Waiting k d → Waiting k (bus.write8 (map.uart + offset) byte d)
  pub waits :
      (k : ℕ) (d : D)
      → Waiting (suc k) d
      → (let r = bus.read32 (map.regs + scratch_2) d in
          ((bit_and r.0 2 == 0) ≡ true) × Polled k r.1)
  pub starts :
      (d : D)
      → Waiting zero d
      → (let r = bus.read32 (map.regs + scratch_2) d in
          ((bit_and r.0 2 == 0) ≡ false) × Flagged r.1)
  pub no_request :
      (k : ℕ) (d : D)
      → Polled k d
      → (let r = bus.read8 (map.uart + line_status) d in
          let s = bus.read8 (map.uart + rbr) r.1 in
          (((bit_and r.0 data_ready == 0) ≡ true) × Waiting k r.1)
          ⊎ (((bit_and r.0 data_ready == 0) ≡ false) × ((s.0 == ack) ≡ false) × Waiting k s.1))
  pub clears : (d : D) → Flagged d → Started (bus.write32 (map.regs + scratch_2) 0 d)
  pub high :
      (d : D)
      → Started d
      → (let r = bus.read32 (map.regs + scratch_1) d in (r.0 ≡ entry / 2 ^ 32) × Started r.1)
  pub low :
      (d : D)
      → Started d
      → (let r = bus.read32 (map.regs + scratch_0) d in (r.0 ≡ entry % 2 ^ 32) × Started r.1)

-- An address from its halves.
halves :
    (entry : ℕ) → entry < 2 ^ 64 → bit_or (u64 ((entry / 2 ^ 32) <<< 32)) (entry % 2 ^ 32) ≡ entry
halves entry h =
    let e : u64 ((entry / 2 ^ 32) <<< 32) ≡ (entry / 2 ^ 32) * 2 ^ 32 = omega (arith, h) in
    rw e (omega (arith, or_apart 32 (entry % 2 ^ 32) (entry / 2 ^ 32) (omega arith)))

module _ {D C : Type 0} (b : Board D C) {Waiting Polled : ℕ → D → Type 0}
    {Flagged Started : D → Type 0} {entry : ℕ}
    (loaded : IsPreloaded b.bus b.map Waiting Polled Flagged Started entry) where
  dropped-Returns :
      {P : Unit {0} → Machine D → Type 0} {r : Run D (Unit {0})}
      → Returns P r
      → Returns P (dropped b r)
  unfolding dropped
  dropped-Returns (returns p) = returns p

  -- With and without a UART and a clock, since the result is dropped.
  init_lem :
      (core_freq k : ℕ) (m : Machine D)
      → Waiting k m.dev
      → Returns
          (λ _ m'. Waiting k m'.dev × (m'.mem ≡ m.mem))
          (dropped b (debug_init b.bus b.map.uart core_freq m))
  unfolding dropped debug_init check_assert
  init_lem core_freq k m w = elim (Bool-cases (not (b.map.uart == 0))) [
    | inr none ↦ rw none (returns (w, refl))
    | inl uart ↦ rw uart (elim (Bool-cases (not (core_freq == 0))) [
      | inr none ↦ rw none (returns (w, refl))
      | inl clock ↦ rw clock (
          dropped-Returns (
            uart_init_keeps b.bus b.map.uart (Waiting k) core_freq 115200 m
              (λ offset byte d. loaded.keeps k offset byte d) w))
    ])
  ]

  check_lem :
      (k : ℕ) (m : Machine D)
      → Polled k m.dev
      → Returns
          (λ request m'. (request ≡ false) × Waiting k m'.dev × (m'.mem ≡ m.mem))
          (debug_check b.bus b.map.uart m)
  unfolding debug_check read_ready get8
  check_lem k m p = elim (loaded.no_request k m.dev p) [
    | inl (none, w) ↦ rw none (returns (refl, w, refl))
    | inr (some, other, w) ↦ rw some (returns (other, w, refl))
  ]

  passive_loop_lem :
      (Q : Unit {0} → Machine D → Type 0) (n k : ℕ) (m : Machine D)
      → k < n
      → Waiting k m.dev
      → ((m' : Machine D) → Started m'.dev → m'.mem ≡ m.mem → Returns Q (b.next_stage entry m'))
      → Returns Q (passive_loop b n m)
  unfolding passive_loop get32 put32
  passive_loop_lem Q zero k m more w enter = absurd (omega (arith, more))
  passive_loop_lem Q (suc n) zero m more w enter =
      let (flag, flagged) = loaded.starts m.dev w in
      let (eh, started) = loaded.high _ (loaded.clears _ flagged) in
      let (el, started') = loaded.low _ started in
      rw (flag, eh, el, halves entry loaded.addressable) (enter _ started' refl)
  passive_loop_lem Q (suc n) (suc k) m more w enter =
      let (no_flag, polled) = loaded.waits k m.dev w in
      rw no_flag (
        Returns.bind (check_lem k _ polled) λ request m1 (none, w1, same). rw none (
          passive_loop_lem Q n k m1 (omega (arith, more)) w1
            (λ m' started same'. enter m' started (same' ∙ same))))

  -- The passive boot, with any frequency: if outside agents load code and set the start flag, which
  -- is seen after `polls` polls, fewer than the fuel, and the line brings no request until then, the
  -- start flag is taken back and the next stage is entered at the address in the scratch registers,
  -- with memory as it was.
  pub boot_passive-next_stage :
      (core_freq polls : ℕ) (Q : Unit {0} → Machine D → Type 0) (m : Machine D)
      → polls < b.fuel
      → Waiting polls m.dev
      → ((m' : Machine D) → Started m'.dev → m'.mem ≡ m.mem → Returns Q (b.next_stage entry m'))
      → Returns Q (boot_passive b core_freq m)
  unfolding boot_passive
  boot_passive-next_stage core_freq polls Q m enough w enter =
      Returns.bind (init_lem core_freq polls m w) λ _ m1 (w1, same).
        passive_loop_lem Q b.fuel polls m1 enough w1
          (λ m' started same'. enter m' started (same' ∙ same))
