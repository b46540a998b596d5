-- ===== src/BootRom/Main.antt =====
-- `main` of hw/bootrom/cheshire_bootrom.c, from its reads of the strap registers on.
use cheshire_fork.Base.{ℕ, ◌<◌, ◌≡◌, ◌∙◌, ◌⊎◌, inl, inr, arith, false, ◌==◌}
use cheshire_fork.Machine.{Machine}
use cheshire_fork.Machine.Returns.{Returns}
use cheshire_fork.Clint.Pace.{IsPaced}
use cheshire_fork.Clint.Straps.{IsStrapped, IsMeasurable, measure_lem}
use cheshire_fork.BootRom.{Board, boot_passive, boot, main}
use cheshire_fork.BootRom.Passive.{IsPreloaded, boot_passive-next_stage}

module _ {D C : Type 0} (b : Board D C) {Waiting Polled : ℕ → D → Type 0}
    {Flagged Started : D → Type 0} {entry polls : ℕ} {cycles : D → ℕ} {period step mode rtc : ℕ}
    (loaded : IsPreloaded b.bus b.map Waiting Polled Flagged Started entry)
    (pace : IsPaced b.bus b.map.clint b.mcycle (Waiting polls) cycles period step)
    (straps : IsStrapped b.bus b.map (Waiting polls) cycles period step mode rtc) where
  -- The boot ROM in the passive mode, which is 0 and any number above 3, from reset: if outside
  -- agents load code and set the start flag, which is seen after `polls` polls, the line brings no
  -- request until then, and the frequency can be measured, then `main` takes the flag back and
  -- enters the next stage at the address in the scratch registers, with memory as it was.
  pub main-passive :
      (Q : Unit {0} → Machine D → Type 0) (m : Machine D)
      → (mode ≡ 0) ⊎ (3 < mode)
      → polls < b.fuel
      → Waiting polls m.dev
      → IsMeasurable rtc period step (cycles m.dev) b.fuel
      → ((m' : Machine D) → Started m'.dev → m'.mem ≡ m.mem → Returns Q (b.next_stage entry m'))
      → Returns Q (main b m)
  unfolding main boot
  main-passive Q m passive enough w can enter =
      measure_lem pace straps (λ mode rtc f. boot b mode f rtc) (Returns Q) m w can
        λ f m1 near w1 same.
          let booted : Returns Q (boot_passive b f m1) =
            boot_passive-next_stage b loaded f polls Q m1 enough w1
              (λ m' started same'. enter m' started (same' ∙ same)) in
          elim passive [
            | inl zero_mode ↦ rw zero_mode booted
            | inr above ↦
                let e0 : (mode == 0) ≡ false = ground (arith, above) in
                let e1 : (mode == 1) ≡ false = ground (arith, above) in
                let e2 : (mode == 2) ≡ false = ground (arith, above) in
                let e3 : (mode == 3) ≡ false = ground (arith, above) in rw (e0, e1, e2, e3) booted
          ]
