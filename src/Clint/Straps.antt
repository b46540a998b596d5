-- ===== src/Clint/Straps.antt =====
-- The common start of `main` of hw/bootrom/cheshire_bootrom.c and of sw/boot/zsl.c: the strap
-- registers are read, and the core's frequency is measured.
use cheshire_fork.Base.{ℕ, ◌+◌, ◌*◌, ◌/◌, ◌^◌, ◌≤◌, ◌<◌, ◌≡◌, arith}
use cheshire_fork.Machine.{Machine, Run, Cmd, ◌>>=◌}
use cheshire_fork.Machine.Returns
use cheshire_fork.Mmio
use cheshire_fork.Mmio.{Bus, AddressMap, get32, boot_mode}
use cheshire_fork.Clint.{get_core_freq}
use cheshire_fork.Clint.Pace.{Goes, IsPaced}
use cheshire_fork.Clint.Frequency.{get_core_freq-accurate}

-- The registers that give the boot mode and the frequency of the real-time clock, as seen before the
-- first carry of the time into its high half.
pub record IsStrapped {D : Type 0} (bus : Bus D) (map : AddressMap) (Keep : D → Type 0)
    (cycles : D → ℕ) (period step mode rtc : ℕ) : Type 0 where
  pub mode_shown :
      (d : D)
      → Keep d
      → cycles d < 2 ^ 32 * period
      → (let r = bus.read32 (map.regs + boot_mode) d in
          (r.0 ≡ mode) × Goes step (cycles d) (cycles r.1) × Keep r.1)
  pub rtc_shown :
      (d : D)
      → Keep d
      → cycles d < 2 ^ 32 * period
      → (let r = bus.read32 (map.regs + Mmio.rtc_freq) d in
          (r.0 ≡ rtc) × Goes step (cycles d) (cycles r.1) × Keep r.1)

-- The conditions for a measurement of the frequency that starts at `now`: 1 / 2500 of a second is a
-- tick or more, the time is early, nothing overflows, and the fuel lasts.
pub record IsMeasurable (rtc period step now fuel : ℕ) : Type 0 where
  pub some : 0 < rtc / 2500
  pub early : now + (rtc / 2500 + 4) * period < 2 ^ 32 * period
  pub small : period ≤ 2 ^ 32
  pub fits : (rtc / 2500 * period + 3 * step) * rtc < 2 ^ 64
  pub enough : (rtc / 2500 + 1) * period < fuel

-- The measured frequency is right to 2500 times the cycles of six accesses.
abbrev pub IsNear : (period step rtc freq : ℕ) → Type 0
IsNear period step rtc freq =
    (freq ≤ period * rtc + (6 * step * 2500 + 1)) × (period * rtc ≤ freq + (6 * step * 2500 + 1))

module _ {D : Type 0} {bus : Bus D} {map : AddressMap} {mcycle : D → ℕ × D} {Keep : D → Type 0}
    {cycles : D → ℕ} {period step mode rtc fuel : ℕ}
    (pace : IsPaced bus map.clint mcycle Keep cycles period step)
    (straps : IsStrapped bus map Keep cycles period step mode rtc) where
  -- What holds of the rest at any frequency that is near enough holds of the whole.
  pub measure_lem :
      (k : (mode rtc freq : ℕ) → Cmd D (Unit {0})) (R : Run D (Unit {0}) → Type 0) (m : Machine D)
      → Keep m.dev
      → IsMeasurable rtc period step (cycles m.dev) fuel
      → ((f : ℕ) (m' : Machine D)
          → IsNear period step rtc f
          → Keep m'.dev
          → m'.mem ≡ m.mem
          → R (k mode rtc f m'))
      → R (
          (get32 bus map.regs boot_mode >>= λ mode. get32 bus map.regs Mmio.rtc_freq >>= λ rtc.
          get_core_freq bus map.clint mcycle fuel rtc 2500 >>= λ f. k mode rtc f)
            m)
  unfolding get32
  measure_lem k R m keep can next =
      let (e1, goes1, keep1) = straps.mode_shown m.dev keep (omega (arith, can.early)) in
      let (e2, goes2, keep2) =
        straps.rtc_shown _ keep1 (omega (arith, goes1, can.early, pace.quick)) in
      rw (e1, e2)
        (Returns.into R
          (get_core_freq-accurate pace fuel rtc 2500 _ keep2 can.some (omega arith)
            (omega (arith, goes1, goes2, can.early, pace.quick)) can.small can.fits can.enough)
          λ f m1 (not_above, not_below, keep3, same). next f m1 (not_above, not_below) keep3 same)
