-- ===== src/Clint/Waiting.antt =====
-- The waits of sw/lib/dif/clint.c on a clock that goes on.
use Prim.Native.Nat.{bit_or}
use cheshire_fork.Base.{
  ◌*◌, u64, ◌<<<◌, ℕ, zero, suc, ◌+◌, ◌-◌, ◌/◌, ◌^◌, ◌≤◌, ◌<◌, ◌≡◌, ◌∙◌, refl, arith, true, ltb,
  Bool-cases, ◌⊎◌, inl, inr,
}
use cheshire_fork.Machine.{Machine}
use cheshire_fork.Machine.Returns
use cheshire_fork.Machine.Returns.{Returns, returns}
use cheshire_fork.Mmio.{Bus, get32}
use cheshire_fork.Clint.{mtime_low, mtime_high, get_mtime, spin_until, spin_ticks, sleep_until}
use cheshire_fork.Clint.Time.{IsClock, get_mtime-time}

-- The time goes on with the reads, until the clock is at its end. A tick may last for many of them:
-- `lag` is below `period`, and falls with each read of the high half that sees no tick.
pub record IsTicking {D : Type 0} (bus : Bus D) (base : ℕ) (time lag : D → ℕ) (period : ℕ)
    : Type 0 where
  pub lagging : (d : D) → lag d < period
  pub ticks :
      (d : D)
      → time d < 2 ^ 64 - 1
      → (let d' = (bus.read32 (base + mtime_high) d).1 in (time d < time d') ⊎ (lag d' < lag d))
  pub holds :
      (d : D)
      → (let d' = (bus.read32 (base + mtime_low) d).1 in (time d < time d') ⊎ (lag d' ≤ lag d))

-- The ticks until the target and the carries of the low half that are left, each of which can make
-- one reading too small.
abbrev pub to_come : (target t : ℕ) → ℕ
to_come target t = (target - t) + (2 ^ 32 - t / 2 ^ 32)

-- What is left of a wait falls with the ticks, or with the lag at the same tick.
fewer_ticks :
    (n n' period lag lag' fuel : ℕ)
    → lag' < period
    → n' < n
    → n * period + lag < suc fuel
    → n' * period + lag' < fuel
fewer_ticks n n' period lag lag' fuel small less enough = grind (arith, small, less, enough)

less_lag :
    (n n' period lag lag' fuel : ℕ)
    → lag' < lag
    → n' ≤ n
    → n * period + lag < suc fuel
    → n' * period + lag' < fuel
less_lag n n' period lag lag' fuel small less enough = grind (arith, small, less, enough)

within :
    (n bound period lag fuel : ℕ)
    → lag < period
    → n ≤ bound
    → (bound + 1) * period ≤ fuel
    → n * period + lag < fuel
within n bound period lag fuel small less enough = grind (arith, small, less, enough)

module _ {D : Type 0} {bus : Bus D} {base : ℕ} {time lag : D → ℕ} {period : ℕ}
    (clock : IsClock bus base time) (ticking : IsTicking bus base time lag period) where
  -- The time that is read, and what the reads of a register keep.
  get_mtime-keeps :
      (Keep : D → Type 0) (m : Machine D)
      → ((a : ℕ) (d : D) → Keep d → Keep (bus.read32 a d).1)
      → Keep m.dev
      → Returns
          (λ t m'.
            ((t
                  + 2 ^ 32
                    * (time (bus.read32 (base + mtime_high) m.dev).1 / 2 ^ 32 - time m.dev / 2 ^ 32)
                ≡ time (bus.read32 (base + mtime_high) m.dev).1)
              × (time (bus.read32 (base + mtime_high) m.dev).1 ≤ time m'.dev)
              × (m'.mem ≡ m.mem))
            × (time m.dev < 2 ^ 64 - 1 → (time m.dev < time m'.dev) ⊎ (lag m'.dev < lag m.dev))
            × Keep m'.dev)
          (get_mtime bus base m)
  unfolding get_mtime get32
  get_mtime-keeps Keep m keeps kept =
      let d1 = (bus.read32 (base + mtime_high) m.dev).1 in
      let (h, up) = clock.high m.dev in
      let (l, up1) = clock.low d1 in
      returns (
        Returns.of_done (get_mtime-time clock m),
        (λ before. elim (ticking.ticks m.dev before) [
          | inl later ↦ inl (omega (arith, later, up1))
          | inr less ↦ elim (ticking.holds d1) [
            | inl later ↦ inl (omega (arith, later, up))
            | inr held ↦ inr (omega (arith, less, held))
          ]
        ]),
        keeps _ _ (keeps _ _ kept),
      )

  -- A reading that shows a time before the target leaves less of the wait.
  round_lem :
      (target t n : ℕ) (d d1 d2 : D)
      → target < 2 ^ 64
      → t + 2 ^ 32 * (time d1 / 2 ^ 32 - time d / 2 ^ 32) ≡ time d1
      → time d ≤ time d1
      → time d1 ≤ time d2
      → (time d < 2 ^ 64 - 1 → (time d < time d2) ⊎ (lag d2 < lag d))
      → t < target
      → to_come target (time d) * period + lag d < suc n
      → to_come target (time d2) * period + lag d2 < n
  round_lem target t n d d1 d2 small e up on passed early enough =
      let below =
        fewer_ticks (to_come target (time d)) (to_come target (time d2)) period (lag d) (lag d2) n
          (ticking.lagging d2) in
      elim (Bool-cases (ltb (time d) target)) [
        | inl ahead ↦ elim (passed (ground (arith, ahead, small))) [
          | inl later ↦ below (ground (arith, ahead, later)) enough
          | inr less ↦
              less_lag (to_come target (time d)) (to_come target (time d2)) period (lag d) (lag d2)
                n less (omega (arith, up, on)) enough
        ]
        | inr behind ↦ below (ground (arith, e, up, on, early, behind, clock.bounded d2)) enough
      ]

  spin_until_lem :
      (Keep : D → Type 0) (fuel target : ℕ) (m : Machine D)
      → ((a : ℕ) (d : D) → Keep d → Keep (bus.read32 a d).1)
      → Keep m.dev
      → target < 2 ^ 64
      → to_come target (time m.dev) * period + lag m.dev < fuel
      → Returns
          (λ _ m'. ((target ≤ time m'.dev) × (m'.mem ≡ m.mem)) × Keep m'.dev)
          (spin_until bus base fuel target m)
  unfolding spin_until
  spin_until_lem Keep zero target m keeps kept small enough = absurd (omega (arith, enough))
  spin_until_lem Keep (suc n) target m keeps kept small enough =
      let (h, up) = clock.high m.dev in
      Returns.bind (get_mtime-keeps Keep m keeps kept) λ t m1 ((e, on, same), passed, kept1).
        elim (Bool-cases (ltb t target)) [
          | inr reached ↦ rw reached (returns ((ground (arith, e, on, reached), same), kept1))
          | inl early ↦ rw early (
              Returns.mono
                (spin_until_lem Keep n target m1 keeps kept1 small (
                  round_lem target t n m.dev _ m1.dev small e up on passed (ground (arith, early))
                    enough))
                λ _ m2 ((come, same2), kept2). ((come, same2 ∙ same), kept2))
        ]

  -- A wait whose end is at most `ticks` ahead.
  pub spin_within_lem :
      (Keep : D → Type 0) (fuel target ticks : ℕ) (m : Machine D)
      → ((a : ℕ) (d : D) → Keep d → Keep (bus.read32 a d).1)
      → Keep m.dev
      → target < 2 ^ 64
      → target ≤ time m.dev + ticks
      → (ticks + 2 ^ 32 + 1) * period ≤ fuel
      → Returns
          (λ _ m'. ((target ≤ time m'.dev) × (m'.mem ≡ m.mem)) × Keep m'.dev)
          (spin_until bus base fuel target m)
  spin_within_lem Keep fuel target ticks m keeps kept small near enough =
      spin_until_lem Keep fuel target m keeps kept small (
        within (to_come target (time m.dev)) (ticks + 2 ^ 32) period (lag m.dev) fuel
          (ticking.lagging m.dev) (omega (arith, near)) enough)

  pub spin_ticks_lem :
      (Keep : D → Type 0) (fuel ticks : ℕ) (m : Machine D)
      → ((a : ℕ) (d : D) → Keep d → Keep (bus.read32 a d).1)
      → Keep m.dev
      → (ticks + 2 ^ 32 + 1) * period ≤ fuel
      → Returns (λ _ m'. Keep m'.dev × (m'.mem ≡ m.mem)) (spin_ticks bus base fuel ticks m)
  unfolding spin_ticks
  spin_ticks_lem Keep fuel ticks m keeps kept enough =
      Returns.bind (get_mtime-keeps Keep m keeps kept) λ t m1 ((e, on, same), passed, kept1).
        Returns.mono
          (spin_within_lem Keep fuel (u64 (t + ticks)) ticks m1 keeps kept1 (omega arith)
            (omega (arith, e, on)) enough)
          λ _ m2 ((come, same2), kept2). (kept2, same2 ∙ same)

  -- A wait for a time of 64 bits ends, and the time has come by then, on a clock that goes on with
  -- the reads: the number of readings is at most `period` for each tick until then and for each
  -- carry of the low half that is left, and what is left of the tick under way.
  pub spin_until-Returns :
      (fuel target : ℕ) (m : Machine D)
      → target < 2 ^ 64
      → to_come target (time m.dev) * period + lag m.dev < fuel
      → Returns
          (λ _ m'. (target ≤ time m'.dev) × (m'.mem ≡ m.mem))
          (spin_until bus base fuel target m)
  spin_until-Returns fuel target m small enough =
      Returns.mono (spin_until_lem (λ d. Unit {0}) fuel target m (λ a d k. tt) tt small enough)
        λ _ m' (come, k). come

module _ {D : Type 0} {bus : Bus D} {base : ℕ} {time : D → ℕ} (clock : IsClock bus base time) where
  -- A sleep until a time that is still to come when the clock has been read returns at once and
  -- does not sleep: the devices are as the reading leaves them, and the time has not come.
  pub sleep_until-early :
      (mcycle : D → ℕ × D) (enable_and_wait : D → D) (timer_idx target : ℕ) (m : Machine D)
      → time (bus.read32 (base + mtime_low) (bus.read32 (base + mtime_high) m.dev).1).1 < target
      → Returns
          (λ _ m'.
            (m'.dev ≡ (bus.read32 (base + mtime_low) (bus.read32 (base + mtime_high) m.dev).1).1)
            × (time m'.dev < target)
            × (m'.mem ≡ m.mem))
          (sleep_until bus base mcycle enable_and_wait timer_idx target m)
  unfolding sleep_until get_mtime get32
  sleep_until-early mcycle enable_and_wait timer_idx target m early =
      let d1 = (bus.read32 (base + mtime_high) m.dev).1 in
      let (e, on, same) = Returns.of_done (get_mtime-time clock m) in
      let (l, on2) = clock.low d1 in
      let high = (bus.read32 (base + mtime_high) m.dev).0 in
      let low = (bus.read32 (base + mtime_low) d1).0 in
      let short : ltb (bit_or (u64 (high <<< 32)) low) target ≡ true =
        ground (arith, e, on2, early) in
      rw short (returns (refl, early, refl))
