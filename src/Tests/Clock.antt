-- ===== src/Tests/Clock.antt =====
-- The clock at a carry into its high half.
use cheshire_fork.Base.{
  ◌<◌, ℕ, ◌+◌, ◌-◌, ◌*◌, ◌/◌, ◌%◌, ◌^◌, ◌≤◌, ◌≡◌, refl, arith, ltb, if◌then◌else◌, ◌==◌, ◌⊎◌,
}
use cheshire_fork.Machine.{Machine}
use cheshire_fork.Machine.Returns.{Returns}
use cheshire_fork.Mmio.{Bus}
use cheshire_fork.Clint.{get_mtime, mtime_high, spin_until, sleep_until}
use cheshire_fork.Clint.Waiting.{IsTicking, spin_until-Returns, sleep_until-early}
use cheshire_fork.Clint.Pace.{Goes}
use cheshire_fork.Clint.Time.{IsClock, get_mtime-time}

-- Four accesses to a tick. The state counts accesses.
abbrev pub time : ℕ → ℕ
time d = (d % 2 ^ 66) / 4

abbrev pub lag : ℕ → ℕ
lag d = 3 - d % 4

-- A stop at the end.
abbrev pub next : ℕ → ℕ
next d = if ltb (d % 2 ^ 66 + 1) (2 ^ 66) then d % 2 ^ 66 + 1 else d

-- What the registers of the straps and the clock show.
abbrev pub show : (mode rtc a now : ℕ) → ℕ
show mode rtc a now =
    if a == 0x3000040
    then mode
    else if a == 0x3000044
    then rtc
    else if a == 0x2040000 + mtime_high
    then time now / 2 ^ 32
    else time now % 2 ^ 32

abbrev pub ticking_bus : Bus ℕ
ticking_bus = record {
  read8 = λ a d. (0, d);
  read32 = λ a d. (show 2 32768 a d, next d);
  write8 = λ a byte d. d;
  write32 = λ a value d. d;
}

pub ticking-IsClock : IsClock ticking_bus 0x2040000 time
ticking-IsClock = record {
  bounded = λ d. omega arith;
  high = λ d. (refl, ground arith);
  low = λ d. (refl, ground arith);
}

abbrev late : Machine ℕ
late = record { mem = λ a. 0; dev = 2 ^ 34 - 1 }

-- Read just before the carry, the clock shows 0 instead of 2 ^ 32.
get_mtime-time_example :
    (let d1 = (ticking_bus.read32 (0x2040000 + mtime_high) (2 ^ 34 - 1)).1 in
      Returns
        (λ t m'.
          (t + 2 ^ 32 * (time d1 / 2 ^ 32 - time (2 ^ 34 - 1) / 2 ^ 32) ≡ time d1)
          × (time d1 ≤ time m'.dev)
          × (m'.mem ≡ late.mem))
        (get_mtime ticking_bus 0x2040000 late))
get_mtime-time_example = get_mtime-time ticking-IsClock late

-- An access makes a tick, or it shortens the rest of the tick.
pub later : (d : ℕ) → time d < 2 ^ 64 - 1 → (time d < time (next d)) ⊎ (lag (next d) < lag d)
later d before = ground (arith, before)

pub not_longer : (d : ℕ) → (time d < time (next d)) ⊎ (lag (next d) ≤ lag d)
not_longer d = ground arith

pub ticking_bus-IsTicking : IsTicking ticking_bus 0x2040000 time lag 4
ticking_bus-IsTicking = record { lagging = λ d. omega arith; ticks = later; holds = not_longer }

-- Until the first carry, the clock and the counter of accesses keep pace.
pub early_high : (d : ℕ) → d < 2 ^ 32 * 4 → time d / 2 ^ 32 ≡ 0
early_high d early = omega (arith, early)

pub early_low : (d : ℕ) → d < 2 ^ 32 * 4 → time d % 2 ^ 32 ≡ d / 4
early_low d early = omega (arith, early)

pub early_next : (d : ℕ) → d < 2 ^ 32 * 4 → Goes 1 d (next d)
early_next d early = ground (arith, early)

abbrev soon : Machine ℕ
soon = record { mem = λ a. 0; dev = 41 }

-- Ten ticks, the last of three accesses.
spin_until-Returns_example :
    Returns
      (λ _ m'. (20 ≤ time m'.dev) × (m'.mem ≡ soon.mem))
      (spin_until ticking_bus 0x2040000 ((2 ^ 32 + 10) * 4 + 3) 20 soon)
spin_until-Returns_example =
    spin_until-Returns ticking-IsClock ticking_bus-IsTicking ((2 ^ 32 + 10) * 4 + 3) 20 soon
      (omega arith) (omega arith)

sleep_until-early_example :
    Returns
      (λ _ m'. (m'.dev ≡ 43) × (time m'.dev < 1000) × (m'.mem ≡ soon.mem))
      (sleep_until ticking_bus 0x2040000 (λ d. (d, d)) (λ d. 2000) 0 1000 soon)
sleep_until-early_example =
    sleep_until-early ticking-IsClock (λ d. (d, d)) (λ d. 2000) 0 1000 soon (omega arith)
