-- ===== src/Tests/Passive.antt =====
-- The boot ROM in the passive mode, on a paced core, with a start flag that is set after the third poll.
use Prim.Native.Nat.{bit_and}
use cheshire_fork.Base.{
  ℕ, zero, suc, ◌≡◌, inl, inr, ◌+◌, ◌/◌, ◌≤◌, refl, ap, arith, ◌==◌, if◌then◌else◌,
}
use cheshire_fork.Machine.{Machine, on_dev}
use cheshire_fork.Machine.Returns.{Returns, returns}
use cheshire_fork.Mmio.{Bus}
use cheshire_fork.Clint.{mtime_low, mtime_high, get_core_freq}
use cheshire_fork.Clint.Pace.{IsPaced}
use cheshire_fork.Clint.Frequency.{get_core_freq-accurate}
use cheshire_fork.BootRom.{Board, main}
use cheshire_fork.BootRom.Passive.{IsPreloaded}
use cheshire_fork.BootRom.Main.{main-passive}
use cheshire_fork.Clint.Straps.{IsStrapped}
use cheshire_fork.Tests.Bench.{absent_spi, absent_i2c, bench}

-- Where the core and the agent outside are.
data Point : Type 0 where
  waiting polled : ℕ → Point
  flagged : Point
  started : Point

record Devices : Type 0 where
  point : Point
  entered : ℕ
  now : ℕ

-- A byte that is not a request is in the line's buffer until it has been read.
abbrev flags : Point → ℕ × Point
flags (waiting (suc k)) = (0, polled k)
flags (waiting zero) = (2, flagged)
flags p = (0, p)

abbrev take : Point → Point
take (polled k) = waiting k
take p = p

abbrev clear : Point → Point
clear flagged = started
clear p = p

-- Ten cycles for an access, and 1600 for a tick.
abbrev after : Devices → Devices
after d = record d { now = d.now + 10 }

abbrev read : ℕ → Devices → ℕ × Devices
read a d =
    if a == 0x3000008
    then ((flags d.point).0, record d { point = (flags d.point).1 })
    else if a == 0x3000004
    then (1, d)
    else if a == 0x3000040
    then (0, after d)
    else if a == 0x3000044
    then (32768, after d)
    else if a == 0x2040000 + mtime_high
    then (0, after d)
    else if a == 0x2040000 + mtime_low
    then (d.now / 1600, after d)
    else (0x10000000, d)

abbrev bus : Bus Devices
bus = record {
  read8 = λ a d. if a == 0x3002014 then (1, d) else (65, record d { point = take d.point });
  read32 = read;
  write8 = λ a byte d. d;
  write32 = λ a value d. record d { point = clear d.point };
}

-- The next stage notes where it has been entered.
abbrev board : Board Devices (Unit {0})
board =
    record (bench bus absent_spi absent_i2c (λ d. (d.now, after d))
      (record { sig = 0x10000; hf = 0x10010; dim = 0x10020; guid = 0x10030 }) 0x8000) {
        next_stage = λ a. on_dev (λ d. (tt, record d { entered = a }));
      }

bus-IsPreloaded :
    IsPreloaded bus board.map
      (λ k d. d.point ≡ waiting k)
      (λ k d. d.point ≡ polled k)
      (λ d. d.point ≡ flagged)
      (λ d. d.point ≡ started)
      0x110000000
bus-IsPreloaded = record {
  addressable = omega arith;
  keeps = λ k offset byte d e. e;
  waits = λ k d e. (ap (λ p. bit_and (flags p).0 2 == 0) e, ap (λ p. (flags p).1) e);
  starts = λ d e. (ap (λ p. bit_and (flags p).0 2 == 0) e, ap (λ p. (flags p).1) e);
  no_request = λ k d e. inr (refl, refl, ap take e);
  clears = λ d e. ap clear e;
  high = λ d e. (refl, e);
  low = λ d e. (refl, e);
}

abbrev reset : Machine Devices
reset = record { mem = λ a. a; dev = record { point = waiting 3; entered = 0; now = 7 } }

bus-IsPaced : IsPaced bus 0x2040000 board.mcycle (λ d. d.point ≡ waiting 3) (λ d. d.now) 1600 10
bus-IsPaced = record {
  quick = omega arith;
  high = λ d e early. (refl, omega arith, e);
  low = λ d e early. (refl, omega arith, e);
  counter = λ d e early. (refl, omega arith, e);
}

bus-IsStrapped : IsStrapped bus board.map (λ d. d.point ≡ waiting 3) (λ d. d.now) 1600 10 0 32768
bus-IsStrapped = record {
  mode_shown = λ d e early. (refl, omega arith, e);
  rtc_shown = λ d e early. (refl, omega arith, e);
}

-- The core runs at 1600 * 32768 Hz.
get_core_freq-accurate_example :
    Returns
      (λ f m'.
        (f ≤ 52428800 + 150001)
        × (52428800 ≤ f + 150001)
        × (m'.dev.point ≡ waiting 3)
        × (m'.mem ≡ reset.mem))
      (get_core_freq bus 0x2040000 board.mcycle 22401 32768 2500 reset)
get_core_freq-accurate_example =
    get_core_freq-accurate bus-IsPaced 22401 32768 2500 reset refl (omega arith) (omega arith)
      (omega arith) (omega arith) (omega arith) (omega arith)

main-passive_example :
    Returns (λ _ m'. (m'.dev.entered ≡ 0x110000000) × (m'.mem ≡ reset.mem)) (main board reset)
main-passive_example =
    main-passive board bus-IsPreloaded bus-IsPaced bus-IsStrapped
      (λ _ m'. (m'.dev.entered ≡ 0x110000000) × (m'.mem ≡ reset.mem)) reset (inl refl) (omega arith)
      refl
      (record {
        some = omega arith;
        early = omega arith;
        small = omega arith;
        fits = omega arith;
        enough = omega arith;
      })
      (λ m' started same. returns (refl, same))
