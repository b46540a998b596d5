-- ===== src/Tests/FlashBoot.antt =====
-- The boot ROM's flash mode on a board with a ticking clock and an unsigned flash.

use cheshire_fork.Base.{
  ℕ, ◌+◌, ◌^◌, ◌≤◌, ◌<◌, ◌≡◌, refl, arith, false, some, none, List, [], ◌∷◌, ◌==◌, if◌then◌else◌,
  tabulate, ◌*◌,
}
use cheshire_fork.Machine.{Machine}
use cheshire_fork.Machine.Bytes.{Mem, load_le, load64}
use cheshire_fork.Machine.Returns.{Returns, returns}
use cheshire_fork.SpiHost.{SpiHost, Segment, Reply, opcode, address, rx}
use cheshire_fork.Clint.Pace.{IsPaced}
use cheshire_fork.Clint.Straps.{IsStrapped}
use cheshire_fork.Gpt.{PartFields, signature}
use cheshire_fork.Gpt.Table.{IsOnDisk, IsFrame, header, first_byte, byte_count}
use cheshire_fork.Gpt.Boot.{IsBootRange}
use cheshire_fork.Flash.Reading.{IsFlash}
use cheshire_fork.BootRom.{Board, main, boot_spm_max_lbas, boot_zsl_type_guid}
use cheshire_fork.BootRom.FlashBoot.{Starts}
use cheshire_fork.BootRom.Disks.{main-flash}
use cheshire_fork.Tests.Bench.{absent_spi, absent_i2c, bench, unsigned_range, unsigned_loaded}
use cheshire_fork.Tests.Clock.{
  next, early_high, early_low, early_next, ticking_bus, ticking-IsClock, ticking_bus-IsTicking,
  time,
}
use cheshire_fork.Tests.Disk.{frame, disk_size}

-- One byte of code, and no signature.
abbrev disk : Mem
disk a = if a == 5 then 7 else 0

abbrev AnyState : ℕ → Type 0
AnyState d = Unit {0}

abbrev Anywhere : ℕ → ℕ → Type 0
Anywhere a n = Unit {0}

-- The flash is ready after 350 us.
abbrev Ready : ℕ → Type 0
Ready d = 350 * 32768 ≤ 1000000 * time d

abbrev answer : ℕ → List Segment → Reply ℕ
answer d (opcode op ∷ address a ∷ rx n ∷ []) = record {
  code = 0;
  received = tabulate disk a n;
  after = d;
}
answer d segs = record { code = 0; received = []; after = d }

abbrev host : SpiHost ℕ
host = record absent_spi { transaction = λ csaat csid segs d. answer d segs }

abbrev board : Board ℕ (Unit {0})
board = bench ticking_bus host absent_i2c (λ d. (d, next d)) frame 0x400

board-Starts : Starts board.spi AnyState AnyState AnyState
board-Starts = record {
  two_devices = omega arith;
  inits = λ d. (refl, tt);
  resets = λ d up. tt;
  configures = λ c d fastest up. (refl, tt);
  enables = λ d set. tt;
  outputs = λ d set. (refl, tt);
}

board-IsFlash : IsFlash board.spi 1 Ready disk disk_size
board-IsFlash = record {
  depth = omega arith;
  size_fits = omega arith;
  answers = λ d addr len ready inside. (refl, refl, ready);
}

frame-IsFrame : IsFrame Anywhere frame
frame-IsFrame = record {
  sig_free = tt;
  hf_free = tt;
  dim_free = tt;
  guid_free = tt;
  below = omega arith;
}

no_entries : (header disk).count ≡ 0
unfolding load_le
no_entries = refl

disk-IsOnDisk : IsOnDisk disk disk_size
disk-IsOnDisk = record {
  addressable = omega arith;
  header_in = omega arith;
  entry_in = λ p below. absurd (omega (arith, below, no_entries));
}

unsigned : (load64 disk 0x200 == signature) ≡ false
unfolding load_le
unsigned = refl

room :
    (range : PartFields)
    → IsBootRange disk boot_spm_max_lbas (some boot_zsl_type_guid) none range
    → (first_byte range + byte_count range ≤ disk_size)
      × (0x20000000 + byte_count range ≤ 2 ^ 64)
      × Anywhere 0x20000000 (byte_count range)
room range is =
    let (from, count) = unsigned_range disk range unsigned is in
    rw (from, count) (omega arith, omega arith, tt)

abbrev reset : Machine ℕ
reset = record { mem = λ a. 0; dev = 0 }

board-IsPaced : IsPaced ticking_bus 0x2040000 board.mcycle AnyState (λ d. d) 4 1
board-IsPaced = record {
  quick = omega arith;
  high = λ d any early. (early_high d early, early_next d early, tt);
  low = λ d any early. (early_low d early, early_next d early, tt);
  counter = λ d any early. (refl, early_next d early, tt);
}

board-IsStrapped : IsStrapped ticking_bus board.map AnyState (λ d. d) 4 1 2 32768
board-IsStrapped = record {
  mode_shown = λ d any early. (refl, early_next d early, tt);
  rtc_shown = λ d any early. (refl, early_next d early, tt);
}

-- The flash's first 96 blocks stand in the scratchpad when the next stage is entered.
main-flash_example :
    Returns (λ _ m'. (i : ℕ) → i < 0xC000 → m'.mem (0x20000000 + i) ≡ disk i) (main board reset)
main-flash_example =
    main-flash board board-IsPaced ticking-IsClock ticking_bus-IsTicking
      (λ _ m'. (i : ℕ) → i < 0xC000 → m'.mem (0x20000000 + i) ≡ disk i) reset board-IsStrapped tt
      (record {
        some = omega arith;
        early = omega arith;
        small = omega arith;
        fits = omega arith;
        enough = omega arith;
      })
      (omega arith) (omega arith) (λ d warm late. late) board-Starts board-IsFlash (λ a d warm. tt)
      frame-IsFrame disk-IsOnDisk (omega arith) room
      (λ m' h. returns (unsigned_loaded disk 0x20000000 m' unsigned h))
