-- ===== src/Tests/NoCard.antt =====
-- The boot ROM's SD card mode on a board with nothing on its SPI.
use cheshire_fork.Base.{ℕ, ◌≡◌, refl, arith, List, [], ◌∷◌, tabulate}
use cheshire_fork.Machine.{Machine}
use cheshire_fork.Machine.Returns.{Fails}
use cheshire_fork.Mmio.{Bus}
use cheshire_fork.SpiHost.{SpiHost, Segment, rx}
use cheshire_fork.Clint.Pace.{IsPaced}
use cheshire_fork.Clint.Straps.{IsStrapped}
use cheshire_fork.SdCard.Card.{shift}
use cheshire_fork.SdCard.Startup.{IsController}
use cheshire_fork.SdCard.Absent.{IsEmptySlot}
use cheshire_fork.BootRom.{Board, main, sdcard_device}
use cheshire_fork.BootRom.NoCard.{main-no_card}
use cheshire_fork.Tests.Bench.{absent_spi, absent_i2c, bench}
use cheshire_fork.Tests.Clock.{show, next, early_high, early_low, early_next}
use cheshire_fork.Tests.Disk.{frame}

abbrev AnyState : ℕ → Type 0
AnyState d = Unit {0}

abbrev bus : Bus ℕ
bus = record {
  read8 = λ a d. (0, d);
  read32 = λ a d. (show 1 8000000 a d, next d);
  write8 = λ a byte d. d;
  write32 = λ a value d. d;
}

abbrev high : List Segment → List ℕ
high (rx n ∷ []) = tabulate (λ i. 0xFF) 0 n
high segs = []

abbrev host : SpiHost ℕ
host = record absent_spi {
  transaction = λ csaat csid segs d. record { code = 0; received = high segs; after = d };
}

abbrev board : Board ℕ (Unit {0})
board = bench bus host absent_i2c (λ d. (d, next d)) frame 0x400

bus-IsPaced : IsPaced bus 0x2040000 board.mcycle AnyState (λ d. d) 4 1
bus-IsPaced = record {
  quick = omega arith;
  high = λ d any early. (early_high d early, early_next d early, tt);
  low = λ d any early. (early_low d early, early_next d early, tt);
  counter = λ d any early. (refl, early_next d early, tt);
}

bus-IsStrapped : IsStrapped bus board.map AnyState (λ d. d) 4 1 1 8000000
bus-IsStrapped = record {
  mode_shown = λ d any early. (refl, early_next d early, tt);
  rtc_shown = λ d any early. (refl, early_next d early, tt);
}

host-IsController : IsController host AnyState AnyState AnyState AnyState AnyState AnyState
host-IsController = record {
  inits = λ d. (refl, tt);
  resets = λ d up. tt;
  configures = λ c csid d up. (refl, tt);
  enables = λ d up. tt;
  outputs = λ d on. (refl, tt);
  disables = λ d started. (refl, tt);
  reconfigures = λ c csid d off. (refl, tt);
  reenables = λ d off. (refl, tt);
}

host-IsEmptySlot : IsEmptySlot host (sdcard_device board) AnyState
unfolding shift
host-IsEmptySlot = record {
  waits = λ d silent. (refl, tt);
  sends = λ bytes d silent. (refl, tt);
  high = record { receives = λ d n silent. (refl, refl, tt, refl) };
}

abbrev reset : Machine ℕ
reset = record { mem = λ a. a; dev = 0 }

main-no_card_example : Fails 0x12 (λ m'. m'.mem ≡ reset.mem) (main board reset)
main-no_card_example =
    main-no_card board bus-IsPaced bus-IsStrapped host-IsController host-IsEmptySlot reset tt
      (record {
        some = omega arith;
        early = omega arith;
        small = omega arith;
        fits = omega arith;
        enough = omega arith;
      })
      (omega arith) (omega arith)
