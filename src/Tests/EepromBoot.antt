-- ===== src/Tests/EepromBoot.antt =====
-- The boot ROM's EEPROM mode on a board with a ticking clock and an unsigned EEPROM.
use mathlib.Core.Path.{subst}
use cheshire_fork.Base.{
  ℕ, zero, suc, ◌+◌, ◌*◌, ◌%◌, ◌^◌, ◌≤◌, ◌<◌, ◌≡◌, sym, ap, refl, arith, Bool, true, false, List,
  [], ◌∷◌, ◌++◌, ◌==◌, ltb, tabulate, length,
}
use cheshire_fork.Machine.{Machine}
use cheshire_fork.Machine.Bytes.{Mem, load_le, load64, IsCopied}
use cheshire_fork.Machine.Returns.{Returns, returns}
use cheshire_fork.Mmio.{Bus}
use cheshire_fork.Clint.{spin_ticks}
use cheshire_fork.Clint.Pace.{IsPaced}
use cheshire_fork.Clint.Straps.{IsStrapped}
use cheshire_fork.Clint.Time.{IsClock}
use cheshire_fork.Clint.Waiting.{IsTicking, spin_ticks_lem}
use cheshire_fork.Gpt.{signature, read_header}
use cheshire_fork.Eeprom.{Fmt, FifoLevels, I2cHost, any_level, eeprom_read}
use cheshire_fork.Eeprom.Device.{
  Phase, Look, draining, empty, held, serving, full, settled, goes_on, wrapped, IsEeprom,
}
use cheshire_fork.Eeprom.Reading.{covered, eeprom_read-IsCopied}
use cheshire_fork.BootRom.{Board, main}
use cheshire_fork.BootRom.EepromBoot.{Starts, read_header-overrun}
use cheshire_fork.BootRom.Disks.{main-eeprom}
use cheshire_fork.Tests.Clock.{
  time, lag, next, show, later, not_longer, early_high, early_low, early_next,
}
use cheshire_fork.Tests.Bench.{absent_spi, bench, unsigned_loaded}

record Devices : Type 0 where
  phase : Phase
  now : ℕ

abbrev disk : Mem
disk a = a % 256

-- Once the received bytes have been fetched, the host looks idle after two more looks.
abbrev seen : Phase → Phase
seen (full []) = draining 2
seen (full (x ∷ xs)) = full (x ∷ xs)
seen (serving k xs) = serving k xs
seen (draining k) = draining k
seen (held es) = held es
seen empty = empty

abbrev State : Phase → Devices → Type 0
State p d = d.phase ≡ seen p

abbrev idle : FifoLevels
idle = record { fmt = 0; rx = 0; tx = 0; acq = 0 }

abbrev busy : FifoLevels
busy = record { fmt = 1; rx = 0; tx = 0; acq = 0 }

abbrev look : Phase → FifoLevels × Phase
look (draining zero) = (idle, empty)
look (draining (suc k)) = (busy, draining k)
look (serving zero xs) = (record idle { rx = length xs }, seen (full xs))
look (serving (suc k) []) = (idle, draining 2)
look (serving (suc k) (x ∷ xs)) = (busy, serving k (x ∷ xs))
look p = (idle, p)

abbrev launch : List (ℕ × Fmt) → Phase
launch (c0 ∷ (hi, f1) ∷ (lo, f2) ∷ c1 ∷ (n, f3) ∷ []) = serving 3 (tabulate disk (256 * hi + lo) n)
launch es = draining 0

abbrev switch : Bool → Phase → Phase
switch true (held es) = launch es
switch true p = draining 2
switch false empty = held []
switch false p = p

abbrev queue : ℕ → Fmt → Phase → Phase
queue byte flag (held es) = held (es ++ (byte, flag) ∷ [])
queue byte flag p = p

abbrev fetch : Phase → ℕ × Phase
fetch (full (x ∷ xs)) = (x, seen (full xs))
fetch p = (0, p)

abbrev go : (Phase → Phase) → Devices → ℕ × Devices
go f d = (0, record d { phase = f d.phase })

abbrev host : I2cHost Devices (Unit {0})
host = record {
  fifo_depth = 64;
  init = go λ p. empty;
  host_set_enabled = λ b. go (switch b);
  reset_acq_fifo = go λ p. p;
  reset_fmt_fifo = go λ p. p;
  reset_rx_fifo = go λ p. p;
  reset_tx_fifo = go λ p. p;
  compute_timing = λ t. (0, tt);
  configure = λ c. go λ p. empty;
  get_fifo_levels = λ d. (0, (look d.phase).0, record d { phase = (look d.phase).1 });
  write_byte = λ byte flag suppress. go (queue byte flag);
  read_byte = λ d. (0, (fetch d.phase).0, record d { phase = (fetch d.phase).1 });
}

abbrev bus : Bus Devices
bus = record {
  read8 = λ a d. (0, d);
  read32 = λ a d. (show 3 32768 a d.now, record d { now = next d.now });
  write8 = λ a byte d. d;
  write32 = λ a value d. d;
}

abbrev board : Board Devices (Unit {0})
board =
    bench bus absent_spi host (λ d. (d.now, record d { now = next d.now }))
      (record { sig = 0x10000; hf = 0x10010; dim = 0x10020; guid = 0x10030 }) 0x8000

board-Starts : Starts host (λ d. Unit {0}) (λ d. d.phase ≡ empty) (State (draining 2))
board-Starts = record {
  inits = λ d. (refl, tt);
  disables = λ d up. (refl, tt);
  clears_acq = λ d up. (refl, tt);
  clears_fmt = λ d up. (refl, tt);
  clears_rx = λ d up. (refl, tt);
  clears_tx = λ d up. (refl, tt);
  times = λ t some. refl;
  configures = λ c d up. (refl, refl);
  enables = λ d set. (refl, ap (switch true) set);
}

look_draining :
    (k : ℕ)
    → Look
        (any_level (look (draining k)).0)
        ((look (draining k)).1 ≡ empty)
        (λ j. (look (draining k)).1 ≡ draining j)
        k
unfolding any_level
look_draining zero = settled refl refl
look_draining (suc k) = goes_on k (omega arith) refl refl

look_serving :
    (k : ℕ) (xs : List ℕ)
    → Look
        (ltb (look (serving k xs)).0.rx (length xs))
        ((look (serving k xs)).1 ≡ seen (full xs))
        (λ j. (look (serving k xs)).1 ≡ serving j xs)
        k
look_serving zero xs = settled (ground arith) refl
look_serving (suc k) [] = settled refl refl
look_serving (suc k) (x ∷ xs) = goes_on k (omega arith) (ground arith) refl

host-IsEeprom : IsEeprom host State disk 2 3
host-IsEeprom = record {
  depth = refl;
  drains = λ k d e. (
    refl,
    subst (λ p. Look (any_level (look p).0) ((look p).1 ≡ empty) (λ j. (look p).1 ≡ draining j) k)
        (sym e) (look_draining k),
  );
  disables = λ d e. (refl, ap (switch false) e);
  queues = λ byte flag es d below room e. (refl, ap (queue byte flag) e);
  launches = λ hi lo n d h l some short inside e. (refl, ap (switch true) e);
  serves = λ k xs d e. (
    refl,
    subst
        (λ p.
          Look (ltb (look p).0.rx (length xs)) ((look p).1 ≡ seen (full xs))
            (λ j. (look p).1 ≡ serving j xs) k)
        (sym e) (look_serving k xs),
  );
  fetches = λ x xs d e. (refl, ap (λ p. (fetch p).0) e, ap (λ p. (fetch p).1) e);
  ends = λ d e. e;
}

board-IsClock : IsClock bus 0x2040000 (λ d. time d.now)
board-IsClock = record {
  bounded = λ d. omega arith;
  high = λ d. (refl, ground arith);
  low = λ d. (refl, ground arith);
}

board-IsTicking : IsTicking bus 0x2040000 (λ d. time d.now) (λ d. lag d.now) 4
board-IsTicking = record {
  lagging = λ d. omega arith;
  ticks = λ d. later d.now;
  holds = λ d. not_longer d.now;
}

board-IsPaced : IsPaced bus 0x2040000 board.mcycle (λ d. Unit {0}) (λ d. d.now) 4 1
board-IsPaced = record {
  quick = omega arith;
  high = λ d any early. (early_high d.now early, early_next d.now early, tt);
  low = λ d any early. (early_low d.now early, early_next d.now early, tt);
  counter = λ d any early. (refl, early_next d.now early, tt);
}

board-IsStrapped : IsStrapped bus board.map (λ d. Unit {0}) (λ d. d.now) 4 1 3 32768
board-IsStrapped = record {
  mode_shown = λ d any early. (refl, early_next d.now early, tt);
  rtc_shown = λ d any early. (refl, early_next d.now early, tt);
}

unsigned : (load64 (wrapped disk) 0x200 == signature) ≡ false
unfolding load_le
unsigned = refl

abbrev reset : Machine Devices
reset = record { mem = λ a. 0; dev = record { phase = draining 2; now = 0 } }

-- 300 bytes from address 66000 on are those from 464 on, and those up to the next boundary.
eeprom_read-IsCopied_example :
    Returns
      (λ _ m'.
        State (draining 2) m'.dev × IsCopied (wrapped disk) 66000 0x1000 300 reset.mem m'.mem)
      (eeprom_read host (spin_ticks bus 0x2040000 (2 ^ 35) 1) 10 0x1000 66000 300 reset)
unfolding covered
eeprom_read-IsCopied_example =
    eeprom_read-IsCopied host-IsEeprom
      (λ m st.
        spin_ticks_lem board-IsClock board-IsTicking (State empty) (2 ^ 35) 1 m (λ a d e. e) st
          (omega arith))
      (omega arith) (omega arith) 0x1000 66000 300 reset (omega arith) refl

read_header-overrun_example :
    Returns
      (λ _ m'. (i : ℕ) → 16 ≤ i → i < 56 → m'.mem (0x10010 + i) ≡ wrapped disk (0x248 + i))
      (read_header
        (eeprom_read host (spin_ticks bus 0x2040000 (2 ^ 35) 1) (2 ^ 35))
        board.frame
        reset)
read_header-overrun_example =
    read_header-overrun board host-IsEeprom board-IsClock board-IsTicking (λ a d e. e) (omega arith)
      (omega arith) (omega arith) board.frame reset refl

-- The device's first 48 KiB stand in the scratchpad when the next stage is entered.
main-eeprom_example :
    Returns
      (λ _ m'. (i : ℕ) → i < 0xC000 → m'.mem (0x20000000 + i) ≡ wrapped disk i)
      (main board reset)
main-eeprom_example =
    main-eeprom board board-IsPaced board-IsClock board-IsTicking
      (λ _ m'. (i : ℕ) → i < 0xC000 → m'.mem (0x20000000 + i) ≡ wrapped disk i) reset
      board-IsStrapped tt
      (record {
        some = omega arith;
        early = omega arith;
        small = omega arith;
        fits = omega arith;
        enough = omega arith;
      })
      (omega arith) (omega arith) board-Starts host-IsEeprom (λ a d e. e) (omega arith)
      (omega arith) (omega arith) unsigned
      (λ m' h. returns (unsigned_loaded (wrapped disk) 0x20000000 m' unsigned h))
