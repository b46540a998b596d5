-- ===== src/Tests/CardBoot.antt =====
-- The boot ROM's SD card mode on a board with a ticking clock and a card that starts up in three
-- rounds.
use mathlib.Core.Path.{subst}
use cheshire_fork.Base.{
  ℕ, zero, suc, ◌+◌, ◌*◌, ◌/◌, ◌%◌, ◌^◌, ◌≤◌, ◌<◌, ◌≡◌, sym, ap, ◌∙◌, refl, arith, Bool, true,
  false, some, none, List, [], ◌∷◌, ◌==◌, ltb, if◌then◌else◌, tabulate, length, get_or,
}
use cheshire_fork.Machine.{Machine}
use cheshire_fork.Machine.Bytes.{load_le, load64}
use cheshire_fork.Machine.Returns.{Returns, returns}
use cheshire_fork.Mmio.{Bus}
use cheshire_fork.SpiHost.{SpiHost, Segment, Reply, rx, tx, dummy}
use cheshire_fork.Clint.Pace.{IsPaced}
use cheshire_fork.Clint.Straps.{IsStrapped}
use cheshire_fork.Clint.Time.{IsClock}
use cheshire_fork.Clint.Waiting.{IsTicking}
use cheshire_fork.Gpt.{PartFields, signature}
use cheshire_fork.Gpt.Table.{IsOnDisk, IsFrame, header, first_byte, byte_count}
use cheshire_fork.Gpt.Boot.{IsBootRange}
use cheshire_fork.SdCard.Command.{no_response}
use cheshire_fork.SdCard.Card.{Stream, shift, IsCard, IsLine, IsReadAnswer, IsStopAnswer}
use cheshire_fork.SdCard.Startup.{
  Phase, cold, fresh, idle, running, described, ready, starting, app, IsAnswer, IsExchange,
  IsStartup, IsController,
}
use cheshire_fork.BootRom.{Board, main, boot_spm_max_lbas, boot_zsl_type_guid}
use cheshire_fork.BootRom.CardBoot.{card_slot}
use cheshire_fork.BootRom.Disks.{main-card}
use cheshire_fork.Tests.Bench.{absent_spi, absent_i2c, bench, unsigned_range, unsigned_loaded}
use cheshire_fork.Tests.Clock.{
  time, lag, next, show, later, not_longer, early_high, early_low, early_next,
}
use cheshire_fork.Tests.Card.{
  disk, disk_size, read_answer, stop_answer, read_answer-IsReadAnswer, stop_answer-IsStopAnswer,
  number_lem,
}

record Devices : Type 0 where
  phase : Phase
  selected : Bool
  sends : Stream
  now : ℕ

-- What a card does on a command while it starts up: its next phase, and its response.
abbrev follow : Phase → Phase × List ℕ
follow cold = (cold, [])
follow fresh = (idle, 0x01 ∷ [])
follow idle = (starting 2, 0x01 ∷ 0 ∷ 0 ∷ 0x01 ∷ 0xAA ∷ [])
follow (starting k) = (app k, 0x01 ∷ [])
follow (app zero) = (running, 0 ∷ [])
follow (app (suc k)) = (starting k, 0x01 ∷ [])
follow running = (described, 0 ∷ 0xC0 ∷ 0xFF ∷ 0x80 ∷ 0 ∷ [])
follow described = (ready, 0 ∷ [])
follow ready = (ready, [])

abbrev answer : List ℕ → Stream
answer xs i = get_or xs i 0xFF

-- A card that has started reads and stops.
abbrev transfer : List ℕ → Stream
transfer (op ∷ b3 ∷ b2 ∷ b1 ∷ b0 ∷ rest) =
    if op == 0x4C then stop_answer else read_answer (b3 * 2 ^ 24 + b2 * 2 ^ 16 + b1 * 2 ^ 8 + b0)
transfer bytes = λ i. 0xFF

abbrev obey : Phase → List ℕ → ℕ → Devices
obey ready bytes now = record { phase = ready; selected = true; sends = transfer bytes; now = now }
obey p bytes now = record {
  phase = (follow p).0;
  selected = true;
  sends = answer (follow p).1;
  now = now;
}

abbrev wake : Phase → Phase
wake cold = fresh
wake p = p

abbrev respond : Bool → ℕ → List Segment → Devices → Reply Devices
respond true csid (rx n ∷ []) d = record {
  code = 0;
  received = tabulate d.sends 0 n;
  after = record d { selected = true; sends = shift n d.sends };
}
respond true csid (tx bytes ∷ []) d = record {
  code = 0;
  received = [];
  after = obey d.phase bytes d.now;
}
respond true csid (dummy n ∷ []) d = record {
  code = 0;
  received = [];
  after = record d { phase = wake d.phase };
}
respond false csid (dummy n ∷ []) d = record {
  code = 0;
  received = [];
  after = record d { selected = false };
}
respond csaat csid segs d = record { code = 1; received = []; after = d }

abbrev host : SpiHost Devices
host = record absent_spi {
  init = λ d. (0, record d { phase = cold; selected = false });
  transaction = respond;
}

abbrev bus : Bus Devices
bus = record {
  read8 = λ a d. (0, d);
  read32 = λ a d. (show 1 8000000 a d.now, record d { now = next d.now });
  write8 = λ a byte d. d;
  write32 = λ a value d. d;
}

abbrev board : Board Devices (Unit {0})
board =
    bench bus host absent_i2c (λ d. (d.now, record d { now = next d.now }))
      (record { sig = 0x10000; hf = 0x10010; dim = 0x10020; guid = 0x10030 }) 0x8000

abbrev State : Phase → Devices → Type 0
State p d = (d.phase ≡ p) × (d.selected ≡ false)

abbrev Open : Phase → Devices → Type 0
Open p d = (d.phase ≡ p) × (d.selected ≡ true)

abbrev line : Devices → Stream
line d = d.sends

line-IsLine : (p : Phase) → IsLine host (card_slot board.spi) (Open p) line
line-IsLine p = record { receives = λ d n (e, on). (refl, refl, (e, refl), refl) }

exchange :
    (p q : Phase) (frame xs : List ℕ) (Response : List ℕ → Type 0)
    → ((now : ℕ)
        → obey p frame now ≡ record { phase = q; selected = true; sends = answer xs; now = now })
    → Response xs
    → no_response (answer xs 0) ≡ false
    → tabulate (answer xs) 0 (length xs) ≡ xs
    → IsExchange host (card_slot board.spi) line (State p) (Open q) (State q) frame Response
exchange p q frame xs Response eq right at content = record {
  talks = line-IsLine q;
  sends = λ d (e, off).
      subst
        (λ (d' : Devices).
          (◌≡◌ {A = ℕ} 0 0)
          × Open q d'
          × ((response : List ℕ) × Response response × IsAnswer response d'.sends))
        (sym (ap (λ t. obey t frame d.now) e ∙ eq d.now))
        (
          refl,
          (refl, refl),
          (
            xs,
            right,
            record {
              wait = 0;
              comes = record {
                in_time = omega arith;
                before = λ i below. absurd (omega (arith, below));
                at = at;
              };
              content = content;
            },
          ),
        );
  closes = λ d (e, on). (refl, (e, refl));
}

board-IsStartup : IsStartup board.spi (card_slot board.spi) line State Open 2
unfolding no_response
board-IsStartup = record {
  wakes = λ d (e, off). (refl, (ap wake e, off));
  go_idle = exchange fresh idle _ (0x01 ∷ []) _ (λ now. refl) refl refl refl;
  send_if_cond =
      exchange idle (starting 2) _ (0x01 ∷ 0 ∷ 0 ∷ 0x01 ∷ 0xAA ∷ []) _ (λ now. refl) refl refl refl;
  app_cmd = λ k. exchange (starting k) (app k) _ (0x01 ∷ []) _ (λ now. refl) refl refl refl;
  op_cond_idle =
      λ k. exchange (app (suc k)) (starting k) _ (0x01 ∷ []) _ (λ now. refl) refl refl refl;
  op_cond_done = exchange (app zero) running _ (0 ∷ []) _ (λ now. refl) refl refl refl;
  read_ocr =
      exchange running described _ (0 ∷ 0xC0 ∷ 0xFF ∷ 0x80 ∷ 0 ∷ []) _ (λ now. refl) refl refl refl;
  set_block_len = exchange described ready _ (0 ∷ []) _ (λ now. refl) refl refl refl;
}

board-IsController :
    IsController host
      (State cold)
      (State cold)
      (State cold)
      (State ready)
      (State ready)
      (State ready)
board-IsController = record {
  inits = λ d. (refl, (refl, refl));
  resets = λ d up. up;
  configures = λ c csid d up. (refl, up);
  enables = λ d up. up;
  outputs = λ d up. (refl, up);
  disables = λ d up. (refl, up);
  reconfigures = λ c csid d up. (refl, up);
  reenables = λ d up. (refl, up);
}

board-IsCard : IsCard host (card_slot board.spi) (State ready) (Open ready) line disk disk_size
board-IsCard = record {
  depth = omega arith;
  size_fits = omega arith;
  whole_blocks = refl;
  are_bytes = λ a. ground arith;
  talks = line-IsLine ready;
  reads = λ d block count last (e, off) some inside.
      let other : ((if ltb 1 count then 0x52 else 0x51) == 0x4C) ≡ false = ground arith in
      subst
        (λ (p : Phase).
          (let d' =
              obey p
                ((if ltb 1 count then 0x52 else 0x51)
                  ∷ block / 2 ^ 24
                  ∷ (block / 2 ^ 16 % 256)
                  ∷ (block / 2 ^ 8 % 256)
                  ∷ (block % 256)
                  ∷ last
                  ∷ [])
                d.now in
            (◌≡◌ {A = ℕ} 0 0) × Open ready d' × IsReadAnswer disk block count d'.sends))
        (sym e)
        (rw (other, number_lem block) (refl, (refl, refl), read_answer-IsReadAnswer block count));
  stops = λ d (e, on).
      subst
        (λ (p : Phase).
          (let d' = obey p (0x4C ∷ 0 ∷ 0 ∷ 0 ∷ 0 ∷ 0x61 ∷ []) d.now in
            (◌≡◌ {A = ℕ} 0 0) × Open ready d' × IsStopAnswer d'.sends))
        (sym e) (refl, (refl, refl), stop_answer-IsStopAnswer);
  closes = λ d (e, on). (refl, (e, refl));
}

board-IsClock : IsClock bus 0x2040000 (λ d. time d.now)
board-IsClock = record {
  bounded = λ d. omega arith;
  high = λ d. (refl, ground arith);
  low = λ d. (refl, ground arith);
}

board-IsTicking : IsTicking bus 0x2040000 (λ d. time d.now) (λ d. lag d.now) 4
board-IsTicking = record {
  lagging = λ d. omega arith;
  ticks = λ d. later d.now;
  holds = λ d. not_longer d.now;
}

-- Buffers lie behind the swap buffer.
abbrev Roomy : ℕ → ℕ → Type 0
Roomy buf len = 0x10000 ≤ buf

frame-IsFrame : IsFrame Roomy board.frame
frame-IsFrame = record {
  sig_free = omega arith;
  hf_free = omega arith;
  dim_free = omega arith;
  guid_free = omega arith;
  below = omega arith;
}

no_entries : (header disk).count ≡ 0
unfolding load_le
no_entries = refl

disk-IsOnDisk : IsOnDisk disk disk_size
disk-IsOnDisk = record {
  addressable = omega arith;
  header_in = omega arith;
  entry_in = λ p below. absurd (omega (arith, below, no_entries));
}

board-IsPaced : IsPaced bus 0x2040000 board.mcycle (λ d. Unit {0}) (λ d. d.now) 4 1
board-IsPaced = record {
  quick = omega arith;
  high = λ d any early. (early_high d.now early, early_next d.now early, tt);
  low = λ d any early. (early_low d.now early, early_next d.now early, tt);
  counter = λ d any early. (refl, early_next d.now early, tt);
}

board-IsStrapped : IsStrapped bus board.map (λ d. Unit {0}) (λ d. d.now) 4 1 1 8000000
board-IsStrapped = record {
  mode_shown = λ d any early. (refl, early_next d.now early, tt);
  rtc_shown = λ d any early. (refl, early_next d.now early, tt);
}

unsigned : (load64 disk 0x200 == signature) ≡ false
unfolding load_le
unsigned = refl

room :
    (range : PartFields)
    → IsBootRange disk boot_spm_max_lbas (some boot_zsl_type_guid) none range
    → (first_byte range + byte_count range ≤ disk_size)
      × (0x20000000 + byte_count range ≤ 2 ^ 64)
      × Roomy 0x20000000 (byte_count range)
room range is =
    let (from, count) = unsigned_range disk range unsigned is in
    rw (from, count) (omega arith, omega arith, omega arith)

abbrev reset : Machine Devices
reset = record {
  mem = λ a. 0;
  dev = record { phase = running; selected = true; sends = λ i. 0; now = 0 };
}

-- The card's first 96 blocks stand in the scratchpad when the next stage is entered.
main-card_example :
    Returns (λ _ m'. (i : ℕ) → i < 0xC000 → m'.mem (0x20000000 + i) ≡ disk i) (main board reset)
main-card_example =
    main-card board board-IsPaced board-IsClock board-IsTicking
      (λ _ m'. (i : ℕ) → i < 0xC000 → m'.mem (0x20000000 + i) ≡ disk i) reset board-IsStrapped tt
      (record {
        some = omega arith;
        early = omega arith;
        small = omega arith;
        fits = omega arith;
        enough = omega arith;
      })
      (omega arith) (omega arith) (λ d warm late. warm) board-IsController board-IsStartup
      board-IsCard (λ a d ready. ready) frame-IsFrame disk-IsOnDisk
      (λ buf len free. (omega (arith, free), λ i below. ground (arith, free))) (omega arith)
      (omega arith) (omega arith) (omega arith) room
      (λ m' h. returns (unsigned_loaded disk 0x20000000 m' unsigned h))
