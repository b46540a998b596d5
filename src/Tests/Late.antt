-- ===== src/Tests/Late.antt =====
-- An SD card whose response comes with the eighth byte, the last that a card may take.

use cheshire_fork.Base.{
  ℕ, ◌+◌, ◌<◌, ◌≡◌, sym, refl, arith, true, false, List, [], ◌∷◌, ◌==◌, if◌then◌else◌, tabulate,
}
use cheshire_fork.Machine.{Machine}
use cheshire_fork.Machine.Returns.{Fails}
use cheshire_fork.SpiHost.{SpiHost, Segment, Reply, rx}
use cheshire_fork.SdCard.{Handle, r1}
use cheshire_fork.SdCard.Command.{no_response, cmd}
use cheshire_fork.SdCard.Card.{Stream, shift, IsLine}
use cheshire_fork.SdCard.Polling.{shift-shift}
use cheshire_fork.SdCard.Late.{cmd-late}
use cheshire_fork.Tests.Bench.{absent_spi}

abbrev slow : Stream
slow i = if i == 7 then 1 else 0xFF

-- The state is the place in the answer.
abbrev line : ℕ → Stream
line d = shift d slow

abbrev answer : ℕ → List Segment → Reply ℕ
answer d (rx n ∷ []) = record { code = 0; received = tabulate (line d) 0 n; after = d + n }
answer d segs = record { code = 0; received = []; after = 0 }

abbrev host : SpiHost ℕ
host = record absent_spi { transaction = λ csaat csid segs d. answer d segs }

abbrev card : Handle
card = record { spi_freq = 24000000; csid = 0; csid_dummy = 1 }

host-IsLine : IsLine host card (λ d. Unit {0}) line
host-IsLine = record { receives = λ d n ok. (refl, refl, tt, sym (shift-shift n d slow)) }

abbrev reset : Machine ℕ
reset = record { mem = λ a. a; dev = 100 }

quiet : (i : ℕ) → i < 7 → no_response (line 0 i) ≡ true
unfolding no_response shift
quiet i below = let early : (0 + i == 7) ≡ false = ground (arith, below) in rw early refl

cmd-late_example :
    Fails 0x12 (λ m'. Unit {0} × (m'.mem ≡ reset.mem)) (cmd host card 0x950000000040 r1 false reset)
cmd-late_example = cmd-late host-IsLine 0x950000000040 r1 false reset refl (refl, tt, quiet)
