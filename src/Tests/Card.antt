-- ===== src/Tests/Card.antt =====
-- A small SD card behind a host, and the reader on it.
use mathlib.Core.Path.{fun_ext}
use cheshire_fork.Base.{
  ℕ, zero, suc, ◌+◌, ◌-◌, ◌*◌, ◌/◌, ◌%◌, ◌^◌, ◌≤◌, ◌<◌, ◌≡◌, refl, arith, Bool, true, false, List,
  [], ◌∷◌, ltb, ◌==◌, if◌then◌else◌, tabulate,
}
use cheshire_fork.Machine.Bytes.{Mem, in_range}
use cheshire_fork.Reader.{Reads}
use cheshire_fork.SpiHost.{SpiHost, Segment, Reply, rx, tx, dummy}
use cheshire_fork.SdCard.{Handle}
use cheshire_fork.SdCard.Command.{Undefined, no_response, is_busy}
use cheshire_fork.SdCard.Read.{no_token, read_checkcrc, read_ignorecrc}
use cheshire_fork.SdCard.Card.{
  Stream, shift, IsBlock, AreBlocks, block_crc, IsCard, IsReadAnswer, IsStopAnswer,
}
use cheshire_fork.SdCard.Reading.{read_checkcrc-Reads}

-- The card is selected or not, with the bytes that it sends next.
record CardState : Type 0 where
  selected : Bool
  sends : Stream

-- No signature and no table, and then data.
abbrev pub disk : Mem
disk a = if ltb a 0x1000 then 0 else a % 251

abbrev pub disk_size : ℕ
disk_size = 0x10000

checksum : ℕ → ℕ
checksum block = block_crc disk block

-- Blocks without end, one in 515 bytes.
block_stream : ℕ → Stream
block_stream block i =
    let b = block + i / 515 in
    let r = i % 515 in
    if r == 0
    then 0xFE
    else if ltb r 513
    then disk (512 * b + (r - 1))
    else if r == 513
    then checksum b / 256
    else checksum b % 256

pub read_answer : ℕ → Stream
read_answer block i = if i == 0 then 0 else block_stream block (i - 1)

pub stop_answer : Stream
stop_answer i = if i == 1 then 0 else 0xFF

obey : List ℕ → CardState
obey (op ∷ b3 ∷ b2 ∷ b1 ∷ b0 ∷ rest) = record {
  selected = true;
  sends =
      if op == 0x4C then stop_answer else read_answer (b3 * 2 ^ 24 + b2 * 2 ^ 16 + b1 * 2 ^ 8 + b0);
}
obey bytes = record { selected = true; sends = λ i. 0xFF }

respond : Bool → ℕ → List Segment → CardState → Reply CardState
respond true csid (rx n ∷ []) d = record {
  code = 0;
  received = tabulate d.sends 0 n;
  after = record { selected = true; sends = shift n d.sends };
}
respond true csid (tx bytes ∷ []) d = record { code = 0; received = []; after = obey bytes }
respond false csid (dummy n ∷ []) d = record {
  code = 0;
  received = [];
  after = record d { selected = false };
}
respond csaat csid segs d = record { code = 1; received = []; after = d }

abbrev card_host : SpiHost CardState
card_host = record {
  num_cs = 2;
  rx_depth = 16;
  init = λ d. (0, d);
  reset = λ d. d;
  configure_cs = λ c i d. (0, d);
  enable = λ b d. d;
  output_set_enabled = λ b d. (0, d);
  transaction = respond;
}

abbrev Ready : CardState → Type 0
Ready d = d.selected ≡ false

abbrev Open : CardState → Type 0
Open d = d.selected ≡ true

abbrev sd_handle : Handle
sd_handle = record { spi_freq = 24000000; csid = 0; csid_dummy = 1 }

shift-block_stream : (block : ℕ) → block_stream (block + 1) ≡ shift 515 (block_stream block)
unfolding shift block_stream
shift-block_stream block = fun_ext λ i.
    let at : block + (515 + i) / 515 ≡ block + 1 + i / 515 = omega arith in
    let r : (515 + i) % 515 ≡ i % 515 = omega arith in rw (at, r) refl

block_stream-disk : (block i : ℕ) → i < 512 → block_stream block (1 + i) ≡ disk (512 * block + i)
unfolding block_stream
block_stream-disk block i below =
    let e1 : block + (1 + i) / 515 ≡ block = omega arith in
    let e2 : (1 + i) % 515 ≡ 1 + i = omega arith in
    let e3 : 1 + i - 1 ≡ i = omega arith in
    let t1 : (1 + i == 0) ≡ false = ground arith in
    let t2 : ltb (1 + i) 513 ≡ true = ground arith in rw (e1, e2, t1, t2, e3) refl

block_stream-IsBlock :
    (block : ℕ) → IsBlock disk block (block_stream block) (block_stream (block + 1))
unfolding block_stream no_token checksum
block_stream-IsBlock block =
    let here : block + 0 ≡ block = omega arith in
    record {
      wait = 0;
      token = record {
        in_time = omega arith;
        before = λ i below. absurd (omega (arith, below));
        at = refl;
      };
      start = refl;
      bytes = block_stream-disk block;
      crc_high = rw here refl;
      crc_low = rw here refl;
      rest = shift-block_stream block;
    }

blocks-AreBlocks : (block count : ℕ) → AreBlocks disk block count (block_stream block)
blocks-AreBlocks block zero = tt
blocks-AreBlocks block (suc count) =
    (block_stream (block + 1), block_stream-IsBlock block, blocks-AreBlocks (block + 1) count)

shift-read_answer : (block : ℕ) → shift 1 (read_answer block) ≡ block_stream block
unfolding shift read_answer
shift-read_answer block = fun_ext λ i. ground arith

-- The number whose bytes a frame holds.
pub number_lem :
    (block : ℕ)
    → block / 2 ^ 24 * 2 ^ 24
        + block / 2 ^ 16 % 256 * 2 ^ 16
        + block / 2 ^ 8 % 256 * 2 ^ 8
        + block % 256
      ≡ block
number_lem block = omega arith

pub read_answer-IsReadAnswer : (block count : ℕ) → IsReadAnswer disk block count (read_answer block)
unfolding read_answer no_response
read_answer-IsReadAnswer block count = record {
  wait = 0;
  response = record {
    in_time = omega arith;
    before = λ i below. absurd (omega (arith, below));
    at = refl;
  };
  blocks = rw (shift-read_answer block) (blocks-AreBlocks block count);
}

abbrev unset : Undefined
unset = record { buf = 0; wide_mask = λ n. 0 }

pub stop_answer-IsStopAnswer : IsStopAnswer stop_answer
unfolding stop_answer shift no_response is_busy
stop_answer-IsStopAnswer = record {
  wait = 0;
  response = record {
    in_time = omega arith;
    before = λ i below. absurd (omega (arith, below));
    at = refl;
  };
  busy = 0;
  idle = record {
    in_time = omega arith;
    before = λ i below. absurd (omega (arith, below));
    at = refl;
  };
}

card_host-IsCard : IsCard card_host sd_handle Ready Open (λ d. d.sends) disk disk_size
unfolding respond obey no_response is_busy stop_answer shift
card_host-IsCard = record {
  depth = omega arith;
  size_fits = omega arith;
  whole_blocks = refl;
  are_bytes = λ a. ground arith;
  talks = record { receives = λ d n ok. (refl, refl, refl, refl) };
  reads = λ d block count last ready some inside.
      let other : ((if ltb 1 count then 0x52 else 0x51) == 0x4C) ≡ false = ground arith in
      rw (other, number_lem block) (refl, refl, read_answer-IsReadAnswer block count);
  stops = λ d ok. (refl, refl, stop_answer-IsStopAnswer);
  closes = λ d ok. (refl, refl);
}

abbrev Roomy : ℕ → ℕ → Type 0
Roomy buf len = 0x1000 ≤ buf

read_checkcrc-Reads_example :
    (Reads Ready Roomy
      (in_range 0x200 512)
      disk
      disk_size
      (read_checkcrc card_host unset sd_handle 0x200))
    × (Reads Ready Roomy
        (in_range 0x200 512)
        disk
        disk_size
        (read_ignorecrc card_host unset sd_handle 0x200))
read_checkcrc-Reads_example =
    read_checkcrc-Reads card_host-IsCard unset Roomy 0x200
      λ buf len free. (omega (arith, free), λ i below. ground (arith, free))
