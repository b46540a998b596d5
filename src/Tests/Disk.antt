-- ===== src/Tests/Disk.antt =====
-- A small signed disk with two partitions, and a flash host that holds it.
use cheshire_fork.Base.{ℕ, ◌+◌, ◌≤◌, ◌<◌, ◌≡◌, refl, arith, List, [], ◌∷◌, tabulate}
use cheshire_fork.Machine.{Machine}
use cheshire_fork.Machine.Bytes.{Mem, store_bytes, load_le}
use cheshire_fork.SpiHost.{SpiHost, Segment, Reply, opcode, address, rx}
use cheshire_fork.Gpt.{Frame, HdrFields}
use cheshire_fork.Gpt.Table.{entry_at, header, IsOnDisk, IsFrame}
use cheshire_fork.Flash.{Handle}
use cheshire_fork.Flash.Reading.{IsFlash}

-- The signature, a header with the table at LBA 2 and two entries of 128 bytes; the first entry
-- covers the blocks 34 to 40, the second the blocks 50 to 60 with type GUID (1, 2).
abbrev pub disk : Mem
unfolding store_bytes
disk = store_bytes 0x200 (0x45 ∷ 0x46 ∷ 0x49 ∷ 0x20 ∷ 0x50 ∷ 0x41 ∷ 0x52 ∷ 0x54 ∷ []) (
    store_bytes 0x248 (2 ∷ 0 ∷ 0 ∷ 0 ∷ 0 ∷ 0 ∷ 0 ∷ 0 ∷ 2 ∷ 0 ∷ 0 ∷ 0 ∷ 128 ∷ 0 ∷ 0 ∷ 0 ∷ []) (
      store_bytes 0x420 (34 ∷ 0 ∷ 0 ∷ 0 ∷ 0 ∷ 0 ∷ 0 ∷ 0 ∷ 40 ∷ []) (
        store_bytes 0x480 (1 ∷ 0 ∷ 0 ∷ 0 ∷ 0 ∷ 0 ∷ 0 ∷ 0 ∷ 2 ∷ [])
          (store_bytes 0x4A0 (50 ∷ 0 ∷ 0 ∷ 0 ∷ 0 ∷ 0 ∷ 0 ∷ 0 ∷ 60 ∷ []) (λ _. 0)))))

abbrev pub disk_size : ℕ
disk_size = 0x10000

pub header-disk : header disk ≡ record { lba = 2; count = 2; size = 128 }
unfolding load_le disk
header-disk = refl

entries_in :
    (hf : HdrFields)
    → hf ≡ record { lba = 2; count = 2; size = 128 }
    → (p : ℕ) → p < hf.count
    → entry_at hf p + 48 ≤ disk_size
entries_in hf e p h = let small : p < 2 = rw e at h in rw e (omega arith)

pub disk-IsOnDisk : IsOnDisk disk disk_size
disk-IsOnDisk = record {
  addressable = omega arith;
  header_in = omega arith;
  entry_in = entries_in (header disk) header-disk;
}

abbrev pub frame : Frame
frame = record { sig = 0x100; hf = 0x110; dim = 0x120; guid = 0x130 }

-- Any address may be written.
abbrev pub Anywhere : ℕ → ℕ → Type 0
Anywhere a n = Unit {0}

abbrev pub AnyState : Unit {0} → Type 0
AnyState d = Unit {0}

pub frame-IsFrame : IsFrame Anywhere frame
frame-IsFrame = record {
  sig_free = tt;
  hf_free = tt;
  dim_free = tt;
  guid_free = tt;
  below = omega arith;
}

abbrev answer : List Segment → Reply (Unit {0})
answer (opcode op ∷ address a ∷ rx n ∷ []) = record {
  code = 0;
  received = tabulate disk a n;
  after = tt;
}
answer segs = record { code = 0; received = []; after = tt }

abbrev pub flash_host : SpiHost (Unit {0})
flash_host = record {
  num_cs = 2;
  rx_depth = 16;
  init = λ d. (0, d);
  reset = λ d. d;
  configure_cs = λ c i d. (0, d);
  enable = λ b d. d;
  output_set_enabled = λ b d. (0, d);
  transaction = λ csaat csid segs d. answer segs;
}

abbrev pub flash_handle : Handle
flash_handle = record { spi_freq = 40000000; csid = 1 }

pub flash_host-IsFlash : IsFlash flash_host 1 AnyState disk disk_size
flash_host-IsFlash = record {
  depth = omega arith;
  size_fits = omega arith;
  answers = λ d addr len ready inside. (refl, refl, tt);
}

abbrev pub machine : Machine (Unit {0})
machine = record { mem = λ _. 0; dev = tt }
