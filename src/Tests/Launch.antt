-- ===== src/Tests/Launch.antt =====
-- The loader on a paced core, behind a boot from a disk with a device tree and a firmware.
use cheshire_fork.Base.{
  ℕ, zero, suc, ◌+◌, ◌/◌, ◌≤◌, ◌<◌, ◌≡◌, refl, arith, false, none, some, [], ◌∷◌, ◌==◌,
  if◌then◌else◌, tabulate,
}
use cheshire_fork.Machine.{Machine, done, on_dev}
use cheshire_fork.Machine.Bytes.{Mem, store_bytes, load_le, store_bytes-tabulate}
use cheshire_fork.Machine.Returns.{Returns, returns}
use cheshire_fork.Mmio.{Bus, AddressMap}
use cheshire_fork.Reader.{Reader, Reads, no_scratch, IsCopied-IsRead}
use cheshire_fork.Clint.{mtime_high}
use cheshire_fork.Clint.Pace.{IsPaced}
use cheshire_fork.Clint.Straps.{IsStrapped}
use cheshire_fork.Gpt.{HdrFields, PartFields}
use cheshire_fork.Gpt.Table.{
  entry_at, header, dim_of, viable, has_guid, IsOnDisk, first_byte, byte_count,
}
use cheshire_fork.Loader
use cheshire_fork.Loader.{boot_zsl_dtb, boot_zsl_fw, boot_dtb_type_guid, boot_fw_type_guid}
use cheshire_fork.Loader.Payload.{IsLoaded}
use cheshire_fork.Loader.Launch.{IsHandedOver, IsPlaced, IsSource, main-launch}
use cheshire_fork.Tests.Disk.{disk_size, frame, Anywhere, frame-IsFrame}

-- The first entry is the device tree's, blocks 34 to 40, the second the firmware's, 50 to 60.
abbrev disk : Mem
unfolding store_bytes
disk = store_bytes 0x248 (2 ∷ 0 ∷ 0 ∷ 0 ∷ 0 ∷ 0 ∷ 0 ∷ 0 ∷ 2 ∷ 0 ∷ 0 ∷ 0 ∷ 128 ∷ 0 ∷ 0 ∷ 0 ∷ []) (
    store_bytes 0x400
      (0x61 ∷ 0x2F ∷ 0x44 ∷ 0xBA ∷ 0xEF ∷ 0x2A ∷ 0xDE ∷ 0x42 ∷ 0x92 ∷ 0x33 ∷ 0xE4 ∷ 0xD7 ∷ 0x5D
        ∷ 0x3A ∷ 0xCB ∷ 0x9D ∷ [])
      (store_bytes 0x420 (34 ∷ 0 ∷ 0 ∷ 0 ∷ 0 ∷ 0 ∷ 0 ∷ 0 ∷ 40 ∷ []) (
        store_bytes 0x480
          (0xDA ∷ 0x86 ∷ 0xEC ∷ 0x99 ∷ 0x5B ∷ 0x3F ∷ 0x0D ∷ 0x4B ∷ 0x8F ∷ 0x4B ∷ 0xC4 ∷ 0xBA ∷ 0xCF
            ∷ 0xA5 ∷ 0xF8 ∷ 0x59 ∷ [])
          (store_bytes 0x4A0 (50 ∷ 0 ∷ 0 ∷ 0 ∷ 0 ∷ 0 ∷ 0 ∷ 0 ∷ 60 ∷ []) (λ _. 0)))))

header-disk : header disk ≡ record { lba = 2; count = 2; size = 128 }
unfolding load_le disk
header-disk = refl

entries_in :
    (hf : HdrFields)
    → hf ≡ record { lba = 2; count = 2; size = 128 }
    → (p : ℕ) → p < hf.count
    → entry_at hf p + 48 ≤ disk_size
entries_in hf e p h = let small : p < 2 = rw e at h in rw e (omega arith)

disk-IsOnDisk : IsOnDisk disk disk_size
disk-IsOnDisk = record {
  addressable = omega arith;
  header_in = omega arith;
  entry_in = entries_in (header disk) header-disk;
}

table_count : (header disk).count ≡ 2
unfolding load_le store_bytes
table_count = refl

tree_dim : dim_of disk (header disk) 0 ≡ record { lba_begin = 34; lba_end = 40 }
unfolding load_le store_bytes
tree_dim = refl

firmware_dim : dim_of disk (header disk) 1 ≡ record { lba_begin = 50; lba_end = 60 }
unfolding load_le store_bytes
firmware_dim = refl

in_first_blocks :
    (range : PartFields) (first last : ℕ)
    → range ≡ record { lba_begin = first; lba_end = last }
    → first ≤ last
    → last < 100
    → first_byte range + byte_count range ≤ disk_size
in_first_blocks range first last e order small = rw e (omega arith)

tree-IsSource : IsSource disk disk_size 64 boot_dtb_type_guid 0
unfolding viable load_le store_bytes has_guid
tree-IsSource = record {
  target = record {
    in_table = rw table_count (omega arith);
    chosen = refl;
    first = λ q h. absurd (omega arith);
  };
  on_disk =
      in_first_blocks (dim_of disk (header disk) 0) 34 40 tree_dim (omega arith) (omega arith);
}

firmware-IsSource : IsSource disk disk_size 8192 boot_fw_type_guid 1
unfolding viable load_le store_bytes has_guid
firmware-IsSource = record {
  target = record {
    in_table = rw table_count (omega arith);
    chosen = refl;
    first = λ q h. only q h;
  };
  on_disk =
      in_first_blocks (dim_of disk (header disk) 1) 50 60 firmware_dim (omega arith) (omega arith);
}
  where
    only : (q : ℕ) → q < 1 → viable disk (header disk) 8192 (some boot_fw_type_guid) none q ≡ false
    only zero h = refl
    only (suc q) h = absurd (omega arith)

-- The state is the cycle counter, and where the firmware was launched.
record Devices : Type 0 where
  now : ℕ
  launched : ℕ × ℕ

abbrev after : Devices → Devices
after d = record d { now = d.now + 10 }

abbrev registers : ℕ → Devices → ℕ
registers a d =
    if a == 0x3000040
    then 2
    else if a == 0x3000044
    then 32768
    else if a == 0x300000C
    then 0x5000
    else if a == 0x3000000
    then 0x2101
    else if a == 0x3000004
    then 0x4000
    else if a == 0x2040000 + mtime_high
    then 0
    else d.now / 1600

abbrev bus : Bus Devices
bus = record {
  read8 = λ a d. (0, d);
  read32 = λ a d. (registers a d, after d);
  write8 = λ a byte d. d;
  write32 = λ a value d. d;
}

abbrev map : AddressMap
map = record { regs = 0x3000000; uart = 0x3002000; clint = 0x2040000; spm = 0x20000000 }

abbrev AnyState : Devices → Type 0
AnyState d = Unit {0}

abbrev read : Reader Devices
read buf addr len m = done tt (record m { mem = store_bytes buf (tabulate disk addr len) m.mem })

read-Reads : Reads AnyState Anywhere no_scratch disk disk_size read
read-Reads = record {
  reads = λ buf addr len m ready inside below free. returns (
    tt,
    IsCopied-IsRead disk addr buf len m.mem _ (store_bytes-tabulate disk addr buf len m.mem),
  );
}

frame-IsPlaced : IsPlaced Anywhere no_scratch frame
frame-IsPlaced = record {
  stack = frame-IsFrame;
  stack_low = omega arith;
  scratch_low = λ q h. refl;
  dram_free = λ buf len h. tt;
}

bus-IsPaced : IsPaced bus 0x2040000 (λ d. (d.now, after d)) AnyState (λ d. d.now) 1600 10
bus-IsPaced = record {
  quick = omega arith;
  high = λ d k early. (refl, omega arith, tt);
  low = λ d k early. (refl, omega arith, tt);
  counter = λ d k early. (refl, omega arith, tt);
}

bus-IsStrapped : IsStrapped bus map AnyState (λ d. d.now) 1600 10 2 32768
bus-IsStrapped = record {
  mode_shown = λ d k early. (refl, omega arith, tt);
  rtc_shown = λ d k early. (refl, omega arith, tt);
}

bus-IsHandedOver : IsHandedOver bus map AnyState AnyState 0x5000 0x2101 0x4000
bus-IsHandedOver = record {
  from_disk = refl;
  rgp_shown = λ d k. (refl, tt);
  read_shown = λ d k. (refl, tt);
  priv_shown = λ d k. (refl, tt);
  uart_apart = λ offset byte d k. tt;
  readable = λ d k. tt;
}

abbrev entry : Machine Devices
entry = record { mem = λ a. 0; dev = record { now = 5000; launched = (0, 0) } }

main-launch_example :
    Returns
      (λ _ m'.
        (m'.dev.launched ≡ (boot_zsl_fw, boot_zsl_dtb))
        × IsLoaded disk 0 boot_zsl_dtb m'.mem
        × IsLoaded disk 1 boot_zsl_fw m'.mem)
      (Loader.main bus map
        (λ d. (d.now, after d))
        (λ rgp at priv. read)
        (λ fw dtb. on_dev (λ d. (tt, record d { launched = (fw, dtb) })))
        frame
        (record { lba_begin = 0; lba_end = 0 })
        30000
        entry)
main-launch_example =
    main-launch read-Reads frame-IsPlaced disk-IsOnDisk (record { lba_begin = 0; lba_end = 0 })
      tree-IsSource firmware-IsSource bus-IsPaced bus-IsStrapped bus-IsHandedOver
      (λ rgp at priv. read) (λ fw dtb. on_dev (λ d. (tt, record d { launched = (fw, dtb) }))) 30000
      (λ _ m'.
        (m'.dev.launched ≡ (boot_zsl_fw, boot_zsl_dtb))
        × IsLoaded disk 0 boot_zsl_dtb m'.mem
        × IsLoaded disk 1 boot_zsl_fw m'.mem)
      entry refl tt
      (record {
        some = omega arith;
        early = omega arith;
        small = omega arith;
        fits = omega arith;
        enough = omega arith;
      })
      (λ m' ready tree firmware. returns (refl, tree, firmware))
