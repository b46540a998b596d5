-- ===== src/Tests/Storage.antt =====
-- The storage drivers and the loader on small devices.
use cheshire_fork.Loader.Absent.{load_part_or_spin-absent}
use cheshire_fork.Base.{
  ℕ, zero, suc, ◌+◌, ◌≤◌, ◌<◌, ◌≡◌, refl, arith, true, false, [], ◌∷◌, ltb, if◌then◌else◌, none,
  some, Bool,
}
use cheshire_fork.Machine.{done, check_assert, check_call, Machine, fail}
use cheshire_fork.Machine.Bytes.{store_bytes, load_le, in_range}
use cheshire_fork.Machine.Returns.{Returns, Halts}
use cheshire_fork.Reader.{Reader, Reads, no_scratch, Beside}
use cheshire_fork.SpiHost.{SpiHost, transact}
use cheshire_fork.Gpt.{Guid, HdrFields, PartFields}
use cheshire_fork.Gpt.Boot.{load_addr, load_len}
use cheshire_fork.Gpt.Table.{entry_at, header, dim_of, viable, has_guid, IsOnDisk, IsFrame}
use cheshire_fork.Flash.{single_flash, single_read}
use cheshire_fork.Flash.Reading.{single_read-Reads}
use cheshire_fork.Flash.Writing.{Alike, single_flash-IsBlind}
use cheshire_fork.SdCard
use cheshire_fork.SdCard.{r1, xfer_csaat, poll, csfree}
use cheshire_fork.SdCard.Command.{Undefined, cmd, cmd_check}
use cheshire_fork.SdCard.Checks.{cmd_check-r1}
use cheshire_fork.Loader.{load_part_or_spin}
use cheshire_fork.Loader.Payload.{IsTarget, load_part_or_spin-ignores_error}
use cheshire_fork.Tests.Disk.{
  disk, disk_size, frame, Anywhere, AnyState, frame-IsFrame, flash_host, flash_handle,
  flash_host-IsFlash, header-disk, machine, disk-IsOnDisk,
}

-- A host that counts its transactions.
abbrev counting_host : SpiHost ℕ
counting_host = record {
  num_cs = 2;
  rx_depth = 16;
  init = λ d. (0, d);
  reset = λ d. d;
  configure_cs = λ c i d. (0, d);
  enable = λ b d. d;
  output_set_enabled = λ b d. (0, d);
  transaction = λ csaat csid segs d. record { code = 0; received = 0 ∷ []; after = suc d };
}

abbrev memory : (byte : ℕ) → Machine ℕ
memory byte = record { mem = λ _. byte; dev = 7 }

single_flash-IsBlind_example :
    Alike
      (single_flash counting_host flash_handle 5 0x1000 3 2 (memory 0x55))
      (single_flash counting_host flash_handle 5 0x2000 3 2 (memory 0xAA))
single_flash-IsBlind_example =
    single_flash-IsBlind counting_host flash_handle 5 0x1000 0x2000 3 2 (memory 0x55) (memory 0xAA)
      refl

-- The second partition of the small disk is the target.
abbrev wanted : Guid
wanted = (1, 2)

target_dim : dim_of disk (header disk) 1 ≡ record { lba_begin = 50; lba_end = 60 }
unfolding load_le store_bytes
target_dim = refl

second_addr :
    (range : PartFields)
    → range ≡ record { lba_begin = 50; lba_end = 60 }
    → (load_addr range ≡ 25600) × (load_len range ≡ 5632)
unfolding load_addr load_len
second_addr range e = rw e (refl, refl)

target_addr : load_addr (dim_of disk (header disk) 1) ≡ 25600
target_addr = (second_addr (dim_of disk (header disk) 1) target_dim).0

target_len : load_len (dim_of disk (header disk) 1) ≡ 5632
target_len = (second_addr (dim_of disk (header disk) 1) target_dim).1

table_count : (header disk).count ≡ 2
unfolding load_le store_bytes
table_count = refl

second-IsTarget : IsTarget disk 64 wanted 1
unfolding viable load_le store_bytes has_guid
second-IsTarget = record {
  in_table = rw table_count (omega arith);
  chosen = refl;
  first = λ q h. only q h;
}
  where
    only : (q : ℕ) → q < 1 → viable disk (header disk) 64 (some wanted) none q ≡ false
    only zero h = refl
    only (suc q) h = absurd (omega arith)

flash-Reads :
    Reads AnyState Anywhere no_scratch disk disk_size (single_read flash_host flash_handle)
flash-Reads = single_read-Reads flash_handle flash_host-IsFlash Anywhere (omega arith)

abbrev unset : PartFields
unset = record { lba_begin = 0; lba_end = 0 }

-- The loader stops on the small disk, which has two partitions but none of this type, and the DRAM
-- is as it was.
abbrev unknown : Guid
unknown = (7, 7)

abbrev dram : ℕ → Bool
dram = in_range 0x80000000 0x100000

none-viable :
    (q : ℕ) → q < (header disk).count → viable disk (header disk) 64 (some unknown) none q ≡ false
unfolding viable load_le store_bytes has_guid
none-viable zero h = refl
none-viable (suc zero) h = refl
none-viable (suc (suc q)) h =
    let few : suc (suc q) < 2 = rw table_count at h in absurd (omega arith)

frame-Beside : IsFrame (Beside flash-Reads dram) frame
frame-Beside = record {
  sig_free = (tt, λ q h. ground (arith, h));
  hf_free = (tt, λ q h. ground (arith, h));
  dim_free = (tt, λ q h. ground (arith, h));
  guid_free = (tt, λ q h. ground (arith, h));
  below = omega arith;
}

load_part_or_spin-absent_example :
    Halts
      (λ m'. AnyState m'.dev × ((q : ℕ) → dram q ≡ true → m'.mem q ≡ machine.mem q))
      (load_part_or_spin
        (single_read flash_host flash_handle)
        frame
        unset
        unknown
        0x80000000
        64
        machine)
load_part_or_spin-absent_example =
    load_part_or_spin-absent flash-Reads disk-IsOnDisk unset dram unknown 0x80000000 64 machine
      (λ q h. refl) frame-Beside tt none-viable

-- A flash of which only the first 0x5000 bytes can be read.
abbrev broken_read : Reader (Unit {0})
broken_read buf addr len =
    if ltb 0x5000 (addr + len)
    then (λ m. fail 5 m)
    else single_read flash_host flash_handle buf addr len

broken-Reads : Reads AnyState Anywhere no_scratch disk 0x5000 broken_read
broken-Reads = record {
  reads = λ buf addr len m ready inside space free.
      let readable : ltb 0x5000 (addr + len) ≡ false = ground arith in
      rw readable (flash-Reads.reads buf addr len m ready (omega arith) space free);
}

entries_in :
    (hf : HdrFields)
    → hf ≡ record { lba = 2; count = 2; size = 128 }
    → (p : ℕ) → p < hf.count
    → entry_at hf p + 48 ≤ 0x5000
entries_in hf e p h = let small : p < 2 = rw e at h in rw e (omega arith)

disk-IsOnDisk_broken : IsOnDisk disk 0x5000
disk-IsOnDisk_broken = record {
  addressable = omega arith;
  header_in = omega arith;
  entry_in = entries_in (header disk) header-disk;
}

load_part_or_spin-ignores_error_example :
    Returns
      (λ _ m'. AnyState m'.dev)
      (load_part_or_spin broken_read frame unset wanted 0x80000000 64 machine)
load_part_or_spin-ignores_error_example =
    load_part_or_spin-ignores_error broken-Reads frame-IsFrame disk-IsOnDisk_broken unset wanted
      0x80000000 64 1 5 machine tt second-IsTarget fails
  where
    fails :
        (m' : Machine (Unit {0}))
        → AnyState m'.dev
        → broken_read 0x80000000
            (load_addr (dim_of disk (header disk) 1))
            (load_len (dim_of disk (header disk) 1))
            m'
          ≡ fail 5 m'
    fails m' ready = rw (target_addr, target_len) refl

abbrev sdcard : SdCard.Handle
sdcard = record { spi_freq = 24000000; csid = 0; csid_dummy = 1 }

abbrev undefined : Undefined
undefined = record { buf = 0x1234; wide_mask = λ bits. 0 }

cmd-counting_host :
    cmd counting_host sdcard 0x950000000040 r1 false (memory 0)
    ≡ done (0 ∷ []) (record { mem = λ _. 0; dev = 10 })
unfolding cmd xfer_csaat check_assert transact check_call poll csfree
cmd-counting_host = refl

-- The reset command expects 1, and the card answers 0.
cmd_check-r1_example :
    cmd_check counting_host sdcard undefined 0x950000000040 r1 true 1 (memory 0)
    ≡ done tt (record { mem = λ _. 0; dev = 10 })
cmd_check-r1_example =
    cmd_check-r1 counting_host sdcard undefined 0x950000000040 1 0 (memory 0)
      (record { mem = λ _. 0; dev = 10 }) cmd-counting_host (omega arith) (omega arith)
