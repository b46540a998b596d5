-- ===== src/Tests/Partitions.antt =====
-- The partition search and the boot load on the small disk, through the flash.
use mathlib.Core.Bool.{false≢true}
use mathlib.Core.Path.{subst}
use cheshire_fork.Machine.{done, fail}
use cheshire_fork.Gpt.Extent.{boot_range-extent, IsReversed, load_code-overrun}
use cheshire_fork.Base.{
  ℕ, zero, suc, sym, ◌∙◌, ◌+◌, ◌*◌, ◌≤◌, ◌<◌, ◌≡◌, refl, arith, true, false, Option, none, some,
  ◌^◌, ◌==◌, [], ◌∷◌, ltb, if◌then◌else◌, ◌-◌,
}
use cheshire_fork.Machine.Bytes.{Mem, load_le, load64, store_bytes, in_range}
use cheshire_fork.Machine.Returns.{Returns, Fails, fails, returns}
use cheshire_fork.Reader.{Reads, no_scratch, Reader, IsCopied-IsRead}
use cheshire_fork.Gpt.{Guid, PartFields, find_partition, signature, HdrFields}
use cheshire_fork.Gpt.Table.{
  header, dim_of, viable, has_guid, IsFirst, first_byte, byte_count, whole, entry_at, IsOnDisk,
}
use cheshire_fork.Gpt.Find.{find_partition-IsFirst}
use cheshire_fork.Gpt.Boot.{
  boot_range, load_code, load_len, IsBootRange, IsRangeIf, load_code-IsCopied,
}
use cheshire_fork.Gpt.Bounds.{IsOrdered}
use cheshire_fork.Flash.{single_read}
use cheshire_fork.Flash.Reading.{single_read-Reads}
use cheshire_fork.Tests.Disk.{
  disk, disk_size, frame, Anywhere, AnyState, frame-IsFrame, disk-IsOnDisk, flash_host,
  flash_handle, flash_host-IsFlash, machine,
}

pub flash-Reads :
    Reads AnyState Anywhere no_scratch disk disk_size (single_read flash_host flash_handle)
flash-Reads = single_read-Reads flash_handle flash_host-IsFlash Anywhere (omega arith)

single_read-Reads_example :
    Reads AnyState Anywhere no_scratch disk disk_size (single_read flash_host flash_handle)
single_read-Reads_example = single_read-Reads flash_handle flash_host-IsFlash Anywhere (omega arith)

abbrev pub wanted : Option Guid
wanted = some (1, 2)

find_partition-IsFirst_example :
    Returns
      (λ found m'. AnyState m'.dev × IsFirst disk (header disk) 96 wanted none (whole 96) found)
      (find_partition (single_read flash_host flash_handle) frame 96 wanted none (whole 96) machine)
find_partition-IsFirst_example =
    find_partition-IsFirst flash-Reads frame-IsFrame disk-IsOnDisk 96 wanted none (whole 96) machine
      tt

signed : (load64 disk 0x200 == signature) ≡ true
unfolding load_le store_bytes
signed = refl

abbrev second : PartFields
second = record { lba_begin = 50; lba_end = 60 }

viable_0 : viable disk (header disk) 96 wanted none 0 ≡ false
unfolding viable load_le store_bytes has_guid
viable_0 = refl

viable_1 : viable disk (header disk) 96 wanted none 1 ≡ true
unfolding viable load_le store_bytes has_guid
viable_1 = refl

dim_1 : dim_of disk (header disk) 1 ≡ second
unfolding load_le store_bytes
dim_1 = refl

count-disk : (header disk).count ≡ 2
unfolding load_le store_bytes
count-disk = refl

-- The boot takes the second partition, for its type GUID.
pub is_second : (range : PartFields) → IsBootRange disk 96 wanted none range → range ≡ second
is_second range is = let (found, first, e) = chosen in e ∙ go found.part_idx found.range first
  where
    chosen : IsRangeIf true disk 96 wanted none range
    chosen = subst (λ b. IsRangeIf b disk 96 wanted none range) signed is

    go :
        (i : Option ℕ) (r : PartFields)
        → IsFirst disk (header disk) 96 wanted none (whole 96) (record { part_idx = i; range = r })
        → r ≡ second
    go none r (all, _, _) =
        absurd (false≢true (sym (all 1 (rw count-disk (omega arith))) ∙ viable_1))
    go (some zero) r (h, v, _, e) = absurd (false≢true (sym viable_0 ∙ v))
    go (some (suc zero)) r (h, v, _, e) = e ∙ dim_1
    go (some (suc (suc p))) r (h, v, _, e) =
        let small : suc (suc p) < 2 = rw count-disk at h in absurd (omega arith)

pub room :
    (range : PartFields)
    → IsBootRange disk 96 wanted none range
    → (first_byte range + byte_count range ≤ disk_size)
      × (0x2000_0000 + byte_count range ≤ 2 ^ 64)
      × Anywhere 0x2000_0000 (byte_count range)
room range is = rw (is_second range is) (omega arith, omega arith, tt)

load_code-IsCopied_example :
    Returns
      (λ range m'.
        AnyState m'.dev
        × IsBootRange disk 96 wanted none range
        × ((i : ℕ) → i < byte_count range → m'.mem (0x2000_0000 + i) ≡ disk (first_byte range + i)))
      (load_code (single_read flash_host flash_handle) frame 0x2000_0000 96 wanted none machine)
load_code-IsCopied_example =
    load_code-IsCopied flash-Reads frame-IsFrame disk-IsOnDisk 0x2000_0000 96 wanted none machine tt
      room

below_one : (q : ℕ) → q < 1 → viable disk (header disk) 96 wanted none q ≡ false
below_one zero h = viable_0
below_one (suc q) h = absurd (omega arith)

first-IsOrdered : IsOrdered 96 (dim_of disk (header disk) 0)
unfolding load_le store_bytes
first-IsOrdered = omega arith

boot_range-extent_example :
    Returns
      (λ range m'. AnyState m'.dev × (load_len range ≤ 512 * 96))
      (boot_range (single_read flash_host flash_handle) frame 96 wanted none machine)
boot_range-extent_example =
    boot_range-extent flash-Reads frame-IsFrame disk-IsOnDisk 96 wanted none machine tt
      (omega arith) (omega arith) first-IsOrdered

-- A signed disk whose only entry runs from block 100 back to block 10.
abbrev bad_disk : Mem
unfolding store_bytes
bad_disk = store_bytes 0x200 (0x45 ∷ 0x46 ∷ 0x49 ∷ 0x20 ∷ 0x50 ∷ 0x41 ∷ 0x52 ∷ 0x54 ∷ []) (
    store_bytes 0x248 (2 ∷ 0 ∷ 0 ∷ 0 ∷ 0 ∷ 0 ∷ 0 ∷ 0 ∷ 1 ∷ 0 ∷ 0 ∷ 0 ∷ 128 ∷ 0 ∷ 0 ∷ 0 ∷ [])
      (store_bytes 0x420 (100 ∷ 0 ∷ 0 ∷ 0 ∷ 0 ∷ 0 ∷ 0 ∷ 0 ∷ 10 ∷ []) (λ _. 0)))

bad_signed : (load64 bad_disk 0x200 == signature) ≡ true
unfolding load_le store_bytes
bad_signed = refl

bad_count : (header bad_disk).count ≡ 1
unfolding load_le store_bytes
bad_count = refl

bad_viable_0 : viable bad_disk (header bad_disk) 96 wanted none 0 ≡ false
unfolding viable load_le store_bytes has_guid
bad_viable_0 = refl

bad_none-viable :
    (q : ℕ)
    → q < (header bad_disk).count
    → viable bad_disk (header bad_disk) 96 wanted none q ≡ false
bad_none-viable zero h = bad_viable_0
bad_none-viable (suc q) h = let small : suc q < 1 = rw bad_count at h in absurd (omega arith)

backwards :
    ((dim_of bad_disk (header bad_disk) 0).lba_end + 1
      < (dim_of bad_disk (header bad_disk) 0).lba_begin)
    × ((dim_of bad_disk (header bad_disk) 0).lba_begin
        ≤ (dim_of bad_disk (header bad_disk) 0).lba_end + 2 ^ 53)
    × ((dim_of bad_disk (header bad_disk) 0).lba_begin + 96 ≤ 2 ^ 64)
unfolding load_le store_bytes
backwards = omega arith

bad_disk-IsReversed : IsReversed bad_disk 96 wanted none
bad_disk-IsReversed = record {
  signed = bad_signed;
  entries = rw bad_count (omega arith);
  none_viable = bad_none-viable;
  before = backwards.0;
  near = backwards.1;
  fits = backwards.2;
}

-- A reader of this disk that refuses to read more than 96 blocks.
abbrev limited_read : Reader (Unit {0})
limited_read buf addr len m =
    if ltb 49152 len
    then fail 9 m
    else done tt (record m {
      mem = λ q. if in_range buf len q then bad_disk (addr + (q - buf)) else m.mem q;
    })

limited_read-Reads : Reads AnyState Anywhere no_scratch bad_disk 0x5000 limited_read
limited_read-Reads = record {
  reads = λ buf addr len m ready inside space free.
      let short : ltb 49152 len ≡ false = ground arith in
      rw short (returns (tt, IsCopied-IsRead bad_disk addr buf len m.mem _ λ q. refl));
}

bad_header : header bad_disk ≡ record { lba = 2; count = 1; size = 128 }
unfolding load_le store_bytes
bad_header = refl

bad_entries_in :
    (hf : HdrFields)
    → hf ≡ record { lba = 2; count = 1; size = 128 }
    → (p : ℕ) → p < hf.count
    → entry_at hf p + 48 ≤ 0x5000
bad_entries_in hf e p h = let small : p < 1 = rw e at h in rw e (omega arith)

bad_disk-IsOnDisk : IsOnDisk bad_disk 0x5000
bad_disk-IsOnDisk = record {
  addressable = omega arith;
  header_in = omega arith;
  entry_in = bad_entries_in (header bad_disk) bad_header;
}

load_code-overrun_example :
    Fails 9 (λ m'. Unit {0}) (load_code limited_read frame 0x2000_0000 96 wanted none machine)
load_code-overrun_example =
    load_code-overrun limited_read-Reads frame-IsFrame bad_disk-IsOnDisk 0x2000_0000 96 wanted none
      9 (λ m'. Unit {0}) machine tt (omega arith) (omega arith) bad_disk-IsReversed
      (λ addr len m' ready long.
        let refused : ltb 49152 len ≡ true = ground (arith, long) in rw refused (fails tt))
