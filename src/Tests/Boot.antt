-- ===== src/Tests/Boot.antt =====
-- The boot from the small disk, through the flash, up to the next stage.
use cheshire_fork.Gpt.Table.{first_byte, byte_count}
use cheshire_fork.Base.{ℕ, ◌+◌, ◌<◌, ◌≡◌, refl, none}
use cheshire_fork.Machine.{Machine, pure}
use cheshire_fork.Machine.Returns.{Returns, returns}
use cheshire_fork.Mmio.{Bus, AddressMap}
use cheshire_fork.Gpt.{PartFields}
use cheshire_fork.Gpt.Boot.{boot_part_else_raw}
use cheshire_fork.Gpt.Handover.{IsHandover, boot_part_else_raw-next_stage}
use cheshire_fork.Flash.{single_read}
use cheshire_fork.Tests.Disk.{
  disk, frame, AnyState, frame-IsFrame, disk-IsOnDisk, flash_host, flash_handle, machine,
}
use cheshire_fork.Tests.Partitions.{is_second, room, flash-Reads, wanted}

abbrev quiet_bus : Bus (Unit {0})
quiet_bus = record {
  read8 = λ a d. (0, d);
  read32 = λ a d. (0, d);
  write8 = λ a byte d. d;
  write32 = λ a value d. d;
}

abbrev map : AddressMap
map = record { regs = 0x3000000; uart = 0x3002000; clint = 0x2040000; spm = 0x20000000 }

lens :
    (range : PartFields)
    → range ≡ record { lba_begin = 50; lba_end = 60 }
    → (first_byte range ≡ 25600) × (byte_count range ≡ 5632)
lens range e = rw e (refl, refl)

loaded :
    (m : Machine (Unit {0}))
    → IsHandover AnyState disk quiet_bus map 0x2000 0x4000 0x5000 0x20000000 96 wanted none m
    → (i : ℕ) → i < 5632
    → m.mem (0x20000000 + i) ≡ disk (25600 + i)
loaded m h i small =
    let (from, count) = lens h.range (is_second h.range h.booted) in
    rw from at (h.loaded i (rw count small))

-- The next stage finds the second partition's blocks in the scratchpad.
boot_part_else_raw-next_stage_example :
    Returns
      (λ _ m'. (i : ℕ) → i < 5632 → m'.mem (0x20000000 + i) ≡ disk (25600 + i))
      (boot_part_else_raw
        (single_read flash_host flash_handle)
        frame
        quiet_bus
        map
        (λ a. pure tt)
        0x2000
        0x4000
        0x5000
        0x20000000
        96
        wanted
        none
        machine)
boot_part_else_raw-next_stage_example =
    boot_part_else_raw-next_stage flash-Reads frame-IsFrame disk-IsOnDisk quiet_bus map
      (λ a. pure tt) 0x2000 0x4000 0x5000 0x20000000 96 wanted none
      (λ _ m'. (i : ℕ) → i < 5632 → m'.mem (0x20000000 + i) ≡ disk (25600 + i)) machine tt room
      (λ m' h. returns (loaded m' h))
