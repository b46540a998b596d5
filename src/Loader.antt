-- ===== src/Loader.antt =====
-- sw/boot/zsl.c: the zero-stage loader, which copies the device tree and the firmware into DRAM.
-- Its console output is left out, and so is the switch of the global pointer round each read.
pub mod Payload
pub mod Absent
pub mod Launch
use Prim.Native.Nat.{bit_and}
use cheshire_fork.Base.{
  ℕ, ◌+◌, ◌-◌, ◌*◌, ◌%◌, ◌^◌, Option, none, some, Bool, true, false, ◌==◌, not, u64,
}
use cheshire_fork.Machine.{Run, done, fail, halt, spin, Cmd, ◌>>=◌, ◌>>◌, pure, when}
use cheshire_fork.Mmio
use cheshire_fork.Mmio.{Bus, AddressMap, get32, boot_mode, scratch_0, scratch_1, scratch_3}
use cheshire_fork.Uart.{uart_init}
use cheshire_fork.Clint.{get_core_freq}
use cheshire_fork.Reader.{Reader}
use cheshire_fork.Gpt.{Frame, Guid, PartFields, Found, find_partition}
use cheshire_fork.Gpt.Boot.{load_addr, load_len}

-- Constants of sw/include/params.h.
abbrev pub boot_zsl_dtb : ℕ
boot_zsl_dtb = 0x80800000

abbrev pub boot_zsl_fw : ℕ
boot_zsl_fw = 0x80000000

abbrev pub boot_dtb_type_guid : Guid
boot_dtb_type_guid = (0x42DE2AEFBA442F61, 0x9DCB3A5DD7E43392)

abbrev pub boot_fw_type_guid : Guid
boot_fw_type_guid = (0x4B0D3F5B99EC86DA, 0x59F8A5CFBAC44B8F)

abbrev pub baudrate : ℕ
baudrate = 115200

-- The result of the copy is not looked at.
unfoldable pub unchecked : {D : Type 0} → Run D (Unit {0}) → Run D (Unit {0})
unchecked (done a m) = done tt m
unchecked (fail c m) = done tt m
unchecked (halt m) = halt m
unchecked spin = spin

module _ {D : Type 0} (rread : Reader D) (fr : Frame) (uninit : PartFields) where
  -- The part of `load_part_or_spin` behind the search. On an error, and where no partition was
  -- found, the loader waits for interrupts for ever.
  unfoldable pub copy_found : (dst : ℕ) → Run D Found → Run D (Unit {0})
  unfolding unchecked
  copy_found dst spin = spin
  copy_found dst (fail c m) = halt m
  copy_found dst (halt m) = halt m
  copy_found dst (done found m) = copy_at found.part_idx found.range m
    where
      copy_at : Option ℕ → PartFields → Cmd D (Unit {0})
      copy_at none range m = halt m
      copy_at (some p) range m = unchecked (rread dst (load_addr range) (load_len range) m)

  -- `load_part_or_spin`. The GUID is that of the partition type.
  unfoldable pub load_part_or_spin : Guid → (dst max_lbas : ℕ) → Cmd D (Unit {0})
  unfolding copy_found
  load_part_or_spin guid dst max_lbas m =
      copy_found dst (find_partition rread fr max_lbas (some guid) none uninit m)

-- `main`: `relocate` turns the pointers in the scratch registers into a reader, `launch` is the
-- call of the firmware with the device tree's address.
unfoldable pub main :
    {D : Type 0} (bus : Bus D) (map : AddressMap) (mcycle : D → ℕ × D)
    → (relocate : (rgp read priv : ℕ) → Reader D) → (launch : (fw dtb : ℕ) → Cmd D (Unit {0}))
    → Frame
    → PartFields
    → (fuel : ℕ) → Cmd D (Unit {0})
unfolding load_part_or_spin
main bus map mcycle relocate launch fr uninit fuel = do
  bootmode ← get32 bus map.regs boot_mode
  rtc ← get32 bus map.regs Mmio.rtc_freq
  core_freq ← get_core_freq bus map.clint mcycle fuel rtc 2500
  rgp ← get32 bus map.regs scratch_3
  read ← get32 bus map.regs scratch_0
  priv ← get32 bus map.regs scratch_1
  uart_init bus map.uart core_freq baudrate
  let rread = relocate rgp (read - bit_and read 1) priv
  when (not (bit_and read 1 == 0)) (do
    load_part_or_spin rread fr uninit boot_dtb_type_guid boot_zsl_dtb 64
    load_part_or_spin rread fr uninit boot_fw_type_guid boot_zsl_fw 8192)
  launch boot_zsl_fw boot_zsl_dtb
