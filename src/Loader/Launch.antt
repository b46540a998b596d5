-- ===== src/Loader/Launch.antt =====
-- `main` of sw/boot/zsl.c behind a boot from a disk.
use Prim.Native.Nat.{bit_and}
use cheshire_fork.Base.{
  ℕ, ◌+◌, ◌-◌, ◌*◌, ◌^◌, ◌≤◌, ◌≡◌, ◌∙◌, refl, arith, Bool, false, not, ◌==◌, some, none,
}
use cheshire_fork.Machine.{Machine, Cmd, ◌>>=◌, ◌>>◌, when}
use cheshire_fork.Machine.Bytes.{Mem, in_range}
use cheshire_fork.Machine.Returns
use cheshire_fork.Machine.Returns.{Returns, returns}
use cheshire_fork.Mmio.{Bus, AddressMap, get32, scratch_0, scratch_1, scratch_3}
use cheshire_fork.Reader.{Reader, Reads, Reads-Serves, Reads-Serves-Around, Beside}
use cheshire_fork.Uart.{uart_init}
use cheshire_fork.Uart.Setup.{uart_init_keeps}
use cheshire_fork.Clint.Pace.{IsPaced}
use cheshire_fork.Clint.Straps.{IsStrapped, IsMeasurable, measure_lem}
use cheshire_fork.Gpt.{Frame, PartFields}
use cheshire_fork.Gpt.Table.{header, first_byte, byte_count, dim_of, IsOnDisk, IsFrame}
use cheshire_fork.Gpt.Bounds.{viable-byte_count}
use cheshire_fork.Loader
use cheshire_fork.Loader.{
  boot_zsl_dtb, boot_zsl_fw, boot_dtb_type_guid, boot_fw_type_guid, baudrate, load_part_or_spin,
}
use cheshire_fork.Loader.Payload.{IsTarget, IsLoaded, load_lem}

-- The scratch registers as the boot ROM leaves them behind a boot from a disk, and a UART and
-- registers that the start of the loader does not disturb.
pub record IsHandedOver {D : Type 0} (bus : Bus D) (map : AddressMap) (Keep Ready : D → Type 0)
    (rgp read priv : ℕ) : Type 0 where
  pub from_disk : bit_and read 1 ≡ 1
  pub rgp_shown :
      (d : D) → Keep d → (let r = bus.read32 (map.regs + scratch_3) d in (r.0 ≡ rgp) × Keep r.1)
  pub read_shown :
      (d : D) → Keep d → (let r = bus.read32 (map.regs + scratch_0) d in (r.0 ≡ read) × Keep r.1)
  pub priv_shown :
      (d : D) → Keep d → (let r = bus.read32 (map.regs + scratch_1) d in (r.0 ≡ priv) × Keep r.1)
  pub uart_apart : (offset byte : ℕ) (d : D) → Keep d → Keep (bus.write8 (map.uart + offset) byte d)
  pub readable : (d : D) → Keep d → Ready d

-- The loader's stack slots and its reader's own memory lie below the DRAM, where its buffers may be
-- read into.
pub record IsPlaced (Free : ℕ → ℕ → Type 0) (Scratch : ℕ → Bool) (fr : Frame) : Type 0 where
  pub stack : IsFrame Free fr
  pub stack_low :
      (fr.sig + 8 ≤ boot_zsl_fw)
      × (fr.hf + 16 ≤ boot_zsl_fw)
      × (fr.dim + 16 ≤ boot_zsl_fw)
      × (fr.guid + 16 ≤ boot_zsl_fw)
  pub scratch_low : (q : ℕ) → boot_zsl_fw ≤ q → Scratch q ≡ false
  pub dram_free : (buf len : ℕ) → boot_zsl_fw ≤ buf → Free buf len

-- Partition `p` is the one that the loader takes, and lies on the disk.
pub record IsSource (disk : Mem) (size max_lbas : ℕ) (guid : ℕ × ℕ) (p : ℕ) : Type 0 where
  pub target : IsTarget disk max_lbas guid p
  pub on_disk :
      first_byte (dim_of disk (header disk) p) + byte_count (dim_of disk (header disk) p) ≤ size

source-short :
    {disk : Mem} {size max_lbas : ℕ} {guid : ℕ × ℕ} {p : ℕ}
    → IsSource disk size max_lbas guid p
    → max_lbas ≤ 2 ^ 54
    → byte_count (dim_of disk (header disk) p) ≤ 512 * max_lbas
source-short {disk} {size} {max_lbas} {guid} {p} s small =
    viable-byte_count disk (header disk) max_lbas (some guid) none p small s.target.chosen

module _ {D : Type 0} {Ready : D → Type 0} {Free : ℕ → ℕ → Type 0} {Scratch : ℕ → Bool} {disk : Mem}
    {size : ℕ} {rread : Reader D} (rs : Reads Ready Free Scratch disk size rread) {fr : Frame}
    (ok : IsPlaced Free Scratch fr) (on : IsOnDisk disk size) (uninit : PartFields) {dtb fw : ℕ}
    (tree : IsSource disk size 64 boot_dtb_type_guid dtb)
    (firmware : IsSource disk size 8192 boot_fw_type_guid fw) where
  -- The bytes of the device tree.
  abbrev tree_bytes : ℕ → Bool
  tree_bytes = in_range boot_zsl_dtb (byte_count (dim_of disk (header disk) dtb))

  abbrev tree_short : byte_count (dim_of disk (header disk) dtb) ≤ 512 * 64
  tree_short = source-short tree (omega arith)

  stack-Beside : IsFrame (Beside rs tree_bytes) fr
  stack-Beside = record {
    sig_free = (ok.stack.sig_free, λ q inside. ground (arith, ok.stack_low, inside));
    hf_free = (ok.stack.hf_free, λ q inside. ground (arith, ok.stack_low, inside));
    dim_free = (ok.stack.dim_free, λ q inside. ground (arith, ok.stack_low, inside));
    guid_free = (ok.stack.guid_free, λ q inside. ground (arith, ok.stack_low, inside));
    below = ok.stack.below;
  }

  -- The device tree and then the firmware: the first is still there behind the second.
  loads_lem :
      (m : Machine D)
      → Ready m.dev
      → Returns
          (λ _ m'.
            Ready m'.dev
            × IsLoaded disk dtb boot_zsl_dtb m'.mem
            × IsLoaded disk fw boot_zsl_fw m'.mem)
          ((load_part_or_spin rread fr uninit boot_dtb_type_guid boot_zsl_dtb 64
              >> load_part_or_spin rread fr uninit boot_fw_type_guid boot_zsl_fw 8192)
            m)
  loads_lem m ready =
      let fw_short = source-short firmware (omega arith) in
      Returns.bind
        (load_lem (Reads-Serves rs) ok.stack on uninit boot_dtb_type_guid boot_zsl_dtb 64 dtb m
          ready tree.target tree.on_disk (omega (arith, tree_short))
          (ok.dram_free boot_zsl_dtb _ (omega arith)))
        λ _ m1 (ready1, loaded1).
          Returns.mono
            (load_lem
              (Reads-Serves-Around rs tree_bytes m1.mem
                (λ q inside. ok.scratch_low q (ground (arith, inside))))
              stack-Beside on uninit boot_fw_type_guid boot_zsl_fw 8192 fw m1
              (ready1, λ q inside. refl) firmware.target firmware.on_disk (omega (arith, fw_short))
              (
                ok.dram_free boot_zsl_fw _ (omega arith),
                λ q inside. ground (arith, fw_short, inside),
              ))
            λ _ m2 ((ready2, same), loaded2). (
              ready2,
              (λ i below. same (boot_zsl_dtb + i) (ground (arith, below)) ∙ loaded1 i below),
              loaded2,
            )

  module _ {bus : Bus D} {map : AddressMap} {mcycle : D → ℕ × D} {Keep : D → Type 0}
      {cycles : D → ℕ} {period step mode rtc rgp read priv : ℕ}
      (pace : IsPaced bus map.clint mcycle Keep cycles period step)
      (straps : IsStrapped bus map Keep cycles period step mode rtc)
      (handed : IsHandedOver bus map Keep Ready rgp read priv) where
    -- The code behind the measurement.
    abbrev after :
        (relocate : (rgp read priv : ℕ) → Reader D) (launch : (fw dtb : ℕ) → Cmd D (Unit {0}))
        → (mode rtc freq : ℕ) → Cmd D (Unit {0})
    after relocate launch mode rtc freq = do
      rgp ← get32 bus map.regs scratch_3
      read ← get32 bus map.regs scratch_0
      priv ← get32 bus map.regs scratch_1
      uart_init bus map.uart freq baudrate
      let reader = relocate rgp (read - bit_and read 1) priv
      when (not (bit_and read 1 == 0)) (do
        load_part_or_spin reader fr uninit boot_dtb_type_guid boot_zsl_dtb 64
        load_part_or_spin reader fr uninit boot_fw_type_guid boot_zsl_fw 8192)
      launch boot_zsl_fw boot_zsl_dtb

    -- The loader behind a boot from a disk with a partition table: if the reader that the scratch
    -- registers give reads the disk, the first device tree partition of at most 64 blocks and the
    -- first firmware partition of at most 8192 lie on it, the stack lies below the DRAM, and the
    -- frequency can be measured, then the firmware is launched with both partitions in place, so that
    -- whatever it guarantees from there, the loader guarantees.
    pub main-launch :
        (relocate : (rgp read priv : ℕ) → Reader D) (launch : (fw dtb : ℕ) → Cmd D (Unit {0}))
        (fuel : ℕ) (Q : Unit {0} → Machine D → Type 0) (m : Machine D)
        → relocate rgp (read - 1) priv ≡ rread
        → Keep m.dev
        → IsMeasurable rtc period step (cycles m.dev) fuel
        → ((m' : Machine D)
            → Ready m'.dev
            → IsLoaded disk dtb boot_zsl_dtb m'.mem
            → IsLoaded disk fw boot_zsl_fw m'.mem
            → Returns Q (launch boot_zsl_fw boot_zsl_dtb m'))
        → Returns Q (Loader.main bus map mcycle relocate launch fr uninit fuel m)
    unfolding Loader.main get32
    main-launch relocate launch fuel Q m same keep can enter =
        measure_lem pace straps (after relocate launch) (Returns Q) m keep can
          λ f m1 near keep1 same_mem.
            let (e1, kept1) = handed.rgp_shown m1.dev keep1 in
            let (e2, kept2) = handed.read_shown _ kept1 in
            let (e3, kept3) = handed.priv_shown _ kept2 in
            rw (e1, e2, e3, handed.from_disk, same)
              (Returns.bind (uart_init_keeps bus map.uart Keep f baudrate _ handed.uart_apart kept3)
                λ _ m2 (keep2, unchanged).
                  Returns.bind (Returns.when_lem (loads_lem m2 (handed.readable m2.dev keep2)))
                    λ _ m3 (ready3, tree_in, firmware_in). enter m3 ready3 tree_in firmware_in)
