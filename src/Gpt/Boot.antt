-- ===== src/Gpt/Boot.antt =====
-- `gpt_boot_part_else_raw`: the range that it boots from, the load, and the hand-over.
use Prim.Native.Nat.{bit_or}
use cheshire_fork.Base.{
  ℕ, ◌+◌, ◌-◌, ◌*◌, ◌%◌, ◌^◌, ◌≤◌, ◌<◌, ◌≡◌, refl, arith, Bool, true, false, Option, ◌==◌, u64,
  sub64,
}
use cheshire_fork.Machine.{Machine, Cmd, ◌>>=◌, ◌>>◌, pure}
use cheshire_fork.Machine.Bytes.{Mem, load64}
use cheshire_fork.Machine.Returns
use cheshire_fork.Machine.Returns.{Returns, returns}
use cheshire_fork.Mmio.{Bus, AddressMap, put32, scratch_0, scratch_1, scratch_3}
use cheshire_fork.Reader.{Reader, Reads, read_lem}
use cheshire_fork.Gpt.{Guid, PartFields, Found, Frame, signature, check_signature, find_partition}
use cheshire_fork.Gpt.Table.{header, first_byte, byte_count, whole, IsFirst, IsOnDisk, IsFrame}
use cheshire_fork.Gpt.Find.{check_signature_lem, find_partition-IsFirst}

-- `0x200 * lba_begin` and `0x200 * (lba_end - lba_begin + 1)`.
unfoldable pub load_addr : PartFields → ℕ
load_addr r = u64 (0x200 * r.lba_begin)

unfoldable pub load_len : PartFields → ℕ
load_len r = u64 (0x200 * u64 (sub64 r.lba_end r.lba_begin + 1))

-- The whole raw range: `lba_begin = 0, lba_end = max_lbas - 1`.
unfoldable pub raw_range : ℕ → PartFields
raw_range max_lbas = record { lba_begin = 0; lba_end = sub64 max_lbas 1 }

module _ {D : Type 0} (read : Reader D) (fr : Frame) where
  -- The search is made only on a disk with the signature.
  unfoldable pub range_if : Bool → (max_lbas : ℕ) (tguid pguid : Option Guid) → Cmd D PartFields
  unfolding raw_range
  range_if false max_lbas tguid pguid = pure (raw_range max_lbas)
  range_if true max_lbas tguid pguid = do
    found ← find_partition read fr max_lbas tguid pguid (raw_range max_lbas)
    pure found.range

  unfoldable pub boot_range : (max_lbas : ℕ) (tguid pguid : Option Guid) → Cmd D PartFields
  unfolding range_if
  boot_range max_lbas tguid pguid = do
    signed ← check_signature read fr
    range_if signed max_lbas tguid pguid

  -- The copy of the code to `code_buf`.
  unfoldable pub load_code : (code_buf max_lbas : ℕ) (tguid pguid : Option Guid) → Cmd D PartFields
  unfolding boot_range load_addr load_len
  load_code code_buf max_lbas tguid pguid = do
    range ← boot_range max_lbas tguid pguid
    read code_buf (load_addr range) (load_len range)
    pure range

  -- The whole function. The addresses of the read function and of its argument, and the global
  -- pointer, go to the scratch registers. `next_stage` is the assembly routine that runs the code.
  unfoldable pub boot_part_else_raw :
      (bus : Bus D) (map : AddressMap) (next_stage : ℕ → Cmd D (Unit {0})) (read_at priv gp : ℕ)
      → (code_buf max_lbas : ℕ) (tguid pguid : Option Guid) → Cmd D (Unit {0})
  unfolding load_code
  boot_part_else_raw bus map next_stage read_at priv gp code_buf max_lbas tguid pguid = do
    load_code code_buf max_lbas tguid pguid
    put32 bus map.regs scratch_0 (bit_or read_at 1)
    put32 bus map.regs scratch_1 priv
    put32 bus map.regs scratch_3 gp
    next_stage code_buf

-- The range that is booted from a disk: the search's if it is signed, else the raw one.
abbrev pub IsRangeIf :
    Bool → (disk : Mem) (max_lbas : ℕ) (tguid pguid : Option Guid) → PartFields → Type 0
IsRangeIf false disk max_lbas tguid pguid range = range ≡ whole max_lbas
IsRangeIf true disk max_lbas tguid pguid range =
    (found : Found) × IsFirst disk (header disk) max_lbas tguid pguid (whole max_lbas) found
    × (range ≡ found.range)

abbrev pub IsBootRange :
    (disk : Mem) (max_lbas : ℕ) (tguid pguid : Option Guid) → PartFields → Type 0
IsBootRange disk = IsRangeIf (load64 disk 0x200 == signature) disk

pub load_addr-first_byte : (r : PartFields) → load_addr r ≡ first_byte r
unfolding load_addr
load_addr-first_byte r = omega arith

pub load_len-byte_count : (r : PartFields) → load_len r ≡ byte_count r
unfolding load_len
load_len-byte_count r = omega arith

pub raw_range-whole : (max_lbas : ℕ) → raw_range max_lbas ≡ whole max_lbas
unfolding raw_range
raw_range-whole max_lbas =
    let same : sub64 max_lbas 1 ≡ (2 ^ 64 - 1 + max_lbas) % 2 ^ 64 = omega arith in rw same refl

module _ {D : Type 0} {Ready : D → Type 0} {Free : ℕ → ℕ → Type 0} {Scratch : ℕ → Bool} {disk : Mem}
    {size : ℕ} {read : Reader D} (rs : Reads Ready Free Scratch disk size read) {fr : Frame}
    (ok : IsFrame Free fr) (on : IsOnDisk disk size) where
  range_if_lem :
      (signed : Bool) (max_lbas : ℕ) (tguid pguid : Option Guid) (m : Machine D)
      → Ready m.dev
      → Returns
          (λ range m'. Ready m'.dev × IsRangeIf signed disk max_lbas tguid pguid range)
          (range_if read fr signed max_lbas tguid pguid m)
  unfolding range_if
  range_if_lem false max_lbas tguid pguid m ready = returns (ready, raw_range-whole max_lbas)
  range_if_lem true max_lbas tguid pguid m ready = rw (raw_range-whole max_lbas) (
      Returns.bind (find_partition-IsFirst rs ok on max_lbas tguid pguid (whole max_lbas) m ready)
        λ found m' (ready', first). returns (ready', (found, first, refl)))

  pub boot_range_lem :
      (max_lbas : ℕ) (tguid pguid : Option Guid) (m : Machine D)
      → Ready m.dev
      → Returns
          (λ range m'. Ready m'.dev × IsBootRange disk max_lbas tguid pguid range)
          (boot_range read fr max_lbas tguid pguid m)
  unfolding boot_range
  boot_range_lem max_lbas tguid pguid m ready =
      Returns.bind (check_signature_lem rs ok on m ready)
        λ signed m' (ready', e). rw (← e) (range_if_lem signed max_lbas tguid pguid m' ready')

  -- From a readable disk the load returns, and the code buffer holds exactly the blocks of the
  -- range that is to be booted: of a signed disk the range of the first viable partition, or of
  -- the first one cut to `max_lbas` blocks, and of any other disk its first `max_lbas` blocks.
  pub load_code-IsCopied :
      (code_buf max_lbas : ℕ) (tguid pguid : Option Guid) (m : Machine D)
      → Ready m.dev
      → ((range : PartFields)
          → IsBootRange disk max_lbas tguid pguid range
          → (first_byte range + byte_count range ≤ size)
            × (code_buf + byte_count range ≤ 2 ^ 64)
            × Free code_buf (byte_count range))
      → Returns
          (λ range m'.
            Ready m'.dev
            × IsBootRange disk max_lbas tguid pguid range
            × ((i : ℕ)
                → i < byte_count range
                → m'.mem (code_buf + i) ≡ disk (first_byte range + i)))
          (load_code read fr code_buf max_lbas tguid pguid m)
  unfolding load_code
  load_code-IsCopied code_buf max_lbas tguid pguid m ready room =
      Returns.bind (boot_range_lem max_lbas tguid pguid m ready) λ range m1 (ready1, is).
        rw (load_addr-first_byte range, load_len-byte_count range)
          (Returns.bind
            (read_lem rs code_buf (first_byte range) (byte_count range) m1 ready1 (room range is).0
              (room range is).1 (room range is).2)
            λ _ m2 (ready2, copied).
              returns (ready2, is, λ i h. ground (arith, copied (code_buf + i))))
