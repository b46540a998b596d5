-- ===== src/Gpt/Handover.antt =====
-- `gpt_boot_part_else_raw` as a whole: what the next stage finds when it is entered.
use Prim.Native.Nat.{bit_or}
use cheshire_fork.Base.{Bool, ℕ, ◌+◌, ◌^◌, ◌≤◌, ◌<◌, ◌≡◌, refl, Option, u32}
use cheshire_fork.Machine.{Machine, Cmd}
use cheshire_fork.Machine.Bytes.{Mem}
use cheshire_fork.Machine.Returns
use cheshire_fork.Machine.Returns.{Returns}
use cheshire_fork.Mmio.{Bus, AddressMap, put32, scratch_0, scratch_1, scratch_3}
use cheshire_fork.Reader.{Reader, Reads}
use cheshire_fork.Gpt.{Guid, PartFields, Frame}
use cheshire_fork.Gpt.Table.{first_byte, byte_count, IsOnDisk, IsFrame}
use cheshire_fork.Gpt.Boot.{IsBootRange, load_code-IsCopied, boot_part_else_raw}

-- The devices after the three scratch registers have been written, in the source's order.
unfoldable pub scratched : {D : Type 0} → Bus D → AddressMap → (read_at priv gp : ℕ) → D → D
scratched bus map read_at priv gp d = bus.write32 (map.regs + scratch_3) (u32 gp) (
    bus.write32 (map.regs + scratch_1) (u32 priv)
      (bus.write32 (map.regs + scratch_0) (u32 (bit_or read_at 1)) d))

-- What the next stage may rely on: the blocks of the boot range stand in the code buffer, and the
-- scratch registers have the read function's address with its lowest bit set, its argument and the
-- global pointer.
pub record IsHandover {D : Type 0} (Ready : D → Type 0) (disk : Mem) (bus : Bus D)
    (map : AddressMap) (read_at priv gp code_buf max_lbas : ℕ) (tguid pguid : Option Guid)
    (m : Machine D) : Type 0 where
  pub range : PartFields
  pub booted : IsBootRange disk max_lbas tguid pguid range
  pub loaded : (i : ℕ) → i < byte_count range → m.mem (code_buf + i) ≡ disk (first_byte range + i)
  pub before : D
  pub was_ready : Ready before
  pub registers : m.dev ≡ scratched bus map read_at priv gp before

module _ {D : Type 0} {Ready : D → Type 0} {Free : ℕ → ℕ → Type 0} {Scratch : ℕ → Bool} {disk : Mem}
    {size : ℕ} {read : Reader D} (rs : Reads Ready Free Scratch disk size read) {fr : Frame}
    (ok : IsFrame Free fr) (on : IsOnDisk disk size) (bus : Bus D) (map : AddressMap) where
  -- From a readable disk the boot enters the next stage at the code buffer, with the boot range
  -- loaded and the scratch registers written; so whatever the next stage guarantees from there, the
  -- boot guarantees.
  pub boot_part_else_raw-next_stage :
      (next_stage : ℕ → Cmd D (Unit {0})) (read_at priv gp code_buf max_lbas : ℕ)
      (tguid pguid : Option Guid) (Q : Unit {0} → Machine D → Type 0) (m : Machine D)
      → Ready m.dev
      → ((range : PartFields)
          → IsBootRange disk max_lbas tguid pguid range
          → (first_byte range + byte_count range ≤ size)
            × (code_buf + byte_count range ≤ 2 ^ 64)
            × Free code_buf (byte_count range))
      → ((m' : Machine D)
          → IsHandover Ready disk bus map read_at priv gp code_buf max_lbas tguid pguid m'
          → Returns Q (next_stage code_buf m'))
      → Returns Q (
          boot_part_else_raw read fr bus map next_stage read_at priv gp code_buf max_lbas tguid
            pguid m)
  unfolding boot_part_else_raw put32 scratched
  boot_part_else_raw-next_stage next_stage read_at priv gp code_buf max_lbas tguid pguid Q m ready
        room enter =
      Returns.bind (load_code-IsCopied rs ok on code_buf max_lbas tguid pguid m ready room)
        λ range m1 (ready1, is, copied).
          enter (record m1 { dev = scratched bus map read_at priv gp m1.dev })
            (record {
              range = range;
              booted = is;
              loaded = copied;
              before = m1.dev;
              was_ready = ready1;
              registers = refl;
            })
