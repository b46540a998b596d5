-- ===== src/Gpt/Unsigned.antt =====
-- `gpt_boot_part_else_raw` of sw/lib/gpt.c on a disk without a partition table, whose reader need
-- only be right for requests that start on a multiple of 64 bytes.
use cheshire_fork.Base.{ℕ, ◌+◌, ◌%◌, ◌^◌, ◌≤◌, ◌<◌, ◌≡◌, refl, sym, arith, false, Option, ◌==◌}
use mathlib.Core.Path.{subst}
use cheshire_fork.Machine.{Machine, Run, Cmd}
use cheshire_fork.Machine.Bytes.{Mem, IsCopied, load64, load_le-IsCopied_start}
use cheshire_fork.Machine.Returns
use cheshire_fork.Machine.Returns.{Returns, returns}
use cheshire_fork.Mmio.{Bus, AddressMap, put32}
use cheshire_fork.Reader.{Reader}
use cheshire_fork.Gpt.{Guid, PartFields, Frame, signature, check_signature, signed_after}
use cheshire_fork.Gpt.Table.{first_byte, byte_count, whole}
use cheshire_fork.Gpt.Boot.{
  IsRangeIf, IsBootRange, raw_range-whole, range_if, boot_range, load_addr-first_byte,
  load_len-byte_count, load_code, boot_part_else_raw,
}
use cheshire_fork.Gpt.Handover.{IsHandover, scratched}

-- A reader of aligned requests.
pub record ReadsAligned {D : Type 0} (Ready : D → Type 0) (disk : Mem) (read : Reader D)
    : Type 0 where
  pub reads :
      (buf addr len : ℕ) (m : Machine D)
      → addr % 64 ≡ 0
      → addr + len ≤ 2 ^ 64
      → Ready m.dev
      → Returns
          (λ _ m'. Ready m'.dev × IsCopied disk addr buf len m.mem m'.mem)
          (read buf addr len m)

module _ {D : Type 0} {Ready : D → Type 0} {disk : Mem} {read : Reader D}
    (rs : ReadsAligned Ready disk read) (fr : Frame)
    (unsigned : (load64 disk 0x200 == signature) ≡ false) where
  signed_after_lem :
      (f : Mem) {r : Run D (Unit {0})}
      → Returns (λ _ m'. Ready m'.dev × IsCopied disk 0x200 fr.sig 8 f m'.mem) r
      → Returns (λ b m'. Ready m'.dev × (b ≡ false)) (signed_after read fr r)
  unfolding signed_after
  signed_after_lem f (returns {m = m'} (ready, copied)) =
      let same : load64 m'.mem fr.sig ≡ load64 disk 0x200 =
        load_le-IsCopied_start 8 disk 0x200 fr.sig 8 f m'.mem copied (omega arith) in
      returns (ready, rw same unsigned)

  boot_range_lem :
      (max_lbas : ℕ) (tguid pguid : Option Guid) (m : Machine D)
      → Ready m.dev
      → Returns
          (λ range m'. Ready m'.dev × (range ≡ whole max_lbas))
          (boot_range read fr max_lbas tguid pguid m)
  unfolding boot_range check_signature range_if
  boot_range_lem max_lbas tguid pguid m ready =
      Returns.bind (signed_after_lem m.mem (rs.reads fr.sig 0x200 8 m refl (omega arith) ready))
        λ b m' (ready', e). rw e (returns (ready', raw_range-whole max_lbas))

  byte_count-lt : (range : PartFields) → byte_count range < 2 ^ 64
  byte_count-lt range = omega arith

  load_code_lem :
      (code_buf max_lbas : ℕ) (tguid pguid : Option Guid) (m : Machine D)
      → Ready m.dev
      → Returns
          (λ range m'.
            Ready m'.dev
            × IsBootRange disk max_lbas tguid pguid range
            × ((i : ℕ)
                → i < byte_count range
                → m'.mem (code_buf + i) ≡ disk (first_byte range + i)))
          (load_code read fr code_buf max_lbas tguid pguid m)
  unfolding load_code
  load_code_lem code_buf max_lbas tguid pguid m ready =
      Returns.bind (boot_range_lem max_lbas tguid pguid m ready) λ range m1 (ready1, e).
        let from : first_byte range ≡ 0 = rw e refl in
        rw (load_addr-first_byte range, load_len-byte_count range)
          (Returns.bind
            (rs.reads code_buf (first_byte range) (byte_count range) m1 (rw from refl)
              (omega (arith, from, byte_count-lt range)) ready1)
            λ _ m2 (ready2, copied). returns (
              ready2,
              subst (λ b. IsRangeIf b disk max_lbas tguid pguid range) (sym unsigned) e,
              λ i below. ground (arith, copied (code_buf + i)),
            ))

  -- Whatever the next stage guarantees with the first `max_lbas` blocks loaded, the boot does.
  pub boot_part_else_raw_lem :
      (bus : Bus D) (map : AddressMap) (next_stage : ℕ → Cmd D (Unit {0}))
      (read_at priv gp code_buf max_lbas : ℕ) (tguid pguid : Option Guid)
      (Q : Unit {0} → Machine D → Type 0) (m : Machine D)
      → Ready m.dev
      → ((m' : Machine D)
          → IsHandover Ready disk bus map read_at priv gp code_buf max_lbas tguid pguid m'
          → Returns Q (next_stage code_buf m'))
      → Returns Q (
          boot_part_else_raw read fr bus map next_stage read_at priv gp code_buf max_lbas tguid
            pguid m)
  unfolding boot_part_else_raw put32 scratched
  boot_part_else_raw_lem bus map next_stage read_at priv gp code_buf max_lbas tguid pguid Q m ready
        enter =
      Returns.bind (load_code_lem code_buf max_lbas tguid pguid m ready)
        λ range m1 (ready1, is, copied).
          enter (record m1 { dev = scratched bus map read_at priv gp m1.dev })
            (record {
              range = range;
              booted = is;
              loaded = copied;
              before = m1.dev;
              was_ready = ready1;
              registers = refl;
            })
