-- ===== src/Gpt.antt =====
-- sw/lib/gpt.c: the signature check, the search for a partition, and the boot from it or from the
-- start of the disk. Locals that a read fills stand at the addresses of a `Frame` and are taken
-- over right after the read.
pub mod Table
pub mod Search
pub mod Find
pub mod Boot
pub mod Bounds
pub mod Extent
pub mod Handover
pub mod Unsigned
use Prim.Native.Nat.{bit_or}
use cheshire_fork.Base.{
  ℕ, zero, suc, ◌+◌, ◌-◌, ◌*◌, ◌%◌, ◌^◌, Bool, true, false, ◌&&◌, Option, none, some, ltb, leb,
  ◌==◌, if◌then◌else◌, u32, u64, sub64,
}
use cheshire_fork.Machine.{
  Machine, Run, done, fail, halt, spin, Cmd, ◌>>=◌, ◌>>◌, pure, mem_of, on_dev,
}
use cheshire_fork.Machine.Bytes.{load32, load64, load_le}
use cheshire_fork.Reader.{Reader}

-- The stack slots of the locals `sig`, `hf`, `dim` and `guid`.
pub record Frame : Type 0 where
  pub sig : ℕ
  pub hf : ℕ
  pub dim : ℕ
  pub guid : ℕ

abbrev pub Guid : Type 0
Guid = ℕ × ℕ

-- `struct hdr_fields` and `struct part_fields`.
pub record HdrFields : Type 0 where
  pub lba : ℕ
  pub count : ℕ
  pub size : ℕ

pub record PartFields : Type 0 where
  pub lba_begin : ℕ
  pub lba_end : ℕ

-- The three outputs of the search; no index stands for -1.
pub record Found : Type 0 where
  pub part_idx : Option ℕ
  pub range : PartFields

abbrev pub signature : ℕ
signature = 0x5452415020494645

-- The first partition, cut to `max_lbas` blocks: `MIN(lba_end, lba_begin + max_lbas - 1)`.
unfoldable pub clip : ℕ → PartFields → PartFields
clip max_lbas dim =
    let last = u64 (dim.lba_begin + max_lbas + 2 ^ 64 - 1) in
    record dim { lba_end = if leb dim.lba_end last then dim.lba_end else last }

-- `0x200 * hf.lba + p * hf.size`.
unfoldable pub entry_offs : HdrFields → ℕ → ℕ
entry_offs hf p = u64 (0x200 * hf.lba + p * hf.size)

module _ {D : Type 0} (read : Reader D) (fr : Frame) where
  -- `gpt_check_signature`: a read that fails counts as no signature.
  signed_after : Run D (Unit {0}) → Run D Bool
  signed_after (done _ m) = done (load64 m.mem fr.sig == signature) m
  signed_after (fail c m) = done false m
  signed_after (halt m) = halt m
  signed_after spin = spin

  unfoldable pub check_signature : Cmd D Bool
  unfolding signed_after
  check_signature m = signed_after (read fr.sig 0x200 8 m)

  -- One of the two GUID tests, at `offs`; there is none to make for a null pointer.
  unfoldable pub match_guid : Option Guid → ℕ → Cmd D Bool
  match_guid none offs = pure false
  match_guid (some (g0, g1)) offs = do
    read fr.guid offs 16
    f ← mem_of
    pure (load64 f fr.guid == g0 && load64 f (fr.guid + 8) == g1)

  unfoldable pub matches : (tguid pguid : Option Guid) → ℕ → Cmd D Bool
  unfolding match_guid
  matches tguid pguid pe_offs = do
    hit ← match_guid tguid pe_offs
    if hit then pure true else match_guid pguid (u64 (pe_offs + 0x10))

  -- The size and the GUIDs of a partition, once its range is known.
  unfoldable pub is_viable :
      (max_lbas : ℕ) (tguid pguid : Option Guid) → ℕ → PartFields → Cmd D Bool
  unfolding matches
  is_viable max_lbas tguid pguid pe_offs dim =
      if leb max_lbas (sub64 dim.lba_end dim.lba_begin)
      then pure false
      else matches tguid pguid pe_offs

  unfoldable pub read_dim : ℕ → Cmd D PartFields
  read_dim pe_offs = do
    read fr.dim (u64 (pe_offs + 0x20)) 16
    f ← mem_of
    pure (record { lba_begin = load64 f fr.dim; lba_end = load64 f (fr.dim + 8) })

  -- The loop over the partitions from `p` on, `left` of them, and the outputs behind it.
  unfoldable pub find_loop :
      (hf : HdrFields) (max_lbas : ℕ) (tguid pguid : Option Guid) (left p : ℕ)
      → PartFields
      → Cmd D Found
  unfolding is_viable read_dim entry_offs clip
  find_loop hf max_lbas tguid pguid zero p out = pure (record { part_idx = none; range = out })
  find_loop hf max_lbas tguid pguid (suc left) p out = do
    dim ← read_dim (entry_offs hf p)
    hit ← is_viable max_lbas tguid pguid (entry_offs hf p) dim
    let next =
        find_loop hf max_lbas tguid pguid left (p + 1) (if p == 0 then clip max_lbas dim else out)
    if hit then pure (record { part_idx = some p; range = dim }) else next

  unfoldable pub read_header : Cmd D HdrFields
  read_header = do
    read fr.hf (0x200 + 0x48) 16
    f ← mem_of
    pure (record {
      lba = load64 f fr.hf;
      count = load32 f (fr.hf + 8);
      size = load32 f (fr.hf + 12);
    })

  -- `gpt_find_partition`, from the range that the two outputs hold before.
  unfoldable pub find_partition :
      (max_lbas : ℕ) (tguid pguid : Option Guid) → PartFields → Cmd D Found
  unfolding find_loop read_header
  find_partition max_lbas tguid pguid out = do
    hf ← read_header
    find_loop hf max_lbas tguid pguid hf.count 0 out
