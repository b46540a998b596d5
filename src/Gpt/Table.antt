-- ===== src/Gpt/Table.antt =====
-- A partition table as it stands on the disk, and what `gpt_find_partition` is to find in it.
use cheshire_fork.Base.{
  ℕ, ◌+◌, ◌-◌, ◌*◌, ◌%◌, ◌^◌, ◌≤◌, ◌<◌, ◌≡◌, Bool, true, false, not, ◌&&◌, ◌||◌, Option, none, some,
  leb, ◌==◌, sub64, ◌⊎◌,
}
use cheshire_fork.Machine.Bytes.{Mem, load32, load64}
use cheshire_fork.Gpt.{Guid, HdrFields, PartFields, Found, Frame}

abbrev pub header : Mem → HdrFields
header disk = record {
  lba = load64 disk 0x248;
  count = load32 disk 0x250;
  size = load32 disk 0x254;
}

-- The GUID at `offs` is the wanted one.
unfoldable pub has_guid : Mem → Option Guid → ℕ → Bool
has_guid disk none offs = false
has_guid disk (some (g0, g1)) offs = load64 disk offs == g0 && load64 disk (offs + 8) == g1

-- The table begins at block `lba` of 512 bytes, and has an entry every `size` bytes.
abbrev pub entry_at : HdrFields → ℕ → ℕ
entry_at hf p = (hf.lba * 512 + hf.size * p) % 2 ^ 64

-- The bytes of a range of blocks of 512 bytes, the last block included, in 64 bits.
abbrev pub first_byte : PartFields → ℕ
first_byte r = r.lba_begin * 512 % 2 ^ 64

abbrev pub byte_count : PartFields → ℕ
byte_count r = (r.lba_end + 2 ^ 64 - r.lba_begin + 1) * 512 % 2 ^ 64

-- The first `max_lbas` blocks.
abbrev pub whole : ℕ → PartFields
whole max_lbas = record { lba_begin = 0; lba_end = (2 ^ 64 - 1 + max_lbas) % 2 ^ 64 }

abbrev IsLeast : ℕ → ℕ → ℕ → Type 0
IsLeast x a b = (x ≤ a) × (x ≤ b) × ((x ≡ a) ⊎ (x ≡ b))

-- `range` is `first` up to its end or up to its block `max_lbas`, whichever comes first.
abbrev pub IsCut : (max_lbas : ℕ) (first range : PartFields) → Type 0
IsCut max_lbas first range =
    (range.lba_begin ≡ first.lba_begin)
    × IsLeast range.lba_end first.lba_end ((2 ^ 64 - 1 + first.lba_begin + max_lbas) % 2 ^ 64)

module _ (disk : Mem) (hf : HdrFields) where
  -- The range of entry `p`.
  abbrev pub dim_of : ℕ → PartFields
  dim_of p = record {
    lba_begin = load64 disk (entry_at hf p + 0x20);
    lba_end = load64 disk (entry_at hf p + 0x28);
  }

  -- The entry fits in `max_lbas` blocks and has the wanted type or identity.
  unfoldable pub viable : (max_lbas : ℕ) (tguid pguid : Option Guid) → ℕ → Bool
  viable max_lbas tguid pguid p =
      not (leb max_lbas (sub64 (dim_of p).lba_end (dim_of p).lba_begin))
      && (has_guid disk tguid (entry_at hf p) || has_guid disk pguid (entry_at hf p + 0x10))

  -- The first viable entry if there is one; else no index, and the range of the first entry, cut
  -- to `max_lbas` blocks, or what the outputs held before if the table is empty.
  abbrev IsFirstAt :
      (max_lbas : ℕ) (tguid pguid : Option Guid) → PartFields → Option ℕ → PartFields → Type 0
  IsFirstAt max_lbas tguid pguid out none range =
      ((q : ℕ) → q < hf.count → viable max_lbas tguid pguid q ≡ false)
      × (hf.count ≡ 0 → range ≡ out)
      × (0 < hf.count → IsCut max_lbas (dim_of 0) range)
  IsFirstAt max_lbas tguid pguid out (some p) range =
      (p < hf.count)
      × (viable max_lbas tguid pguid p ≡ true)
      × ((q : ℕ) → q < p → viable max_lbas tguid pguid q ≡ false)
      × (range ≡ dim_of p)

  abbrev pub IsFirst : (max_lbas : ℕ) (tguid pguid : Option Guid) → PartFields → Found → Type 0
  IsFirst max_lbas tguid pguid out found =
      IsFirstAt max_lbas tguid pguid out found.part_idx found.range

-- The header and every entry lie on a disk of `size` bytes.
pub record IsOnDisk (disk : Mem) (size : ℕ) : Type 0 where
  pub addressable : size ≤ 2 ^ 64
  pub header_in : 0x258 ≤ size
  pub entry_in : (p : ℕ) → p < (header disk).count → entry_at (header disk) p + 48 ≤ size

-- The stack slots of the search may be written, 16 bytes each.
pub record IsFrame (Free : ℕ → ℕ → Type 0) (fr : Frame) : Type 0 where
  pub sig_free : Free fr.sig 8
  pub hf_free : Free fr.hf 16
  pub dim_free : Free fr.dim 16
  pub guid_free : Free fr.guid 16
  pub below :
      (fr.sig + 8 ≤ 2 ^ 64)
      × (fr.hf + 16 ≤ 2 ^ 64)
      × (fr.dim + 16 ≤ 2 ^ 64)
      × (fr.guid + 16 ≤ 2 ^ 64)
