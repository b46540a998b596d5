-- ===== src/Gpt/Find.antt =====
-- `gpt_find_partition` finds the first viable partition of the disk, through any reader that reads.
use cheshire_fork.Base.{ℕ, ◌≡◌, Bool, Option, ◌==◌}
use cheshire_fork.Machine.{Machine}
use cheshire_fork.Machine.Bytes.{Mem, load64}
use cheshire_fork.Machine.Returns.{Returns}
use cheshire_fork.Reader.{Reader, Reads, Reads-Serves}
use cheshire_fork.Gpt.{Guid, PartFields, Frame, signature, check_signature, find_partition}
use cheshire_fork.Gpt.Table.{header, IsFirst, IsOnDisk, IsFrame}
use cheshire_fork.Gpt.Search
use cheshire_fork.Gpt.Search.{find_partition_lem}

module _ {D : Type 0} {Ready : D → Type 0} {Free : ℕ → ℕ → Type 0} {Scratch : ℕ → Bool} {disk : Mem}
    {size : ℕ} {read : Reader D} (rs : Reads Ready Free Scratch disk size read) {fr : Frame}
    (ok : IsFrame Free fr) (on : IsOnDisk disk size) where
  -- The signature check is the comparison of the disk's eight bytes at LBA 1.
  pub check_signature_lem :
      (m : Machine D)
      → Ready m.dev
      → Returns
          (λ b m'. Ready m'.dev × (b ≡ (load64 disk 0x200 == signature)))
          (check_signature read fr m)
  check_signature_lem = Search.check_signature_lem (Reads-Serves rs) ok on

  -- Through a reader that reads the disk, the search returns, and finds the first partition that
  -- fits in `max_lbas` blocks and has the wanted type or identity; if there is none it returns no
  -- index, and the range of the first partition cut to `max_lbas` blocks, or the range that its
  -- outputs held before if the table is empty.
  pub find_partition-IsFirst :
      (max_lbas : ℕ) (tguid pguid : Option Guid) (out : PartFields) (m : Machine D)
      → Ready m.dev
      → Returns
          (λ found m'. Ready m'.dev × IsFirst disk (header disk) max_lbas tguid pguid out found)
          (find_partition read fr max_lbas tguid pguid out m)
  find_partition-IsFirst = find_partition_lem (Reads-Serves rs) ok on
