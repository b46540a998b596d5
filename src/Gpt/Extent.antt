-- ===== src/Gpt/Extent.antt =====
-- How many bytes `gpt_boot_part_else_raw` asks its reader for.
use cheshire_fork.Base.{ℕ, ◌+◌, ◌*◌, ◌^◌, ◌≤◌, ◌<◌, ◌≡◌, Bool, true, false, Option, ◌==◌}
use cheshire_fork.Machine.{Machine}
use cheshire_fork.Machine.Bytes.{Mem, load64}
use cheshire_fork.Machine.Returns
use cheshire_fork.Machine.Returns.{Returns, Fails, Fails-first, Fails-bind}
use cheshire_fork.Reader.{Reader, Reads}
use cheshire_fork.Gpt.{Guid, Frame, signature}
use cheshire_fork.Gpt.Table.{header, dim_of, viable, IsOnDisk, IsFrame}
use cheshire_fork.Gpt.Boot.{load_addr, load_len, boot_range, load_code, boot_range_lem}
use cheshire_fork.Gpt.Bounds.{IsOrdered, range-load_len, range-load_len_overrun}

-- A signed disk without a viable entry, whose first entry ends two to `2 ^ 53` blocks before it
-- begins.
pub record IsReversed (disk : Mem) (max_lbas : ℕ) (tguid pguid : Option Guid) : Type 0 where
  pub signed : (load64 disk 0x200 == signature) ≡ true
  pub entries : 0 < (header disk).count
  pub none_viable :
      (q : ℕ) → q < (header disk).count → viable disk (header disk) max_lbas tguid pguid q ≡ false
  pub before : (dim_of disk (header disk) 0).lba_end + 1 < (dim_of disk (header disk) 0).lba_begin
  pub near :
      (dim_of disk (header disk) 0).lba_begin ≤ (dim_of disk (header disk) 0).lba_end + 2 ^ 53
  pub fits : (dim_of disk (header disk) 0).lba_begin + max_lbas ≤ 2 ^ 64

module _ {D : Type 0} {Ready : D → Type 0} {Free : ℕ → ℕ → Type 0} {Scratch : ℕ → Bool} {disk : Mem}
    {size : ℕ} {read : Reader D} (rs : Reads Ready Free Scratch disk size read) {fr : Frame}
    (ok : IsFrame Free fr) (on : IsOnDisk disk size) where
  -- From a readable disk the range to boot from is found, and is of `max_lbas` blocks at most, if the
  -- first entry of the table does not end before it begins and is not at the end of the 64-bit
  -- range.
  pub boot_range-extent :
      (max_lbas : ℕ) (tguid pguid : Option Guid) (m : Machine D)
      → Ready m.dev
      → 0 < max_lbas
      → max_lbas ≤ 2 ^ 54
      → IsOrdered max_lbas (dim_of disk (header disk) 0)
      → Returns
          (λ range m'. Ready m'.dev × (load_len range ≤ 512 * max_lbas))
          (boot_range read fr max_lbas tguid pguid m)
  boot_range-extent max_lbas tguid pguid m ready some small o =
      Returns.mono (boot_range_lem rs ok on max_lbas tguid pguid m ready) λ range m' (ready', is).
        (ready', range-load_len disk max_lbas tguid pguid range some small o is)

  -- Without a viable entry, and with a first entry that ends two to `2 ^ 53` blocks before it
  -- begins, the boot from a signed disk asks its reader for more than `max_lbas` blocks at the
  -- code buffer: where the reader refuses all such requests with `c`, the load fails with `c`.
  pub load_code-overrun :
      (code_buf max_lbas : ℕ) (tguid pguid : Option Guid) (c : ℕ) (P : Machine D → Type 0)
      (m : Machine D)
      → Ready m.dev
      → 0 < max_lbas
      → max_lbas ≤ 2 ^ 53
      → IsReversed disk max_lbas tguid pguid
      → ((addr len : ℕ) (m' : Machine D)
          → Ready m'.dev
          → 512 * max_lbas < len
          → Fails c P (read code_buf addr len m'))
      → Fails c P (load_code read fr code_buf max_lbas tguid pguid m)
  unfolding load_code
  load_code-overrun code_buf max_lbas tguid pguid c P m ready some small r refuses =
      Fails-bind (boot_range_lem rs ok on max_lbas tguid pguid m ready) λ range m1 (ready1, is).
        Fails-first _ (
          refuses (load_addr range) (load_len range) m1 ready1 (
            range-load_len_overrun disk max_lbas tguid pguid range some small r.signed r.entries
              r.none_viable r.before r.near r.fits is))
