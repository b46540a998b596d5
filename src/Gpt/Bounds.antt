-- ===== src/Gpt/Bounds.antt =====
-- The size of the ranges that `gpt_boot_part_else_raw` may boot from: never more than `max_lbas` blocks, unless the
-- first entry of a table without a viable partition ends before it begins.
use cheshire_fork.Base.{
  ℕ, ◌+◌, ◌-◌, ◌*◌, ◌^◌, ◌≤◌, ◌<◌, ◌≡◌, ◌∙◌, sym, arith, Bool, true, false, Option, none, some,
  ◌==◌, Bool-cases, inl, inr,
}
use mathlib.Core.Bool.{false≢true}
use mathlib.Core.Path.{subst}
use cheshire_fork.Machine.Bytes.{Mem, load64}
use cheshire_fork.Gpt.{Guid, PartFields, HdrFields, signature}
use cheshire_fork.Gpt.Table.{header, byte_count, whole, IsCut, dim_of, viable, IsFirst}
use cheshire_fork.Gpt.Boot.{load_len, load_len-byte_count, IsRangeIf, IsBootRange}

-- An entry with at least one block, which can be cut without leaving 64 bits.
pub record IsOrdered (max_lbas : ℕ) (r : PartFields) : Type 0 where
  pub ordered : r.lba_begin ≤ r.lba_end
  pub cuttable : r.lba_begin + max_lbas ≤ 2 ^ 64
  pub narrow : r.lba_end < 2 ^ 64

pub viable-byte_count :
    (disk : Mem) (hf : HdrFields) (max_lbas : ℕ) (tguid pguid : Option Guid) (p : ℕ)
    → max_lbas ≤ 2 ^ 54
    → viable disk hf max_lbas tguid pguid p ≡ true
    → byte_count (dim_of disk hf p) ≤ 512 * max_lbas
unfolding viable
viable-byte_count disk hf max_lbas tguid pguid p small v = ground arith

cut-load_len :
    (max_lbas : ℕ) (first range : PartFields)
    → 0 < max_lbas
    → max_lbas ≤ 2 ^ 54
    → IsOrdered max_lbas first
    → IsCut max_lbas first range
    → load_len range ≤ 512 * max_lbas
unfolding load_len
cut-load_len max_lbas first range pos small o cut = ground arith

whole-load_len :
    (max_lbas : ℕ) → 0 < max_lbas → max_lbas ≤ 2 ^ 54 → load_len (whole max_lbas) ≡ 512 * max_lbas
unfolding load_len
whole-load_len max_lbas pos small = omega arith

-- A cut range whose entry ends two blocks or more before it begins has a length that wraps.
cut-load_len_overrun :
    (max_lbas : ℕ) (first range : PartFields)
    → 0 < max_lbas
    → max_lbas ≤ 2 ^ 53
    → first.lba_end + 1 < first.lba_begin
    → first.lba_begin - first.lba_end ≤ 2 ^ 53
    → first.lba_begin + max_lbas ≤ 2 ^ 64
    → IsCut max_lbas first range
    → 512 * max_lbas < load_len range
unfolding load_len
cut-load_len_overrun max_lbas first range pos small before near fits cut = ground arith

range_if-load_len :
    (signed : Bool) (disk : Mem) (max_lbas : ℕ) (tguid pguid : Option Guid) (range : PartFields)
    → 0 < max_lbas
    → max_lbas ≤ 2 ^ 54
    → IsOrdered max_lbas (dim_of disk (header disk) 0)
    → IsRangeIf signed disk max_lbas tguid pguid range
    → load_len range ≤ 512 * max_lbas
range_if-load_len false disk max_lbas tguid pguid range pos small o e =
    rw e (omega (arith, whole-load_len max_lbas pos small))
range_if-load_len true disk max_lbas tguid pguid range pos small o (found, first, e) =
    rw e (go found.part_idx found.range first)
  where
    go :
        (i : Option ℕ) (r : PartFields)
        → IsFirst disk
            (header disk)
            max_lbas
            tguid
            pguid
            (whole max_lbas)
            (record { part_idx = i; range = r })
        → load_len r ≤ 512 * max_lbas
    go none r (all, empty_table, cut) = elim (Bool-cases ((header disk).count == 0)) [
      | inl empty ↦
          rw (empty_table (ground (arith, empty)))
            (omega (arith, whole-load_len max_lbas pos small))
      | inr some_entry ↦
          cut-load_len max_lbas (dim_of disk (header disk) 0) r pos small o
            (cut (ground (arith, some_entry)))
    ]
    go (some p) r (_, v, _, e) = rw e (
        rw (load_len-byte_count (dim_of disk (header disk) p))
          (viable-byte_count disk (header disk) max_lbas tguid pguid p small v))

-- Whatever range is booted, its load is at most `max_lbas` blocks of 512 bytes, if the first entry
-- of the table does not end before it begins and is not at the end of the 64-bit range.
pub range-load_len :
    (disk : Mem) (max_lbas : ℕ) (tguid pguid : Option Guid) (range : PartFields)
    → 0 < max_lbas
    → max_lbas ≤ 2 ^ 54
    → IsOrdered max_lbas (dim_of disk (header disk) 0)
    → IsBootRange disk max_lbas tguid pguid range
    → load_len range ≤ 512 * max_lbas
range-load_len disk = range_if-load_len (load64 disk 0x200 == signature) disk

-- Without a viable entry, and with a first entry that ends two to `2 ^ 53` blocks before it
-- begins, the load of a signed disk is longer than `max_lbas` blocks.
pub range-load_len_overrun :
    (disk : Mem) (max_lbas : ℕ) (tguid pguid : Option Guid) (range : PartFields)
    → 0 < max_lbas
    → max_lbas ≤ 2 ^ 53
    → (load64 disk 0x200 == signature) ≡ true
    → 0 < (header disk).count
    → ((q : ℕ) → q < (header disk).count → viable disk (header disk) max_lbas tguid pguid q ≡ false)
    → (dim_of disk (header disk) 0).lba_end + 1 < (dim_of disk (header disk) 0).lba_begin
    → (dim_of disk (header disk) 0).lba_begin ≤ (dim_of disk (header disk) 0).lba_end + 2 ^ 53
    → (dim_of disk (header disk) 0).lba_begin + max_lbas ≤ 2 ^ 64
    → IsBootRange disk max_lbas tguid pguid range
    → 512 * max_lbas < load_len range
range-load_len_overrun disk max_lbas tguid pguid range pos small signed entries none_viable before
      near fits is =
    let (found, first, e) = signed_range in rw e (go found.part_idx found.range first)
  where
    signed_range : IsRangeIf true disk max_lbas tguid pguid range
    signed_range = subst (λ b. IsRangeIf b disk max_lbas tguid pguid range) signed is

    go :
        (i : Option ℕ) (r : PartFields)
        → IsFirst disk
            (header disk)
            max_lbas
            tguid
            pguid
            (whole max_lbas)
            (record { part_idx = i; range = r })
        → 512 * max_lbas < load_len r
    go none r (all, _, cut) =
        cut-load_len_overrun max_lbas (dim_of disk (header disk) 0) r pos small before (omega arith)
          fits (cut entries)
    go (some p) r (h, v, _, e) = absurd (false≢true (sym (none_viable p h) ∙ v))
