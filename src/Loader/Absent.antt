-- ===== src/Loader/Absent.antt =====
-- The loader of sw/boot/zsl.c on a disk without the partition that it wants.
use mathlib.Core.Bool.{false≢true}
use cheshire_fork.Base.{Bool, ℕ, ◌<◌, ◌≡◌, ◌∙◌, sym, refl, true, false, Option, none, some}
use cheshire_fork.Machine.{Machine, Run, done}
use cheshire_fork.Machine.Bytes.{Mem}
use cheshire_fork.Machine.Returns.{Returns, returns, Halts, halts}
use cheshire_fork.Reader.{Reader, Reads, Reads-Serves-Around, Beside}
use cheshire_fork.Gpt.{Frame, Guid, PartFields, Found}
use cheshire_fork.Gpt.Table.{header, viable, IsFirst, IsOnDisk, IsFrame}
use cheshire_fork.Gpt.Search.{find_partition_lem}
use cheshire_fork.Loader.{copy_found, load_part_or_spin}

module _ {D : Type 0} {Keep : Machine D → Type 0} (disk : Mem) (rread : Reader D) (fr : Frame)
    (uninit : PartFields) where
  copy_found-absent :
      (max_lbas : ℕ) (guid : Guid) (dst : ℕ)
      → ((q : ℕ)
          → q < (header disk).count
          → viable disk (header disk) max_lbas (some guid) none q ≡ false)
      → {r : Run D Found}
      → Returns
          (λ found m'. Keep m' × IsFirst disk (header disk) max_lbas (some guid) none uninit found)
          r
      → Halts Keep (copy_found rread fr uninit dst r)
  unfolding copy_found
  copy_found-absent max_lbas guid dst absent (returns {a = found} {m = m} (keep, first)) =
      go found.part_idx found.range first
    where
      go :
          (i : Option ℕ) (range : PartFields)
          → IsFirst disk
              (header disk)
              max_lbas
              (some guid)
              none
              uninit
              (record { part_idx = i; range = range })
          → Halts Keep
              (copy_found rread fr uninit dst (done (record { part_idx = i; range = range }) m))
      go none range e = halts keep
      go (some q) range (inside, v, before, e) = absurd (false≢true (sym (absent q inside) ∙ v))

module _ {D : Type 0} {Ready : D → Type 0} {Free : ℕ → ℕ → Type 0} {Scratch : ℕ → Bool} {disk : Mem}
    {size : ℕ} {rread : Reader D} (rs : Reads Ready Free Scratch disk size rread) {fr : Frame}
    (on : IsOnDisk disk size) (uninit : PartFields) where
  -- Through a reader that reads the disk, if no entry of the table is of the wanted type and fits
  -- in `max_lbas` blocks, the loader waits for interrupts for ever, so nothing is launched. By then
  -- no byte has changed in any region of memory apart from the loader's stack slots and the
  -- reader's own memory, so nothing has been copied.
  pub load_part_or_spin-absent :
      (Region : ℕ → Bool) (guid : Guid) (dst max_lbas : ℕ) (m : Machine D)
      → ((q : ℕ) → Region q ≡ true → Scratch q ≡ false)
      → IsFrame (Beside rs Region) fr
      → Ready m.dev
      → ((q : ℕ)
          → q < (header disk).count
          → viable disk (header disk) max_lbas (some guid) none q ≡ false)
      → Halts
          (λ m'. Ready m'.dev × ((q : ℕ) → Region q ≡ true → m'.mem q ≡ m.mem q))
          (load_part_or_spin rread fr uninit guid dst max_lbas m)
  unfolding load_part_or_spin
  load_part_or_spin-absent Region guid dst max_lbas m apart ok ready absent =
      copy_found-absent disk rread fr uninit max_lbas guid dst absent (
        find_partition_lem (Reads-Serves-Around rs Region m.mem apart) ok on max_lbas (some guid)
          none uninit m (ready, λ q h. refl))
