-- ===== src/Loader/Payload.antt =====
-- What the loader of sw/boot/zsl.c puts into memory.
use mathlib.Core.Bool.{false≢true}
use cheshire_fork.Base.{
  Bool, ℕ, ◌+◌, ◌≤◌, ◌<◌, ◌≡◌, ◌∙◌, sym, refl, arith, true, false, ◌^◌, Option, none, some,
}
use cheshire_fork.Machine.{Machine, Run, done, fail}
use cheshire_fork.Machine.Bytes.{Mem}
use cheshire_fork.Machine.Returns
use cheshire_fork.Machine.Returns.{Returns, returns}
use cheshire_fork.Reader.{Reader, Reads, Serves, Reads-Serves}
use cheshire_fork.Gpt.{Frame, Guid, PartFields, Found}
use cheshire_fork.Gpt.Table.{
  header, first_byte, byte_count, dim_of, viable, IsFirst, IsOnDisk, IsFrame,
}
use cheshire_fork.Gpt.Search.{find_partition_lem}
use cheshire_fork.Gpt.Find.{find_partition-IsFirst}
use cheshire_fork.Gpt.Boot.{load_addr, load_len, load_addr-first_byte, load_len-byte_count}
use cheshire_fork.Loader.{copy_found, load_part_or_spin, unchecked}

unchecked_lem :
    {D : Type 0} {P : Machine D → Type 0} {Q : Unit {0} → Machine D → Type 0} {r : Run D (Unit {0})}
    → ((a : Unit {0}) (m : Machine D) → Q a m → P m)
    → Returns Q r
    → Returns (λ _. P) (unchecked r)
unfolding unchecked
unchecked_lem weaken (returns q) = returns (weaken _ _ q)

-- Partition `p` is the first viable one.
pub record IsTarget (disk : Mem) (max_lbas : ℕ) (guid : Guid) (p : ℕ) : Type 0 where
  pub in_table : p < (header disk).count
  pub chosen : viable disk (header disk) max_lbas (some guid) none p ≡ true
  pub first : (q : ℕ) → q < p → viable disk (header disk) max_lbas (some guid) none q ≡ false

-- The blocks of partition `p` stand at `dst`.
abbrev pub IsLoaded : (disk : Mem) (p dst : ℕ) → Mem → Type 0
IsLoaded disk p dst f =
    (i : ℕ)
    → i < byte_count (dim_of disk (header disk) p)
    → f (dst + i) ≡ disk (first_byte (dim_of disk (header disk) p) + i)

module _ {D : Type 0} (disk : Mem) (rread : Reader D) (fr : Frame) (uninit : PartFields) where
  -- What the loader does behind a search that was right, from what it does for the target.
  pub copy_found_lem :
      {Keep : Machine D → Type 0} {max_lbas : ℕ} {guid : Guid} {p : ℕ} {P : Machine D → Type 0}
      (dst : ℕ)
      → IsTarget disk max_lbas guid p
      → ((m : Machine D)
          → Keep m
          → Returns
              (λ _. P)
              (unchecked (
                rread dst
                  (load_addr (dim_of disk (header disk) p))
                  (load_len (dim_of disk (header disk) p))
                  m)))
      → {r : Run D Found}
      → Returns
          (λ found m'. Keep m' × IsFirst disk (header disk) max_lbas (some guid) none uninit found)
          r
      → Returns (λ _. P) (copy_found rread fr uninit dst r)
  unfolding copy_found
  copy_found_lem {Keep} {max_lbas} {guid} {p} {P} dst t last
        (returns {a = found} {m = m} (ready, first)) =
      go found.part_idx found.range first
    where
      go :
          (i : Option ℕ) (range : PartFields)
          → IsFirst disk
              (header disk)
              max_lbas
              (some guid)
              none
              uninit
              (record { part_idx = i; range = range })
          → Returns
              (λ _. P)
              (copy_found rread fr uninit dst (done (record { part_idx = i; range = range }) m))
      go none range (all, _, _) = absurd (false≢true (sym (all p t.in_table) ∙ t.chosen))
      go (some q) range (inside, v, before, e) = rw (e ∙ same) (last m ready)
        where
          place : q ≡ p
          place = ground (arith, before p, t.first q)

          same : dim_of disk (header disk) q ≡ dim_of disk (header disk) p
          same = rw place refl

-- A load through a reader that serves: it keeps what the reads keep, and copies the target.
pub load_lem :
    {D : Type 0} {Keep : Machine D → Type 0} {Free : ℕ → ℕ → Type 0} {disk : Mem} {size : ℕ}
    {rread : Reader D} {fr : Frame}
    → Serves Keep Free disk size rread
    → IsFrame Free fr
    → IsOnDisk disk size
    → (uninit : PartFields) (guid : Guid) (dst max_lbas p : ℕ) (m : Machine D) → Keep m
    → IsTarget disk max_lbas guid p
    → first_byte (dim_of disk (header disk) p) + byte_count (dim_of disk (header disk) p) ≤ size
    → dst + byte_count (dim_of disk (header disk) p) ≤ 2 ^ 64
    → Free dst (byte_count (dim_of disk (header disk) p))
    → Returns
        (λ _ m'. Keep m' × IsLoaded disk p dst m'.mem)
        (load_part_or_spin rread fr uninit guid dst max_lbas m)
unfolding load_part_or_spin
load_lem {disk = disk} {rread = rread} {fr = fr} sv ok on uninit guid dst max_lbas p m keep t inside
      room free =
    copy_found_lem disk rread fr uninit dst t
      (λ m1 keep1.
        rw
          (
            load_addr-first_byte (dim_of disk (header disk) p),
            load_len-byte_count (dim_of disk (header disk) p),
          )
          (unchecked_lem (λ _ m2 (keep2, copied). (keep2, λ i h. ground (arith, copied (dst + i))))
            (sv.serves dst (first_byte (dim_of disk (header disk) p))
              (byte_count (dim_of disk (header disk) p)) m1 keep1 inside room free)))
      (find_partition_lem sv ok on max_lbas (some guid) none uninit m keep)

module _ {D : Type 0} {Ready : D → Type 0} {Free : ℕ → ℕ → Type 0} {Scratch : ℕ → Bool} {disk : Mem}
    {size : ℕ} {rread : Reader D} (rs : Reads Ready Free Scratch disk size rread) {fr : Frame}
    (ok : IsFrame Free fr) (on : IsOnDisk disk size) (uninit : PartFields) where
  -- Through a reader that reads the disk, the loader returns once it has copied the blocks of the
  -- first partition that is of the wanted type and fits in `max_lbas` blocks to `dst`.
  pub load_part_or_spin-IsCopied :
      (guid : Guid) (dst max_lbas p : ℕ) (m : Machine D)
      → Ready m.dev
      → IsTarget disk max_lbas guid p
      → first_byte (dim_of disk (header disk) p) + byte_count (dim_of disk (header disk) p) ≤ size
      → dst + byte_count (dim_of disk (header disk) p) ≤ 2 ^ 64
      → Free dst (byte_count (dim_of disk (header disk) p))
      → Returns
          (λ _ m'.
            (i : ℕ)
            → i < byte_count (dim_of disk (header disk) p)
            → m'.mem (dst + i) ≡ disk (first_byte (dim_of disk (header disk) p) + i))
          (load_part_or_spin rread fr uninit guid dst max_lbas m)
  load_part_or_spin-IsCopied guid dst max_lbas p m ready t inside room free =
      Returns.mono
        (load_lem (Reads-Serves rs) ok on uninit guid dst max_lbas p m ready t inside room free)
        λ _ m' (ready', placed). placed

  -- A reader that returns an error for the payload's blocks goes unnoticed: the loader returns as
  -- from a successful copy.
  pub load_part_or_spin-ignores_error :
      (guid : Guid) (dst max_lbas p c : ℕ) (m : Machine D)
      → Ready m.dev
      → IsTarget disk max_lbas guid p
      → ((m' : Machine D)
          → Ready m'.dev
          → rread dst
              (load_addr (dim_of disk (header disk) p))
              (load_len (dim_of disk (header disk) p))
              m'
            ≡ fail c m')
      → Returns (λ _ m'. Ready m'.dev) (load_part_or_spin rread fr uninit guid dst max_lbas m)
  unfolding load_part_or_spin unchecked
  load_part_or_spin-ignores_error guid dst max_lbas p c m ready t fails =
      copy_found_lem disk rread fr uninit dst t (λ m1 ready1. rw (fails m1 ready1) (returns ready1))
        (find_partition-IsFirst rs ok on max_lbas (some guid) none uninit m ready)
