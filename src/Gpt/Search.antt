-- ===== src/Gpt/Search.antt =====
-- The steps of `gpt_find_partition` of sw/lib/gpt.c, through a reader that serves its buffers. `Keep`
-- is what the reads keep of the machine.
use cheshire_fork.Base.{
  ℕ, zero, suc, ◌+◌, ◌≤◌, ◌<◌, ◌≡◌, refl, sym, ◌∙◌, arith, Bool, true, false, ◌||◌, Option, none,
  some, ◌==◌, if◌then◌else◌, u64, inl, inr, Bool-cases, leb, sub64,
}
use cheshire_fork.Machine.{Machine, Run, pure}
use cheshire_fork.Machine.Bytes.{Mem, load_le-IsCopied, load_le-IsCopied_start, load64, IsCopied}
use cheshire_fork.Machine.Returns
use cheshire_fork.Machine.Returns.{Returns, returns}
use cheshire_fork.Reader.{Reader, Serves}
use cheshire_fork.Gpt.{
  Guid, HdrFields, PartFields, Frame, signature, clip, entry_offs, check_signature, signed_after,
  match_guid, matches, is_viable, read_dim, find_loop, read_header, find_partition,
}
use cheshire_fork.Gpt.Table.{
  header, entry_at, IsCut, dim_of, has_guid, viable, IsFirst, IsOnDisk, IsFrame,
}

module _ {D : Type 0} {Keep : Machine D → Type 0} {Free : ℕ → ℕ → Type 0} {disk : Mem} {size : ℕ}
    {read : Reader D} (rs : Serves Keep Free disk size read) {fr : Frame} (ok : IsFrame Free fr)
    (on : IsOnDisk disk size) where
  entry_offs-entry_at : (hf : HdrFields) (p : ℕ) → entry_offs hf p ≡ entry_at hf p
  unfolding entry_offs
  entry_offs-entry_at hf p = omega arith

  clip-IsCut : (max_lbas : ℕ) (first : PartFields) → IsCut max_lbas first (clip max_lbas first)
  unfolding clip
  clip-IsCut max_lbas first = ground arith

  signed_after_lem :
      (m : Machine D) {r : Run D (Unit {0})}
      → Returns (λ _ m'. Keep m' × IsCopied disk 0x200 fr.sig 8 m'.mem m'.mem) r
      → Returns (λ b m'. Keep m' × (b ≡ (load64 disk 0x200 == signature))) (signed_after read fr r)
  unfolding signed_after
  signed_after_lem m (returns {m = m'} (ready, copied)) = returns (
    ready,
    rw (load_le-IsCopied_start 8 disk 0x200 fr.sig 8 m'.mem m'.mem copied (omega arith)) refl,
  )

  -- The signature check is the comparison of the disk's eight bytes at LBA 1.
  pub check_signature_lem :
      (m : Machine D)
      → Keep m
      → Returns
          (λ b m'. Keep m' × (b ≡ (load64 disk 0x200 == signature)))
          (check_signature read fr m)
  unfolding check_signature
  check_signature_lem m ready = signed_after_lem m (
      rs.serves fr.sig 0x200 8 m ready (omega (arith, on.header_in)) (omega (arith, ok.below))
        ok.sig_free)

  read_header_lem :
      (m : Machine D)
      → Keep m
      → Returns (λ hf m'. Keep m' × (hf ≡ header disk)) (read_header read fr m)
  unfolding read_header
  read_header_lem m ready =
      Returns.bind
        (rs.serves fr.hf 0x248 16 m ready (omega (arith, on.header_in)) (omega (arith, ok.below))
          ok.hf_free)
        λ _ m' (ready', copied). returns (
          ready',
          ground (
            arith,
            load_le-IsCopied_start 8 disk 0x248 fr.hf 16 m'.mem m'.mem copied (omega arith),
            load_le-IsCopied 4 8 disk 0x248 fr.hf 16 m'.mem m'.mem copied (omega arith),
            load_le-IsCopied 4 12 disk 0x248 fr.hf 16 m'.mem m'.mem copied (omega arith),
          ),
        )

  read_dim_lem :
      (pe : ℕ) (m : Machine D)
      → pe + 48 ≤ size
      → Keep m
      → Returns
          (λ dim m'.
            Keep m'
            × (dim ≡ record {
              lba_begin = load64 disk (pe + 0x20);
              lba_end = load64 disk (pe + 0x28);
            }))
          (read_dim read fr pe m)
  unfolding read_dim
  read_dim_lem pe m inside ready =
      let same : u64 (pe + 0x20) ≡ pe + 0x20 = omega (arith, on.addressable) in
      rw same (
        Returns.bind
          (rs.serves fr.dim (pe + 0x20) 16 m ready (omega arith) (omega (arith, ok.below))
            ok.dim_free)
          λ _ m' (ready', copied). returns (
            ready',
            ground (
              arith,
              load_le-IsCopied_start 8 disk (pe + 0x20) fr.dim 16 m'.mem m'.mem copied
                  (omega arith),
              load_le-IsCopied 8 8 disk (pe + 0x20) fr.dim 16 m'.mem m'.mem copied (omega arith),
            ),
          ))

  match_guid_lem :
      (g : Option Guid) (offs : ℕ) (m : Machine D)
      → offs + 16 ≤ size
      → Keep m
      → Returns (λ b m'. Keep m' × (b ≡ has_guid disk g offs)) (match_guid read fr g offs m)
  unfolding match_guid has_guid
  match_guid_lem none offs m inside ready = returns (ready, refl)
  match_guid_lem (some (g0, g1)) offs m inside ready =
      Returns.bind (rs.serves fr.guid offs 16 m ready inside (omega (arith, ok.below)) ok.guid_free)
        λ _ m' (ready', copied). returns (
          ready',
          rw
              (
                load_le-IsCopied_start 8 disk offs fr.guid 16 m'.mem m'.mem copied (omega arith),
                load_le-IsCopied 8 8 disk offs fr.guid 16 m'.mem m'.mem copied (omega arith),
              )
              refl,
        )

  -- The second test, made where the first failed.
  second_guid :
      (hit first : Bool) (pguid : Option Guid) (offs : ℕ) (m : Machine D)
      → offs + 16 ≤ size
      → Keep m
      → hit ≡ first
      → Returns
          (λ b m'. Keep m' × (b ≡ (first || has_guid disk pguid offs)))
          ((if hit then pure true else match_guid read fr pguid offs) m)
  second_guid true true pguid offs m inside ready e = returns (ready, refl)
  second_guid true false pguid offs m inside ready e = absurd (cc)
  second_guid false true pguid offs m inside ready e = absurd (cc)
  second_guid false false pguid offs m inside ready e = match_guid_lem pguid offs m inside ready

  matches_lem :
      (tguid pguid : Option Guid) (pe : ℕ) (m : Machine D)
      → pe + 48 ≤ size
      → Keep m
      → Returns
          (λ b m'. Keep m' × (b ≡ (has_guid disk tguid pe || has_guid disk pguid (pe + 0x10))))
          (matches read fr tguid pguid pe m)
  unfolding matches
  matches_lem tguid pguid pe m inside ready =
      let same : u64 (pe + 0x10) ≡ pe + 0x10 = omega (arith, on.addressable) in
      rw same (
        Returns.bind (match_guid_lem tguid pe m (omega arith) ready) λ hit m' (ready', e).
          second_guid hit (has_guid disk tguid pe) pguid (pe + 0x10) m' (omega arith) ready' e)

  module _ (max_lbas : ℕ) (tguid pguid : Option Guid) where
    is_viable_lem :
        (hf : HdrFields) (p : ℕ) (m : Machine D)
        → entry_at hf p + 48 ≤ size
        → Keep m
        → Returns
            (λ b m'. Keep m' × (b ≡ viable disk hf max_lbas tguid pguid p))
            (is_viable read fr max_lbas tguid pguid (entry_at hf p) (dim_of disk hf p) m)
    unfolding is_viable viable
    is_viable_lem hf p m inside ready =
        elim (Bool-cases
          (leb max_lbas (sub64 (dim_of disk hf p).lba_end (dim_of disk hf p).lba_begin))) [
            | inl big ↦ rw big (returns (ready, refl))
            | inr fits ↦ rw fits (matches_lem tguid pguid (entry_at hf p) m inside ready)
          ]

    find_loop_lem :
        (hf : HdrFields) (left p : ℕ) (out0 out : PartFields) (m : Machine D)
        → p + left ≡ hf.count
        → ((q : ℕ) → q < hf.count → entry_at hf q + 48 ≤ size)
        → ((q : ℕ) → q < p → viable disk hf max_lbas tguid pguid q ≡ false)
        → out ≡ (if p == 0 then out0 else clip max_lbas (dim_of disk hf 0))
        → Keep m
        → Returns
            (λ found m'. Keep m' × IsFirst disk hf max_lbas tguid pguid out0 found)
            (find_loop read fr hf max_lbas tguid pguid left p out m)
    unfolding find_loop
    find_loop_lem hf zero p out0 out m count inside none_yet outputs ready =
        let all : p ≡ hf.count = omega arith in
        returns (
          ready,
          (
            (λ q h. none_yet q (omega arith)),
            (λ empty. let zero_p : p ≡ 0 = omega arith in outputs ∙ rw zero_p refl),
            (λ some_entry.
                let later : (p == 0) ≡ false = ground arith in
                let cut : out ≡ clip max_lbas (dim_of disk hf 0) = outputs ∙ rw later refl in
                rw cut (clip-IsCut max_lbas (dim_of disk hf 0))),
          ),
        )
    find_loop_lem hf (suc left) p out0 out m count inside none_yet outputs ready =
        rw (entry_offs-entry_at hf p) (
          Returns.bind (read_dim_lem (entry_at hf p) m (inside p (omega arith)) ready)
            λ dim m1 (ready1, e). rw e (
              Returns.bind (is_viable_lem hf p m1 (inside p (omega arith)) ready1)
                λ hit m2 (ready2, v). elim (Bool-cases hit) [
                  | inl found ↦
                      rw found (returns (ready2, (omega arith, sym v ∙ found, none_yet, refl)))
                  | inr miss ↦ rw miss (
                      find_loop_lem hf left (p + 1) out0
                        (if p == 0 then clip max_lbas (dim_of disk hf p) else out) m2 (omega arith)
                        inside (before (sym v ∙ miss)) (first_out outputs) ready2)
                ]))
      where
        before :
            viable disk hf max_lbas tguid pguid p ≡ false
            → (q : ℕ) → q < p + 1
            → viable disk hf max_lbas tguid pguid q ≡ false
        before now q h = ground (arith, none_yet q)

        first_out :
            out ≡ (if p == 0 then out0 else clip max_lbas (dim_of disk hf 0))
            → (if p == 0 then clip max_lbas (dim_of disk hf p) else out)
              ≡ (if p + 1 == 0 then out0 else clip max_lbas (dim_of disk hf 0))
        first_out e = ground arith

  pub find_partition_lem :
      (max_lbas : ℕ) (tguid pguid : Option Guid) (out : PartFields) (m : Machine D)
      → Keep m
      → Returns
          (λ found m'. Keep m' × IsFirst disk (header disk) max_lbas tguid pguid out found)
          (find_partition read fr max_lbas tguid pguid out m)
  unfolding find_partition
  find_partition_lem max_lbas tguid pguid out m ready =
      Returns.bind (read_header_lem m ready) λ hf m' (ready', e). rw e (
        find_loop_lem max_lbas tguid pguid (header disk) (header disk).count 0 out out m'
          (omega arith) on.entry_in (λ q h. absurd (omega arith)) refl ready')
