-- ===== src/SdCard/Blocks.antt =====
-- One block of a transfer: received, checked and copied to its place.
use mathlib.Core.Path.{subst}
use cheshire_fork.Base.{
  ℕ, zero, suc, ◌+◌, ◌-◌, ◌*◌, ◌/◌, ◌%◌, ◌≤◌, ◌<◌, ◌≡◌, sym, ◌∙◌, ap, refl, arith, Bool, true,
  false, not, ◌&&◌, ◌||◌, List, [], ◌∷◌, ◌==◌, if◌then◌else◌, tabulate,
}
use cheshire_fork.Machine.{Machine, Cmd, return_if, ◌>>◌, ◌>>=◌, mem_of, set_mem}
use cheshire_fork.Machine.Bytes.{Mem, in_range, copy}
use cheshire_fork.Machine.Returns
use cheshire_fork.Machine.Returns.{Returns, returns}
use cheshire_fork.Reader.{IsRead}
use cheshire_fork.SpiHost.{SpiHost}
use cheshire_fork.Crc.{crc16}
use cheshire_fork.Crc.Block.{IsBytes, crc16-serial16}
use cheshire_fork.SdCard.{Handle, data_timeout, receive}
use cheshire_fork.SdCard.Command.{Undefined, overlay}
use cheshire_fork.SdCard.Read.{no_token, chunk_loop, copy_part, read_block}
use cheshire_fork.SdCard.Card.{Stream, shift, IsCard, IsBlock, block_crc}
use cheshire_fork.SdCard.Polling.{shift-shift, receive_lem, poll_lem}
use cheshire_fork.SdCard.Chunks.{chunk_loop_lem}

-- The part of a block that is wanted.
abbrev pub lowest : Bool → ℕ → ℕ
lowest first first_offs = if first then first_offs else 0

abbrev pub highest : Bool → ℕ → ℕ
highest last last_len = if last then last_len else 512

-- Where a block is received.
abbrev pub received_at : Bool → Bool → (dst swap : ℕ) → ℕ
received_at first last dst swap = if first || last then swap else dst

-- The block stands at `a`, and the rest of memory is as in `f`.
record Holds (disk : Mem) (at a : ℕ) (f g : Mem) : Type 0 where
  pub bytes : (i : ℕ) → i < 512 → g (a + i) ≡ disk (at + i)
  pub others : (q : ℕ) → in_range a 512 q ≡ false → g q ≡ f q

copy_part_lem :
    {D : Type 0} (host : SpiHost D) (u : Undefined) (h : Handle) (first last : Bool) (disk : Mem)
    (at dst swap first_offs last_len : ℕ) (f g : Mem)
    → Holds disk at (received_at first last dst swap) f g
    → first_offs ≤ 512
    → last_len ≤ 512
    → lowest first first_offs ≤ highest last last_len
    → ((i : ℕ)
        → lowest first first_offs ≤ i
        → i < highest last last_len
        → in_range swap 512 (dst + i) ≡ false)
    → IsRead
        (in_range swap 512)
        disk
        (at + lowest first first_offs)
        (dst + lowest first first_offs)
        (highest last last_len - lowest first first_offs)
        f
        (copy_part host u h first last dst swap first_offs last_len g)
unfolding copy_part copy
copy_part_lem host u h true true disk at dst swap fo ll f g held fo_512 ll_512 order apart =
    record {
      placed = λ i below. ground (arith, held.bytes (fo + i));
      kept = λ q out free. ground (arith, held.others q);
    }
copy_part_lem host u h true false disk at dst swap fo ll f g held fo_512 ll_512 order apart =
    record {
      placed = λ i below. ground (arith, held.bytes (fo + i));
      kept = λ q out free. ground (arith, held.others q);
    }
copy_part_lem host u h false true disk at dst swap fo ll f g held fo_512 ll_512 order apart =
    record {
      placed = λ i below. ground (arith, held.bytes i);
      kept = λ q out free. ground (arith, held.others q);
    }
copy_part_lem host u h false false disk at dst swap fo ll f g held fo_512 ll_512 order apart =
    record {
      placed = λ i below. ground (arith, held.bytes i);
      kept = λ q out free. ground (arith, held.others q);
    }

pub tabulate_ext :
    (f g : Mem) (a b n : ℕ)
    → ((i : ℕ) → i < n → f (a + i) ≡ g (b + i))
    → tabulate f a n ≡ tabulate g b n
tabulate_ext f g a b zero h = refl
tabulate_ext f g a b (suc n) h =
    let head : f a ≡ g b = ground (arith, h 0 (omega arith)) in
    let tail : tabulate f (a + 1) n ≡ tabulate g (b + 1) n =
      tabulate_ext f g (a + 1) (b + 1) n λ i below. ground (arith, h (i + 1) (omega arith)) in
    rw (head, tail) refl

tabulate-IsBytes : (f : Mem) (a n : ℕ) → ((q : ℕ) → f q < 256) → IsBytes (tabulate f a n)
tabulate-IsBytes f a zero h = tt
tabulate-IsBytes f a (suc n) h = (h a, tabulate-IsBytes f (a + 1) n h)

-- The checksum that the card sends is the one that the driver computes.
crc_lem :
    (disk : Mem) (block : ℕ)
    → ((a : ℕ) → disk a < 256)
    → overlay (block_crc disk block / 256 ∷ (block_crc disk block % 256) ∷ []) 0
      ≡ crc16 (tabulate disk (512 * block) 512)
unfolding overlay
crc_lem disk block small =
    let (e, fits) =
      crc16-serial16 (tabulate disk (512 * block) 512)
        (tabulate-IsBytes disk (512 * block) 512 small) in
    omega (arith, e)

agrees : (check : Bool) {a b : ℕ} → a ≡ b → (check && not (a == b)) ≡ false
agrees check e = ground (arith, e)

module _ {D : Type 0} {host : SpiHost D} {h : Handle} {Ready Open : D → Type 0} {line : D → Stream}
    {disk : Mem} {size : ℕ} (card : IsCard host h Ready Open line disk size) (u : Undefined) where
  -- Behind the token: the data and the checksum.
  body_lem :
      (block bb : ℕ) (s next : Stream) (m : Machine D)
      → (b : IsBlock disk block s next) → line m.dev ≡ shift (b.wait + 1) s
      → Open m.dev
      → Returns
          (λ got m'.
            (got ≡ block_crc disk block / 256 ∷ (block_crc disk block % 256) ∷ [])
            × Open m'.dev
            × (line m'.dev ≡ next)
            × Holds disk (512 * block) bb m.mem m'.mem)
          ((chunk_loop host u h 513 bb 0 >> receive host h 2) m)
  unfolding shift
  body_lem block bb s next m b on ok =
      Returns.bind (chunk_loop_lem card u 513 bb 0 m (omega arith) ok) λ _ m1 (ok1, on1, copied).
        Returns.mono (receive_lem card.talks 2 m1 ok1) λ got m2 (e, went).
          let at0 : b.wait + 1 + (512 - 0 + 0) ≡ b.wait + 513 = omega arith in
          let at1 : b.wait + 1 + (512 - 0 + 1) ≡ b.wait + 514 = omega arith in
          let high : line m1.dev 0 ≡ block_crc disk block / 256 = rw (on1, on, at0) b.crc_high in
          let low : line m1.dev 1 ≡ block_crc disk block % 256 = rw (on1, on, at1) b.crc_low in
          (
            e ∙ rw (high, low) refl,
            went.open_still,
            went.line_on
                ∙ ap (shift 2) (on1 ∙ ap (shift 512) on)
                ∙ ap (shift 2) (shift-shift 512 (b.wait + 1) s)
                ∙ shift-shift 2 (b.wait + 1 + 512) s
                ∙ ap (λ k. shift k s) (omega arith)
                ∙ sym b.rest,
            rw went.mem_same (record {
              bytes = λ i below. ground (arith, copied (bb + i), b.bytes i below, ap (λ l. l i) on);
              others = λ q out. ground (arith, copied q);
            }),
          )

  -- A round of the loop puts the wanted part of its block in its place, by way of the swap buffer
  -- where it does not want all of it.
  pub read_block_lem :
      (block dst swap first_offs last_len : ℕ) (first last check : Bool) (next : Stream)
      (m : Machine D)
      → Open m.dev
      → IsBlock disk block (line m.dev) next
      → first_offs ≤ 512
      → last_len ≤ 512
      → lowest first first_offs ≤ highest last last_len
      → ((i : ℕ)
          → lowest first first_offs ≤ i
          → i < highest last last_len
          → in_range swap 512 (dst + i) ≡ false)
      → Returns
          (λ _ m'.
            Open m'.dev
            × (line m'.dev ≡ next)
            × IsRead
                (in_range swap 512)
                disk
                (512 * block + lowest first first_offs)
                (dst + lowest first first_offs)
                (highest last last_len - lowest first first_offs)
                m.mem
                m'.mem)
          (read_block host u h first last dst swap first_offs last_len check m)
  unfolding read_block
  read_block_lem block dst swap fo ll first last check next m ok b fo_512 ll_512 order apart =
      Returns.bind (poll_lem card.talks no_token data_timeout b.wait 0 m ok b.token)
        λ (left, token) m1 (el, ex, went).
          Returns.passes (left == 0) 0x19 _ m1 (ground (arith, el, b.token.in_time)) (
            Returns.passes (not (token == 0xFE)) 0x20 _ m1 (ground (arith, ex, b.start)) (
              Returns.assoc (chunk_loop host u h 513 bb 0 m1) (λ _. receive host h 2) check_block
                (Returns.bind
                  (body_lem block bb (line m.dev) next m1 b went.line_on went.open_still)
                  λ crc m2 (e, ok2, on2, held).
                    let held' : Holds disk (512 * block) bb m.mem m2.mem =
                      subst (λ f. Holds disk (512 * block) bb f m2.mem) went.mem_same held in
                    Returns.passes _ 0x21
                      (set_mem (copy_part host u h first last dst swap fo ll m2.mem)) m2
                      (agrees check (
                        ap (λ l. overlay l 0) e
                        ∙ crc_lem disk block card.are_bytes
                        ∙ ap crc16
                            (sym (tabulate_ext m2.mem disk bb (512 * block) 512 held'.bytes))))
                      (returns (
                        ok2,
                        on2,
                        copy_part_lem host u h first last disk (512 * block) dst swap fo ll m.mem
                            m2.mem held' fo_512 ll_512 order apart,
                      )))))
    where
      bb : ℕ
      bb = received_at first last dst swap

      check_block : List ℕ → Cmd D (Unit {0})
      check_block crc = do
        f ← mem_of
        return_if (check && not (overlay crc 0 == crc16 (tabulate f bb 512))) 0x21
        set_mem (copy_part host u h first last dst swap fo ll f)
