-- ===== src/SdCard/Reading.antt =====
-- The read callbacks of sw/lib/hal/spi_sdcard.c against a card.
use Prim.Native.Nat.{bit_and}
use mathlib.Core.Path.{subst}
use cheshire_fork.Base.{
  ℕ, ◌+◌, ◌-◌, ◌*◌, ◌/◌, ◌%◌, ◌^◌, ◌≤◌, ◌<◌, ◌≡◌, sym, ◌∙◌, ap, refl, arith, Bool, true, false, ltb,
  ◌==◌, if◌then◌else◌, get_or, u32, u64, sub64, Bool-cases, inl, inr,
}
use cheshire_fork.Base.Masks.{and_ones}
use cheshire_fork.Machine.{Machine, check_assert, check_call, ◌>>=◌, pure}
use cheshire_fork.Machine.Bytes.{Mem, in_range}
use cheshire_fork.Machine.Returns
use cheshire_fork.Machine.Returns.{Returns, returns}
use cheshire_fork.Reader.{IsRead, Reads, IsRead-cong}
use cheshire_fork.SpiHost.{SpiHost, transact}
use cheshire_fork.Crc.Command.{crc_byte}
use cheshire_fork.SdCard.{Handle, r1, r1b, r1b_timeout, xfer_csaat, receive, csfree}
use cheshire_fork.SdCard.Frame.{bytes_of, build_cmd, frame_head, build_cmd-bytes}
use cheshire_fork.SdCard.Command.{Undefined, no_response, is_busy, cmd, cmd_check, finish}
use cheshire_fork.SdCard.Read.{read_blocks, read, read_checkcrc, read_ignorecrc}
use cheshire_fork.SdCard.Card.{Stream, shift, IsCard, AreBlocks, Comes}
use cheshire_fork.SdCard.Polling.{receive_lem, poll_lem, Went}
use cheshire_fork.SdCard.Transfer.{IsTransfer, block_loop_lem}

-- The low byte of a command is its opcode.
opcode_lem :
    (opcode arg : ℕ) → opcode < 256 → arg < 2 ^ 32 → bit_and (build_cmd opcode arg) 0xFF ≡ opcode
unfolding bytes_of
opcode_lem opcode arg ho ha =
    and_ones 8 (build_cmd opcode arg)
    ∙ ap (λ bytes. get_or bytes 0 0) (build_cmd-bytes opcode arg ho ha)

-- The length of the last block's part, and the number of blocks, as the driver computes them.
abbrev last_len : (addr len : ℕ) → ℕ
last_len addr len = let pte_offs = u64 (addr + len) % 512 in if pte_offs == 0 then 512 else pte_offs

abbrev block_count : (addr len : ℕ) → ℕ
block_count addr len = u64 (len + addr % 512 + 511) / 512

ends_lem :
    (addr len : ℕ)
    → 0 < len
    → addr + len ≤ 2 ^ 41
    → 512 * (block_count addr len - 1) + last_len addr len ≡ addr % 512 + len
ends_lem addr len some fits = ground arith

blocks_lem :
    (addr len size : ℕ)
    → addr + len ≤ size
    → size ≤ 2 ^ 41
    → size % 512 ≡ 0
    → 512 * (addr / 512 + block_count addr len) ≤ size
blocks_lem addr len size inside fits whole = omega arith

module _ {D : Type 0} {host : SpiHost D} {h : Handle} {Ready Open : D → Type 0} {line : D → Stream}
    {disk : Mem} {size : ℕ} (card : IsCard host h Ready Open line disk size) (u : Undefined) where
  -- The read command opens the card, and the blocks come.
  open_lem :
      (block count : ℕ) (m : Machine D)
      → Ready m.dev
      → 0 < count
      → 512 * (block + count) ≤ size
      → Returns
          (λ _ m'. Open m'.dev × AreBlocks disk block count (line m'.dev) × (m'.mem ≡ m.mem))
          (cmd host h (build_cmd (if ltb 1 count then 0x52 else 0x51) (u32 block)) r1 true m)
  unfolding cmd xfer_csaat transact check_assert check_call finish
  open_lem block count m ready some inside =
      let opcode : ℕ = if ltb 1 count then 0x52 else 0x51 in
      let narrow : u32 block ≡ block = omega (arith, card.size_fits) in
      let small : opcode < 256 = ground arith in
      let fits : block < 2 ^ 32 = omega (arith, card.size_fits) in
      let frame = build_cmd-bytes opcode block small fits in
      let no_stop : (bit_and (build_cmd opcode block) 0xFF == 0x4C) ≡ false =
        ground (arith, opcode_lem opcode block small fits) in
      let (code, ok, answer) =
        card.reads m.dev block count (crc_byte (frame_head opcode block)) ready some inside in
      rw (narrow, frame, code, no_stop)
        (Returns.bind (poll_lem card.talks no_response 8 answer.wait 0 _ ok answer.response)
          λ (left, first) m1 (el, ex, went).
            Returns.passes (left == 0) 0x12 _ m1 (ground (arith, el, answer.response.in_time)) (
              returns (
                went.open_still,
                subst (AreBlocks disk block count) (sym went.line_on) answer.blocks,
                went.mem_same,
              )))

  csfree_lem :
      (m : Machine D)
      → Open m.dev
      → Returns (λ _ m'. Ready m'.dev × (m'.mem ≡ m.mem)) (csfree host h m)
  unfolding csfree transact check_call
  csfree_lem m ok = let (code, ready) = card.closes m.dev ok in rw code (returns (ready, refl))

  freed_lem :
      (m : Machine D)
      → Open m.dev
      → Returns (λ _ m'. Ready m'.dev × (m'.mem ≡ m.mem)) ((csfree host h >>= λ _. pure tt) m)
  freed_lem m ok = Returns.bind (csfree_lem m ok) λ _ m1 p. returns p

  -- The stuff byte of the answer is taken off.
  stuff_lem :
      (m : Machine D)
      → Open m.dev
      → Returns (λ _ m'. Went card.talks 1 m m') ((receive host h 1 >>= λ _. pure tt) m)
  stuff_lem m ok = Returns.bind (receive_lem card.talks 1 m ok) λ _ m1 (e, went). returns went

  -- The end of a response with a busy signal.
  busy_lem :
      (busy : ℕ) (m : Machine D)
      → Open m.dev
      → Comes is_busy r1b_timeout busy (line m.dev)
      → Returns (λ _ m'. Open m'.dev × (m'.mem ≡ m.mem)) (finish host h r1b m)
  unfolding finish
  busy_lem busy m ok idle =
      Returns.bind (poll_lem card.talks is_busy r1b_timeout busy 0 m ok idle)
        λ (left, byte) m1 (el, ex, went).
          Returns.passes (left == 0) 0x13 _ m1 (ground (arith, el, idle.in_time))
            (returns (went.open_still, went.mem_same))

  stop_cmd :
      (m : Machine D)
      → Open m.dev
      → Returns (λ _ m'. Ready m'.dev × (m'.mem ≡ m.mem)) (cmd host h 0x61000000004C r1b false m)
  unfolding cmd xfer_csaat transact check_assert check_call bytes_of
  stop_cmd m ok =
      let (code, ok1, answer) = card.stops m.dev ok in
      rw code (
        Returns.bind (stuff_lem _ ok1) λ _ m1 went1.
          Returns.bind
            (poll_lem card.talks no_response 8 answer.wait 0 m1 went1.open_still
              (subst (Comes no_response 8 answer.wait) (sym went1.line_on) answer.response))
            λ (left, first) m2 (el, ex, went2).
              Returns.passes (left == 0) 0x12 _ m2 (ground (arith, el, answer.response.in_time)) (
                Returns.bind
                  (busy_lem answer.busy m2 went2.open_still (
                    subst (Comes is_busy r1b_timeout answer.busy)
                      (sym (went2.line_on ∙ ap (shift (answer.wait + 1)) went1.line_on))
                      answer.idle))
                  λ more m3 (ok3, same3). Returns.bind (freed_lem m3 ok3) λ _ m4 (ready, same4).
                    returns (ready, same4 ∙ same3 ∙ went2.mem_same ∙ went1.mem_same)))

  stop_lem :
      (m : Machine D)
      → Open m.dev
      → Returns
          (λ _ m'. Ready m'.dev × (m'.mem ≡ m.mem))
          (cmd_check host h u 0x61000000004C r1b false 0 m)
  unfolding cmd_check
  stop_lem m ok = Returns.bind (stop_cmd m ok) λ _ m1 p. returns p

  close_lem :
      (len : ℕ) (m : Machine D)
      → Open m.dev
      → Returns
          (λ _ m'. Ready m'.dev × (m'.mem ≡ m.mem))
          ((if ltb 1 len
              then cmd_check host h u 0x61000000004C r1b false 0
              else (csfree host h >>= λ _. pure tt))
            m)
  close_lem len m ok = elim (Bool-cases (ltb 1 len)) [
    | inl several ↦ rw several (stop_lem m ok)
    | inr single ↦ rw single (freed_lem m ok)
  ]

  read_blocks_lem :
      (buf block len swap first_offs last_len base : ℕ) (check : Bool) (m : Machine D)
      → Ready m.dev
      → 512 * (block + len) ≤ size
      → base ≡ sub64 buf first_offs
      → IsTransfer len base swap first_offs last_len
      → Returns
          (λ _ m'.
            Ready m'.dev
            × IsRead
                (in_range swap 512)
                disk
                (512 * block + first_offs)
                (base + first_offs)
                (512 * (len - 1) + last_len - first_offs)
                m.mem
                m'.mem)
          (read_blocks host u h buf block len swap first_offs last_len check m)
  unfolding read_blocks
  read_blocks_lem buf block len swap fo ll base check m ready inside e t =
      let some : (len == 0) ≡ false = ground (arith, t.count) in
      rw (some, ← e)
        (Returns.bind (open_lem block len m ready t.count inside) λ _ m1 (ok, blocks, same1).
          Returns.bind
            (block_loop_lem card u block len base swap fo ll t len 0 check m1 (omega arith) ok
              (subst (λ k. AreBlocks disk k len (line m1.dev)) (omega arith) blocks))
            λ _ m2 (ok2, r). Returns.mono (close_lem len m2 ok2) λ _ m3 (ready3, same3). (
              ready3,
              subst (λ f. Piece f m3.mem) same1
                  (subst (λ g. Piece m1.mem g) (sym same3)
                    (IsRead-cong (omega arith) (omega arith) (omega arith) r)),
            ))
    where
      Piece : Mem → Mem → Type 0
      Piece f g =
          IsRead (in_range swap 512) disk (512 * block + fo) (base + fo) (512 * (len - 1) + ll - fo)
            f g

  -- `__spi_sdcard_read` is such a reader, if no buffer lies on its swap buffer or in the first 512
  -- bytes of memory.
  read_lem :
      (Free : ℕ → ℕ → Type 0) (swap : ℕ) (check : Bool)
      → ((buf len : ℕ)
          → Free buf len
          → (512 ≤ buf) × ((i : ℕ) → i < len → in_range swap 512 (buf + i) ≡ false))
      → Reads Ready Free (in_range swap 512) disk size (read host u h swap check)
  unfolding read
  read_lem Free swap check roomy = record {
    reads = λ buf addr len m ready inside below free. elim (Bool-cases (len == 0)) [
      | inl nothing ↦ rw nothing (
          returns (
            ready,
            record {
              placed = λ i inner. absurd (ground (arith, inner));
              kept = λ q out clear. refl;
            },
          ))
      | inr something ↦
          let fo = addr % 512 in
          let ll = last_len addr len in
          let cnt = block_count addr len in
          let (high, apart) = roomy buf len free in
          let some : 0 < len = ground arith in
          let ends = ends_lem addr len some (omega (arith, card.size_fits)) in
          let t : IsTransfer cnt (buf - fo) swap fo ll = record {
            count = omega (arith, card.size_fits);
            first_inside = omega arith;
            last_inside = ground arith;
            last_some = ground arith;
            some = omega (arith, ends);
            in_space = omega (arith, ends);
            apart = λ i above inner. ground (arith, apart (i - fo), ends);
          } in
          let at : 512 * (addr / 512) + fo ≡ addr = omega arith in
          let dst : buf - fo + fo ≡ buf = omega arith in
          let n : 512 * (cnt - 1) + ll - fo ≡ len = omega (arith, ends) in
          rw something (
            Returns.mono
              (read_blocks_lem buf (addr / 512) cnt swap fo ll (buf - fo) check m ready
                (blocks_lem addr len size inside card.size_fits card.whole_blocks) (omega arith) t)
              λ _ m' (ready', r). (ready', IsRead-cong at dst n r))
    ];
  }

  -- The card reader with and without the check of the checksums is a reader as the boot code
  -- expects one, over a card in SPI mode whose blocks carry right checksums: it returns 0, copies
  -- exactly the bytes wanted, also where the range starts or ends within a block, and changes
  -- nothing else but its swap buffer. No wanted buffer may lie on the swap buffer or in the first
  -- 512 bytes of memory.
  pub read_checkcrc-Reads :
      (Free : ℕ → ℕ → Type 0) (swap : ℕ)
      → ((buf len : ℕ)
          → Free buf len
          → (512 ≤ buf) × ((i : ℕ) → i < len → in_range swap 512 (buf + i) ≡ false))
      → Reads Ready Free (in_range swap 512) disk size (read_checkcrc host u h swap)
        × Reads Ready Free (in_range swap 512) disk size (read_ignorecrc host u h swap)
  unfolding read_checkcrc read_ignorecrc
  read_checkcrc-Reads Free swap roomy =
      (read_lem Free swap true roomy, read_lem Free swap false roomy)
