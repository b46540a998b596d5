-- ===== src/Flash/Reading.antt =====
-- `spi_s25fs512s_single_read` of sw/lib/hal/spi_s25fs512s.c as a reader of the flash.
use cheshire_fork.Base.{
  ℕ, zero, suc, ◌+◌, ◌-◌, ◌*◌, ◌^◌, ◌≤◌, ◌<◌, ◌≡◌, arith, true, false, ltb, leb, [], ◌∷◌,
  if◌then◌else◌, u32, u64, tabulate, Bool-cases, inl, inr,
}
use cheshire_fork.Machine.{Machine, check_assert, check_call}
use cheshire_fork.Machine.Bytes.{
  Mem, IsCopied, store_bytes-tabulate, IsCopied-zero, IsCopied-append,
}
use cheshire_fork.Machine.Returns
use cheshire_fork.Machine.Returns.{Returns, returns}
use cheshire_fork.Reader.{Reads, no_scratch, IsCopied-IsRead}
use cheshire_fork.SpiHost.{SpiHost, opcode, address, rx, transact}
use cheshire_fork.Flash.{Handle, single_read_chunk, read_loop, single_read}

-- The flash as the bus shows it: a READ (opcode 0x13, 4-byte address) below `size` succeeds and
-- returns the stored bytes, in any state that a read may start from, and leads to such a state.
pub record IsFlash {D : Type 0} (host : SpiHost D) (csid : ℕ) (Ready : D → Type 0) (disk : Mem)
    (size : ℕ) : Type 0 where
  pub depth : 0 < host.rx_depth
  pub size_fits : size ≤ 2 ^ 32
  pub answers :
      (d : D) (addr len : ℕ)
      → Ready d
      → addr + len ≤ size
      → (let r = host.transaction false csid (opcode 0x13 ∷ address addr ∷ rx len ∷ []) d in
          (r.code ≡ 0) × (r.received ≡ tabulate disk addr len) × Ready r.after)

module _ {D : Type 0} {host : SpiHost D} (h : Handle) {Ready : D → Type 0} {disk : Mem} {size : ℕ}
    (flash : IsFlash host h.csid Ready disk size) where
  chunk_lem :
      (buf addr len : ℕ) (m : Machine D)
      → Ready m.dev
      → addr + len ≤ size
      → 0 < len
      → Returns
          (λ _ m'. Ready m'.dev × IsCopied disk addr buf len m.mem m'.mem)
          (single_read_chunk host h buf addr len m)
  unfolding single_read_chunk transact check_call
  chunk_lem buf addr len m ready inside pos =
      let same : u32 addr ≡ addr = omega (arith, flash.size_fits) in
      let (code, received, after) = flash.answers m.dev addr len ready inside in
      rw (same, code) (returns (after, rw received (store_bytes-tabulate disk addr buf len m.mem)))

  read_loop_lem :
      (n buf addr len offs : ℕ) (m : Machine D)
      → len - offs < n
      → Ready m.dev
      → addr + len ≤ size
      → Returns
          (λ _ m'.
            Ready m'.dev × IsCopied disk (addr + offs) (buf + offs) (len - offs) m.mem m'.mem)
          (read_loop host h n buf addr len offs m)
  unfolding read_loop
  read_loop_lem zero buf addr len offs m fuel ready inside = absurd (omega arith)
  read_loop_lem (suc n) buf addr len offs m fuel ready inside = elim (Bool-cases (ltb offs len)) [
    | inl more ↦
        let wrap : u64 (addr + offs) ≡ addr + offs = ground (arith, flash.size_fits) in
        rw (more, wrap)
          (Returns.bind
            (chunk_lem (buf + offs) (addr + offs) c m ready (ground arith)
              (ground (arith, flash.depth)))
            λ _ m1 (ready1, first).
              Returns.mono
                (read_loop_lem n buf addr len (offs + 4 * host.rx_depth) m1
                  (ground (arith, flash.depth)) ready1 inside)
                λ _ m2 (ready2, rest). (
                  ready2,
                  IsCopied-append disk (addr + offs) (buf + offs) c (addr + (offs + step))
                      (buf + (offs + step)) (len - (offs + step)) (len - offs) m.mem m1.mem m2.mem
                      first rest (ground arith) (ground arith),
                ))
    | inr over ↦
        let none_left : len - offs ≡ 0 = ground arith in
        rw (over, none_left) (returns (ready, IsCopied-zero disk (addr + offs) (buf + offs) m.mem))
  ]
    where
      step : ℕ
      step = 4 * host.rx_depth

      c : ℕ
      c = if leb step (len - offs) then step else len - offs

  -- For a flash that answers READs, and an SPI frequency below 50 MHz, `single_read` is a reader of
  -- the flash's contents: it returns 0, copies exactly the requested bytes and writes nowhere else.
  pub single_read-Reads :
      (Free : ℕ → ℕ → Type 0)
      → h.spi_freq < 50000000
      → Reads Ready Free no_scratch disk size (single_read host h)
  unfolding single_read check_assert
  single_read-Reads Free slow = record {
    reads = λ buf addr len m ready inside below free.
        let fast : ltb h.spi_freq 50000000 ≡ true = ground arith in
        rw fast (
          Returns.mono (read_loop_lem (len + 1) buf addr len 0 m (omega arith) ready inside)
            λ _ m' (ready', copied). (
              ready',
              IsCopied-IsRead disk addr buf len m.mem m'.mem (λ q. ground (arith, copied q)),
            ));
  }
