-- ===== src/SdCard/Read.antt =====
-- `__spi_sdcard_read_blocks`, `__spi_sdcard_read` and its two public callers.
use cheshire_fork.Base.{
  ℕ, zero, suc, ◌+◌, ◌-◌, ◌*◌, ◌/◌, ◌%◌, Bool, true, false, not, ◌&&◌, ◌||◌, ltb, leb, ◌==◌,
  if◌then◌else◌, tabulate, u32, u64, sub64,
}
use cheshire_fork.Machine.{Cmd, diverge, ◌>>=◌, ◌>>◌, pure, return_if, mem_of, set_mem}
use cheshire_fork.Machine.Bytes.{Mem, store_bytes, copy}
use cheshire_fork.Crc.{crc16}
use cheshire_fork.SpiHost.{SpiHost}
use cheshire_fork.SdCard.{Handle, r1, r1b, data_timeout, receive, csfree, poll}
use cheshire_fork.SdCard.Command.{Undefined, cmd, cmd_check, overlay}
use cheshire_fork.SdCard.Frame.{build_cmd}

-- No token has come yet while the line is idle.
unfoldable pub no_token : ℕ → Bool
no_token b = b == 0xFF

module _ {D : Type 0} (host : SpiHost D) (u : Undefined) (h : Handle) where
  -- The chunks of at most FIFO size, `for (offs = 0; offs < 512; offs += 4 * RX_DEPTH)`. The fuel
  -- bounds the rounds; 513 are enough for any depth above 0.
  unfoldable pub chunk_loop : ℕ → ℕ → ℕ → Cmd D (Unit {0})
  chunk_loop zero block_buf offs = diverge
  chunk_loop (suc n) block_buf offs =
      let step = 4 * host.rx_depth in
      let more = (do
        bytes ← receive host h (if leb step (512 - offs) then step else 512 - offs)
        f ← mem_of
        set_mem (store_bytes (block_buf + offs) bytes f)
        chunk_loop n block_buf (offs + step)) in
      if ltb offs 512 then more else pure tt

  -- Copy from the swap buffer what is wanted of the first or last block.
  unfoldable pub copy_part : Bool → Bool → (dst swap first_offs last_len : ℕ) → Mem → Mem
  copy_part true true dst swap first_offs last_len =
      copy (dst + first_offs) (swap + first_offs) (sub64 last_len first_offs)
  copy_part true false dst swap first_offs last_len =
      copy (dst + first_offs) (swap + first_offs) (512 - first_offs)
  copy_part false true dst swap first_offs last_len = copy dst swap last_len
  copy_part false false dst swap first_offs last_len = λ f. f

  -- One round of the loop over the blocks: token, data, checksum, copy.
  unfoldable pub read_block :
      Bool → Bool → (dst swap first_offs last_len : ℕ) → Bool → Cmd D (Unit {0})
  unfolding no_token return_if chunk_loop copy_part crc16
  read_block first_block last_block dst swap first_offs last_len check_crc = do
    (left, token) ← poll host h no_token data_timeout 0
    return_if (left == 0) 0x19
    return_if (not (token == 0xFE)) 0x20
    let block_buf = if first_block || last_block then swap else dst
    chunk_loop 513 block_buf 0
    crc ← receive host h 2
    f ← mem_of
    return_if (check_crc && not (overlay crc 0 == crc16 (tabulate f block_buf 512))) 0x21
    set_mem (copy_part first_block last_block dst swap first_offs last_len f)

  -- The loop over the blocks, by the rounds that are left. `base` is the destination, moved back
  -- to a block boundary.
  unfoldable pub block_loop :
      (left b : ℕ) → (len base swap first_offs last_len : ℕ) → Bool → Cmd D (Unit {0})
  block_loop zero b len base swap first_offs last_len check_crc = pure tt
  block_loop (suc left) b len base swap first_offs last_len check_crc = do
    read_block (b == 0 && not (first_offs == 0)) (b + 1 == len && not (last_len == 512))
        (u64 (base + 512 * b)) swap first_offs last_len check_crc
    block_loop left (b + 1) len base swap first_offs last_len check_crc

  -- `__spi_sdcard_read_blocks`.
  unfoldable pub read_blocks :
      (buf block len swap first_offs last_len : ℕ) → Bool → Cmd D (Unit {0})
  unfolding block_loop read_block
  read_blocks buf block len swap first_offs last_len check_crc = if len == 0 then pure tt else do
    cmd host h (build_cmd (if ltb 1 len then 0x52 else 0x51) (u32 block)) r1 true
    block_loop len 0 len (sub64 buf first_offs) swap first_offs last_len check_crc
    if ltb 1 len
        then cmd_check host h u 0x61000000004C r1b false 0
        else (csfree host h >>= λ _. pure tt)

  -- `__spi_sdcard_read`. `swap` is the address of its 512-byte local.
  unfoldable pub read : (swap : ℕ) → Bool → (buf addr len : ℕ) → Cmd D (Unit {0})
  unfolding read_blocks
  read swap check_crc buf addr len =
      let first_offs = addr % 512 in
      let pte_offs = u64 (addr + len) % 512 in
      let last_len = if pte_offs == 0 then 512 else pte_offs in
      let len_blocks = u64 (len + first_offs + 511) / 512 in
      if len == 0
      then pure tt
      else read_blocks buf (addr / 512) len_blocks swap first_offs last_len check_crc

  -- `spi_sdcard_read_checkcrc` and `spi_sdcard_read_ignorecrc`.
  unfoldable pub read_checkcrc : (swap : ℕ) → (buf addr len : ℕ) → Cmd D (Unit {0})
  unfolding read
  read_checkcrc swap = read swap true

  unfoldable pub read_ignorecrc : (swap : ℕ) → (buf addr len : ℕ) → Cmd D (Unit {0})
  unfolding read
  read_ignorecrc swap = read swap false
