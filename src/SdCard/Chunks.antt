-- ===== src/SdCard/Chunks.antt =====
-- A block received in chunks of the FIFO's size.
use mathlib.Core.Path.{fun_ext, subst}
use cheshire_fork.Base.{
  ℕ, zero, suc, ◌+◌, ◌-◌, ◌*◌, ◌<◌, ◌≡◌, sym, ◌∙◌, ap, refl, arith, ltb, leb, if◌then◌else◌,
  tabulate, Bool-cases, inl, inr,
}
use cheshire_fork.Machine.{Machine}
use cheshire_fork.Machine.Bytes.{
  Mem, IsCopied, store_bytes, store_bytes-tabulate, IsCopied-zero, IsCopied-append,
}
use cheshire_fork.Machine.Returns
use cheshire_fork.Machine.Returns.{Returns, returns}
use cheshire_fork.SpiHost.{SpiHost}
use cheshire_fork.SdCard.{Handle}
use cheshire_fork.SdCard.Command.{Undefined}
use cheshire_fork.SdCard.Read.{chunk_loop}
use cheshire_fork.SdCard.Card.{Stream, shift, IsCard}
use cheshire_fork.SdCard.Polling.{shift-shift, receive_lem}

shift_zero : (s : Stream) → shift 0 s ≡ s
unfolding shift
shift_zero s = fun_ext λ i. let e : 0 + i ≡ i = omega arith in ap s e

IsCopied-shift :
    (c s a n : ℕ) (line : Stream) (f g : Mem)
    → IsCopied (shift c line) s a n f g
    → IsCopied line (c + s) a n f g
unfolding shift
IsCopied-shift c s a n line f g copied q =
    let e : c + (s + (q - a)) ≡ c + s + (q - a) = omega arith in copied q ∙ rw e refl

module _ {D : Type 0} {host : SpiHost D} {h : Handle} {Ready Open : D → Type 0} {line : D → Stream}
    {disk : Mem} {size : ℕ} (card : IsCard host h Ready Open line disk size) (u : Undefined) where
  pub chunk_loop_lem :
      (n block_buf offs : ℕ) (m : Machine D)
      → 512 - offs < n
      → Open m.dev
      → Returns
          (λ _ m'.
            Open m'.dev
            × (line m'.dev ≡ shift (512 - offs) (line m.dev))
            × IsCopied (line m.dev) 0 (block_buf + offs) (512 - offs) m.mem m'.mem)
          (chunk_loop host u h n block_buf offs m)
  unfolding chunk_loop
  chunk_loop_lem zero block_buf offs m fuel ok = absurd (omega arith)
  chunk_loop_lem (suc n) block_buf offs m fuel ok = elim (Bool-cases (ltb offs 512)) [
    | inl more ↦ rw more (
        Returns.bind (receive_lem card.talks chunk m ok) λ got m1 (e, went). rw e (
          Returns.mono
            (chunk_loop_lem n block_buf (offs + step)
              (record m1 {
                mem = store_bytes (block_buf + offs) (tabulate (line m.dev) 0 chunk) m1.mem;
              })
              (ground (arith, card.depth)) went.open_still)
            λ _ m2 (ok2, on, copied).
              let total : chunk + (512 - (offs + step)) ≡ 512 - offs = ground arith in
              let a = block_buf + offs in
              let stored = store_bytes a (tabulate (line m.dev) 0 chunk) m1.mem in
              let first : IsCopied (line m.dev) 0 a chunk m.mem stored =
                subst (λ f. IsCopied (line m.dev) 0 a chunk f stored) went.mem_same
                  (store_bytes-tabulate (line m.dev) 0 a chunk m1.mem) in
              let second : IsCopied (line m.dev) (chunk + 0) (block_buf + (offs + step))
                  (512 - (offs + step)) stored m2.mem =
                IsCopied-shift chunk 0 (block_buf + (offs + step)) (512 - (offs + step))
                  (line m.dev) stored m2.mem (rw (← went.line_on) copied) in
              (
                ok2,
                on
                    ∙ rw went.line_on (
                        shift-shift (512 - (offs + step)) chunk (line m.dev)
                        ∙ ap (λ k. shift k (line m.dev)) total),
                IsCopied-append (line m.dev) 0 a chunk (chunk + 0) (block_buf + (offs + step))
                    (512 - (offs + step)) (512 - offs) m.mem stored m2.mem first second (sym total)
                    (ground arith),
              )))
    | inr over ↦
        let none_left : 512 - offs ≡ 0 = ground arith in
        rw (over, none_left)
          (returns (
            ok,
            sym (shift_zero (line m.dev)),
            IsCopied-zero (line m.dev) 0 (block_buf + offs) m.mem,
          ))
  ]
    where
      step : ℕ
      step = 4 * host.rx_depth

      chunk : ℕ
      chunk = if leb step (512 - offs) then step else 512 - offs
