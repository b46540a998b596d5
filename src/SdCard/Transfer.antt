-- ===== src/SdCard/Transfer.antt =====
-- The loop over the blocks: the pieces of a transfer, one after the other.
use mathlib.Core.Path.{subst}
use cheshire_fork.Base.{
  ℕ, zero, suc, ◌+◌, ◌-◌, ◌*◌, ◌^◌, ◌≤◌, ◌<◌, ◌≡◌, sym, refl, arith, Bool, false, not, ◌&&◌, ◌==◌,
  ltb, if◌then◌else◌, u64, Bool-cases, inl, inr,
}
use cheshire_fork.Machine.{Machine}
use cheshire_fork.Machine.Bytes.{Mem, in_range}
use cheshire_fork.Machine.Returns
use cheshire_fork.Machine.Returns.{Returns, returns}
use cheshire_fork.Reader.{IsRead}
use cheshire_fork.SpiHost.{SpiHost}
use cheshire_fork.SdCard.{Handle}
use cheshire_fork.SdCard.Command.{Undefined}
use cheshire_fork.SdCard.Read.{block_loop}
use cheshire_fork.SdCard.Card.{Stream, IsCard, AreBlocks}
use cheshire_fork.SdCard.Blocks.{lowest, highest, read_block_lem}

-- Two pieces in a row.
pub IsRead-append :
    {Scratch : ℕ → Bool} (disk : Mem) (at dst total at1 dst1 n at2 dst2 k : ℕ) (f g h : Mem)
    → IsRead Scratch disk at1 dst1 n f g
    → IsRead Scratch disk at2 dst2 k g h
    → ((i : ℕ) → i < n → Scratch (dst1 + i) ≡ false)
    → at1 ≡ at
    → dst1 ≡ dst
    → n + k ≡ total
    → (0 < k → (at2 ≡ at + n) × (dst2 ≡ dst + n))
    → IsRead Scratch disk at dst total f h
IsRead-append disk at dst total at1 dst1 n at2 dst2 zero f g h r s apart ea ed en joined = record {
  placed = λ i below.
      ground
        (arith, r.placed i (omega (arith, en)), s.kept (dst1 + i), apart i (omega (arith, en)));
  kept = λ q out free. ground (arith, r.kept q, s.kept q);
}
IsRead-append disk at dst total at1 dst1 n at2 dst2 (suc k) f g h r s apart ea ed en joined =
    let (e1, e2) = joined (omega arith) in
    record {
      placed = λ i below. elim (Bool-cases (ltb i n)) [
        | inl low ↦ ground (arith, r.placed i, s.kept (dst1 + i), apart i)
        | inr high ↦ ground (arith, s.placed (i - n))
      ];
      kept = λ q out free. ground (arith, r.kept q, s.kept q);
    }

-- The wanted bytes of a transfer, from byte `fo` of its first block to byte `ll` of its last, stand
-- at `base + fo` and on.
pub record IsTransfer (cnt base swap fo ll : ℕ) : Type 0 where
  pub count : 0 < cnt
  pub first_inside : fo < 512
  pub last_inside : ll ≤ 512
  pub last_some : 0 < ll
  pub some : fo < 512 * (cnt - 1) + ll
  pub in_space : base + (512 * (cnt - 1) + ll) ≤ 2 ^ 64
  pub apart : (i : ℕ) → fo ≤ i → i < 512 * (cnt - 1) + ll → in_range swap 512 (base + i) ≡ false

-- Where the bytes of round `b` and later ones start.
abbrev from_round : (fo b : ℕ) → ℕ
from_round fo b = 512 * b + (if b == 0 then fo else 0)

module _ {D : Type 0} {host : SpiHost D} {h : Handle} {Ready Open : D → Type 0} {line : D → Stream}
    {disk : Mem} {size : ℕ} (card : IsCard host h Ready Open line disk size) (u : Undefined)
    (block cnt base swap fo ll : ℕ) (t : IsTransfer cnt base swap fo ll) where
  pub block_loop_lem :
      (left b : ℕ) (check : Bool) (m : Machine D)
      → left + b ≡ cnt
      → Open m.dev
      → AreBlocks disk (block + b) left (line m.dev)
      → Returns
          (λ _ m'.
            Open m'.dev
            × IsRead
                (in_range swap 512)
                disk
                (512 * block + from_round fo b)
                (base + from_round fo b)
                (512 * (cnt - 1) + ll - from_round fo b)
                m.mem
                m'.mem)
          (block_loop host u h left b cnt base swap fo ll check m)
  unfolding block_loop
  block_loop_lem zero b check m e ok bs = returns (
    ok,
    record {
      placed = λ i below. absurd (ground (arith, below, e, t.count));
      kept = λ q out free. refl;
    },
  )
  block_loop_lem (suc left) b check m e ok (next, is_block, bs) =
      let lo : lowest first fo ≡ (if b == 0 then fo else 0) = ground arith in
      let hi : highest last ll ≡ (if left == 0 then ll else 512) = ground (arith, e) in
      let whole : 512 * cnt ≡ 512 * (cnt - 1) + 512 = omega (arith, e) in
      let dst : u64 (base + 512 * b) ≡ base + 512 * b =
        ground (arith, t.in_space, t.last_some, e) in
      let apart : (i : ℕ)
          → lowest first fo ≤ i
          → i < highest last ll
          → in_range swap 512 (u64 (base + 512 * b) + i) ≡ false =
        λ i above below. ground (arith, t.apart (512 * b + i), lo, hi, dst, e) in
      Returns.bind
        (read_block_lem card u (block + b) (u64 (base + 512 * b)) swap fo ll first last check next m
          ok is_block (omega (arith, t.first_inside)) t.last_inside
          (ground (arith, lo, hi, t.some, t.first_inside, e)) apart)
        λ _ m1 (ok1, on1, piece).
          Returns.mono
            (block_loop_lem left (b + 1) check m1 (omega (arith, e)) ok1 (
              subst (λ s. AreBlocks disk (block + (b + 1)) left s) (sym on1)
                (subst (λ k. AreBlocks disk k left next) (omega arith) bs)))
            λ _ m2 (ok2, rest). (
              ok2,
              IsRead-append disk _ _ _ _ _ _ _ _ _ m.mem m1.mem m2.mem piece rest
                  (λ i below. ground (arith, apart (lowest first fo + i))) (omega (arith, lo))
                  (omega (arith, lo, dst)) (ground (arith, lo, hi, e, t.some))
                  (λ some. (ground (arith, lo, hi, e), ground (arith, lo, hi, e))),
            )
    where
      first : Bool
      first = b == 0 && not (fo == 0)

      last : Bool
      last = b + 1 == cnt && not (ll == 512)
