-- ===== src/SdCard/Polling.antt =====
-- Receiving and polling on an open card.
use mathlib.Core.Path.{fun_ext, subst}
use cheshire_fork.Base.{
  ℕ, zero, suc, ◌+◌, ◌-◌, ◌≡◌, ◌∙◌, ap, refl, arith, Bool, false, ◌==◌, tabulate,
}
use cheshire_fork.Machine.{Machine, check_assert, check_call}
use cheshire_fork.Machine.Returns
use cheshire_fork.Machine.Returns.{Returns, returns}
use cheshire_fork.SpiHost.{SpiHost, transact}
use cheshire_fork.SdCard.{Handle, xfer_csaat, receive, poll}
use cheshire_fork.SdCard.Card.{Stream, shift, Comes, IsLine}

pub shift-shift : (a b : ℕ) (s : Stream) → shift a (shift b s) ≡ shift (b + a) s
unfolding shift
shift-shift a b s = fun_ext λ i. let e : b + (a + i) ≡ b + a + i = omega arith in ap s e

Comes-tail :
    {again : ℕ → Bool} {t w : ℕ} {s : Stream}
    → Comes again (suc t) (suc w) s
    → Comes again t w (shift 1 s)
unfolding shift
Comes-tail {again} {t} {w} {s} c =
    let e : 1 + w ≡ suc w = omega arith in
    record {
      in_time = omega (arith, c.in_time);
      before = λ i below. c.before (1 + i) (omega arith);
      at = rw e c.at;
    }

module _ {D : Type 0} {host : SpiHost D} {h : Handle} {Open : D → Type 0} {line : D → Stream}
    (talks : IsLine host h Open line) where
  -- The card has gone on by `n` bytes, and memory is as it was.
  pub record Went (n : ℕ) (m m' : Machine D) : Type 0 where
    pub open_still : Open m'.dev
    pub line_on : line m'.dev ≡ shift n (line m.dev)
    pub mem_same : m'.mem ≡ m.mem

  pub receive_lem :
      (n : ℕ) (m : Machine D)
      → Open m.dev
      → Returns (λ got m'. (got ≡ tabulate (line m.dev) 0 n) × Went n m m') (receive host h n m)
  unfolding xfer_csaat transact check_assert check_call
  receive_lem n m ok =
      let (code, got, ok', on) = talks.receives m.dev n ok in
      rw code (returns (got, record { open_still = ok'; line_on = on; mem_same = refl }))

  pub Went-trans :
      {a b : ℕ} {m1 m2 m3 : Machine D} → Went a m1 m2 → Went b m2 m3 → Went (a + b) m1 m3
  Went-trans {a} {b} {m1} v w = record {
    open_still = w.open_still;
    line_on = w.line_on ∙ ap (shift b) v.line_on ∙ shift-shift b a (line m1.dev);
    mem_same = w.mem_same ∙ v.mem_same;
  }

  -- A poll ends with the first byte that ends the wait.
  pub poll_lem :
      (again : ℕ → Bool) (t w byte : ℕ) (m : Machine D)
      → Open m.dev
      → Comes again t w (line m.dev)
      → Returns
          (λ (left, x) m'. (left ≡ t - w - 1) × (x ≡ line m.dev w) × Went (w + 1) m m')
          (poll host h again t byte m)
  unfolding poll shift
  poll_lem again zero w byte m ok c = absurd (omega (arith, c.in_time))
  poll_lem again (suc t) zero byte m ok c = Returns.bind (receive_lem 1 m ok) λ got m1 (e, went).
      let timely : (t == 0) ≡ false = ground (arith, c.in_time) in
      rw (e, timely, c.at) (returns (omega arith, refl, went))
  poll_lem again (suc t) (suc w) byte m ok c = Returns.bind (receive_lem 1 m ok) λ got m1 (e, went).
      let timely : (t == 0) ≡ false = ground (arith, c.in_time) in
      let index : 1 + w ≡ suc w = omega arith in
      let count : 1 + (w + 1) ≡ suc w + 1 = omega arith in
      rw (e, timely, c.before 0 (omega arith))
        (Returns.mono
          (poll_lem again t w (line m.dev 0) m1 went.open_still (rw went.line_on (Comes-tail c)))
          λ (left, x) m2 (el, ex, went2). (
            omega (arith, el),
            ex ∙ rw went.line_on (ap (line m.dev) index),
            subst (λ n. Went n m m2) count (Went-trans went went2),
          ))
