-- ===== src/SdCard/Late.antt =====
-- `__spi_sdcard_cmd` of sw/lib/hal/spi_sdcard.c with a response that comes late or never.
use Prim.Native.Nat.{bit_and}
use cheshire_fork.Base.{
  ℕ, zero, suc, ◌+◌, ◌<◌, ◌≡◌, ◌∙◌, refl, arith, Bool, true, false, [], ◌∷◌, ◌==◌, Bool-cases, inl,
  inr,
}
use cheshire_fork.Machine.{Machine, check_assert, check_call, return_if}
use cheshire_fork.Machine.Returns
use cheshire_fork.Machine.Returns.{Returns, returns, Fails, fails, Fails-bind}
use cheshire_fork.SpiHost.{SpiHost, tx, transact}
use cheshire_fork.SdCard.{Handle, Resp, xfer_csaat, poll}
use cheshire_fork.SdCard.Frame.{bytes_of}
use cheshire_fork.SdCard.Command.{no_response, cmd}
use cheshire_fork.SdCard.Card.{Stream, shift, IsLine}
use cheshire_fork.SdCard.Polling.{receive_lem}

module _ {D : Type 0} {host : SpiHost D} {h : Handle} {Open : D → Type 0} {line : D → Stream}
    (talks : IsLine host h Open line) where
  -- A poll that finds no end before its last byte ends with no timeout left, whatever that byte is.
  poll_late_lem :
      (again : ℕ → Bool) (t byte : ℕ) (m : Machine D)
      → Open m.dev
      → ((i : ℕ) → i + 1 < t → again (line m.dev i) ≡ true)
      → Returns
          (λ (left, x) m'. (left ≡ 0) × Open m'.dev × (m'.mem ≡ m.mem))
          (poll host h again t byte m)
  unfolding poll shift
  poll_late_lem again zero byte m ok late = returns (refl, ok, refl)
  poll_late_lem again (suc t) byte m ok late =
      Returns.bind (receive_lem talks 1 m ok) λ got m1 (e, went). elim (Bool-cases (t == 0)) [
        | inl last ↦ rw (e, last) (returns (ground (arith, last), went.open_still, went.mem_same))
        | inr more ↦
            let first : again (line m.dev 0) ≡ true = late 0 (ground (arith, more)) in
            rw (e, more, first)
              (Returns.mono
                (poll_late_lem again t (line m.dev 0) m1 went.open_still
                  λ i below. rw went.line_on (late (1 + i) (omega (arith, below))))
                λ a m2 (none, ok2, same2). (none, ok2, same2 ∙ went.mem_same))
      ]

  -- A command, other than that which ends a transfer, to a card that is selected by it and whose
  -- first seven bytes are no response fails with the code of a timeout, whatever the eighth
  -- byte is, with the card still selected and memory as it was.
  pub cmd-late :
      (c : ℕ) (resp : Resp) (csaat : Bool) (m : Machine D)
      → (bit_and c 0xFF == 0x4C) ≡ false
      → (let r = host.transaction true h.csid (tx (bytes_of 6 c) ∷ []) m.dev in
          (r.code ≡ 0) × Open r.after × ((i : ℕ) → i < 7 → no_response (line r.after i) ≡ true))
      → Fails 0x12 (λ m'. Open m'.dev × (m'.mem ≡ m.mem)) (cmd host h c resp csaat m)
  unfolding cmd xfer_csaat transact check_assert check_call return_if
  cmd-late c resp csaat m other (code, ok, late) =
      rw (code, other)
        (Fails-bind (poll_late_lem no_response 8 0 _ ok λ i below. late i (omega (arith, below)))
          λ (left, x) m2 (none, ok2, same). rw none (fails (ok2, same)))
