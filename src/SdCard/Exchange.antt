-- ===== src/SdCard/Exchange.antt =====
-- `__spi_sdcard_cmd` and `__spi_sdcard_cmd_check` with a card that answers.
use Prim.Native.Nat.{bit_and}
use mathlib.Core.Path.{subst}
use cheshire_fork.Base.{
  ℕ, suc, ◌+◌, ◌-◌, ◌<◌, ◌≡◌, ◌∙◌, sym, ap, refl, arith, Bool, true, false, not, ◌&&◌, List, ◌∷◌,
  ◌==◌, tabulate, length,
}
use cheshire_fork.Machine.{Machine, check_assert, check_call, ◌>>=◌, pure}
use cheshire_fork.Machine.Returns
use cheshire_fork.Machine.Returns.{Returns, returns}
use cheshire_fork.SpiHost.{SpiHost, transact}
use cheshire_fork.SdCard.{Handle, Resp, r1, r1b, r2, r3, r7, resp_len, xfer_csaat, csfree}
use cheshire_fork.SdCard.Frame.{bytes_of}
use cheshire_fork.SdCard.Command.{
  Undefined, no_response, cmd, cmd_check, finish, overlay, resp_mask,
}
use cheshire_fork.SdCard.Card.{Stream, shift}
use cheshire_fork.SdCard.Polling.{receive_lem, poll_lem}
use cheshire_fork.SdCard.Blocks.{tabulate_ext}
use cheshire_fork.SdCard.Startup.{IsAnswer, IsExchange}

-- A response without a busy signal.
abbrev pub is_plain : Resp → Bool
is_plain r1b = false
is_plain resp = true

some_bytes : (resp : Resp) → 0 < resp_len resp
some_bytes r1 = omega arith
some_bytes r1b = omega arith
some_bytes r2 = omega arith
some_bytes r3 = omega arith
some_bytes r7 = omega arith

-- The byte that was polled and those received behind it are the response.
response_lem :
    (s : Stream) (xs : List ℕ) (k : ℕ) (a : IsAnswer xs s)
    → length xs ≡ suc k
    → s a.wait ∷ tabulate (shift (a.wait + 1) s) 0 k ≡ xs
unfolding shift
response_lem s xs k a size =
    ap (λ t. s a.wait ∷ t)
      (tabulate_ext (shift (a.wait + 1) s) s 0 (a.wait + 1) k λ i below. ap s (omega arith))
    ∙ subst (λ n. tabulate s a.wait n ≡ xs) size a.content

module _ {D : Type 0} {host : SpiHost D} {h : Handle} {line : D → Stream}
    {Before Open After : D → Type 0} {frame : List ℕ} {Response : List ℕ → Type 0}
    (e : IsExchange host h line Before Open After frame Response) where
  finish_lem :
      (resp : Resp) (m : Machine D)
      → is_plain resp ≡ true
      → Open m.dev
      → Returns
          (λ got m'.
            (got ≡ tabulate (line m.dev) 0 (resp_len resp - 1)) × Open m'.dev × (m'.mem ≡ m.mem))
          (finish host h resp m)
  unfolding finish
  finish_lem r1 m plain ok = returns (refl, ok, refl)
  finish_lem r1b m plain ok = cc
  finish_lem r2 m plain ok =
      Returns.mono (receive_lem e.talks 1 m ok)
        λ got m1 (eq, went). (eq, went.open_still, went.mem_same)
  finish_lem r3 m plain ok =
      Returns.mono (receive_lem e.talks 4 m ok)
        λ got m1 (eq, went). (eq, went.open_still, went.mem_same)
  finish_lem r7 m plain ok =
      Returns.mono (receive_lem e.talks 4 m ok)
        λ got m1 (eq, went). (eq, went.open_still, went.mem_same)

  free_lem :
      (m : Machine D)
      → Open m.dev
      → Returns (λ _ m'. After m'.dev × (m'.mem ≡ m.mem)) ((csfree host h >>= λ _. pure tt) m)
  unfolding csfree transact check_call
  free_lem m ok = let (code, after) = e.closes m.dev ok in rw code (returns (after, refl))

  -- A command returns with the response, once the card is freed.
  pub cmd_lem :
      (c : ℕ) (resp : Resp) (m : Machine D)
      → Before m.dev
      → bytes_of 6 c ≡ frame
      → (bit_and c 0xFF == 0x4C) ≡ false
      → is_plain resp ≡ true
      → ((xs : List ℕ) → Response xs → length xs ≡ resp_len resp)
      → Returns
          (λ got m'. Response got × After m'.dev × (m'.mem ≡ m.mem))
          (cmd host h c resp false m)
  unfolding cmd xfer_csaat transact check_assert check_call
  cmd_lem c resp m before is_frame no_stop plain sized =
      let (code, ok, (response, right, answer)) = e.sends m.dev before in
      rw (is_frame, code, no_stop)
        (Returns.bind (poll_lem e.talks no_response 8 answer.wait 0 _ ok answer.comes)
          λ (left, first) m1 (el, ex, went).
            Returns.passes (left == 0) 0x12 _ m1 (ground (arith, el, answer.comes.in_time)) (
              Returns.bind (finish_lem resp m1 plain went.open_still) λ more m2 (em, ok2, same2).
                Returns.bind (free_lem m2 ok2) λ _ m3 (after, same3). returns (
                  subst Response
                      (sym (
                        rw (ex, em, went.line_on)
                          (response_lem _ response (resp_len resp - 1) answer
                            (omega (arith, sized response right, some_bytes resp)))))
                      right,
                  after,
                  same3 ∙ same2 ∙ went.mem_same,
                )))

  -- Its check passes if every response of the kind compares well.
  pub cmd_check_lem :
      (u : Undefined) (c : ℕ) (resp : Resp) (check : Bool) (exp : ℕ) (m : Machine D)
      → Before m.dev
      → bytes_of 6 c ≡ frame
      → (bit_and c 0xFF == 0x4C) ≡ false
      → is_plain resp ≡ true
      → ((xs : List ℕ) → Response xs → length xs ≡ resp_len resp)
      → ((xs : List ℕ)
          → Response xs
          → (check
              && not
                  (bit_and (overlay xs u.buf) (resp_mask u resp) == bit_and exp (resp_mask u resp)))
            ≡ false)
      → Returns (λ _ m'. After m'.dev × (m'.mem ≡ m.mem)) (cmd_check host h u c resp check exp m)
  unfolding cmd_check
  cmd_check_lem u c resp check exp m before is_frame no_stop plain sized right =
      Returns.bind (cmd_lem c resp m before is_frame no_stop plain sized)
        λ got m1 (is, after, same). rw (right got is) (returns (after, same))
