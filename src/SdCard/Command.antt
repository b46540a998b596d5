-- ===== src/SdCard/Command.antt =====
-- `__spi_sdcard_cmd` and `__spi_sdcard_cmd_check`.
use Prim.Native.Nat.{bit_and}
use cheshire_fork.Base.{
  ℕ, ◌+◌, ◌-◌, ◌*◌, ◌/◌, ◌^◌, Bool, false, not, ◌&&◌, List, [], ◌∷◌, ltb, ◌==◌, if◌then◌else◌,
}
use cheshire_fork.Machine.{Cmd, ◌>>=◌, ◌>>◌, pure, return_if, when, check_call}
use cheshire_fork.SpiHost.{SpiHost}
use cheshire_fork.SdCard.{Handle, Resp, r1b, resp_len, r1b_timeout, send, receive, csfree, poll}
use cheshire_fork.SdCard.Frame.{bytes_of}

-- A response byte with its top bit set is none yet.
unfoldable pub no_response : ℕ → Bool
no_response b = not (bit_and b 0x80 == 0)

-- The card holds the line low while it is busy.
unfoldable pub is_busy : ℕ → Bool
is_busy b = b == 0

-- What C leaves open: the first value of an uninitialised 64-bit local, and the value of the mask
-- `(1 << n) - 1`, computed in `int`, where `n` is beyond the width of an `int`.
pub record Undefined : Type 0 where
  pub buf : ℕ
  pub wide_mask : ℕ → ℕ

-- A local of 8 bytes after `xs` has been stored from its first byte on.
unfoldable pub overlay : List ℕ → ℕ → ℕ
overlay [] old = old
overlay (x ∷ xs) old = x + 256 * overlay xs (old / 256)

unfoldable pub resp_mask : Undefined → Resp → ℕ
resp_mask u resp =
    let bits = 8 * resp_len resp in if ltb bits 31 then 2 ^ bits - 1 else u.wide_mask bits

module _ {D : Type 0} (host : SpiHost D) (h : Handle) where
  -- After the response's first byte: wait while busy, or read on.
  unfoldable pub finish : Resp → Cmd D (List ℕ)
  unfolding is_busy return_if
  finish r1b = do (left, _) ← poll host h is_busy r1b_timeout 0; return_if (left == 0) 0x13; pure []
  finish resp =
      let rem_bytes = resp_len resp - 1 in
      if rem_bytes == 0 then pure [] else receive host h rem_bytes

  -- `__spi_sdcard_cmd`: the value is what has been stored from `rdata` on.
  unfoldable pub cmd : ℕ → Resp → Bool → Cmd D (List ℕ)
  unfolding no_response finish bytes_of
  cmd c resp csaat = do
    send host h (bytes_of 6 c) 6
    when (bit_and c 0xFF == 0x4C) (receive host h 1)
    (left, first) ← poll host h no_response 8 0
    return_if (left == 0) 0x12
    more ← finish resp
    when (not csaat) (csfree host h)
    pure (first ∷ more)

  -- `__spi_sdcard_cmd_check`. The difference is returned as the error code.
  unfoldable pub cmd_check : Undefined → ℕ → Resp → Bool → ℕ → Cmd D (Unit {0})
  unfolding cmd overlay resp_mask
  cmd_check u c resp check_exp exp = do
    bytes ← cmd c resp false
    let mask = resp_mask u resp
    let got = bit_and (overlay bytes u.buf) mask
    if check_exp && not (got == bit_and exp mask) then check_call got else pure tt
