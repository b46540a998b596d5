-- ===== src/SdCard/Checks.antt =====
-- What `__spi_sdcard_cmd_check` of sw/lib/hal/spi_sdcard.c makes of a one-byte response.
use Prim.Native.Nat.{bit_and}
use cheshire_fork.Base.{
  ℕ, ◌+◌, ◌*◌, ◌/◌, ◌<◌, ◌≡◌, refl, arith, true, false, [], ◌∷◌, ◌==◌, if◌then◌else◌, u32,
  Bool-cases, inl, inr,
}
use cheshire_fork.Base.Masks.{and_ones}
use cheshire_fork.Machine.{Machine, done, fail, check_call}
use cheshire_fork.SpiHost.{SpiHost}
use cheshire_fork.SdCard.{Handle, r1}
use cheshire_fork.SdCard.Command.{Undefined, cmd, cmd_check, overlay, resp_mask}

module _ {D : Type 0} (host : SpiHost D) (h : Handle) (u : Undefined) where
  -- The check of a one-byte response: it succeeds if the byte is the expected one, and otherwise
  -- returns the byte itself as the error code; so a zero byte passes whatever was expected.
  pub cmd_check-r1 :
      (c exp byte : ℕ) (m m' : Machine D)
      → cmd host h c r1 false m ≡ done (byte ∷ []) m'
      → byte < 256
      → exp < 256
      → cmd_check host h u c r1 true exp m
        ≡ (if byte == exp then done tt m' else if byte == 0 then done tt m' else fail byte m')
  unfolding cmd_check overlay resp_mask check_call
  cmd_check-r1 c exp byte m m' response byte_8 exp_8 =
      let got : bit_and (byte + 256 * (u.buf / 256)) 255 ≡ byte =
        omega (arith, and_ones 8 (byte + 256 * (u.buf / 256))) in
      let want : bit_and exp 255 ≡ exp = omega (arith, and_ones 8 exp) in
      let narrow : u32 byte ≡ byte = omega arith in
      rw (response, got, want, narrow)
        (elim (Bool-cases (byte == exp)) [
          | inl same ↦ rw same refl
          | inr other ↦ rw other (elim (Bool-cases (byte == 0)) [
            | inl zero_byte ↦ rw zero_byte refl
            | inr error ↦ rw error refl
          ])
        ])
