-- ===== src/Uart/Input.antt =====
-- The bytes that sw/lib/dif/uart.c takes from the line.
use Prim.Native.Nat.{bit_and}
use mathlib.Core.List.{cons≢nil}
use cheshire_fork.Base.{
  ℕ, ◌+◌, ◌≤◌, ◌<◌, ◌≡◌, sym, ◌∙◌, refl, arith, Bool, true, false, not, List, [], ◌∷◌, ◌++◌, ◌==◌,
  if◌then◌else◌, length, ◌⊎◌, inl, inr,
}
use cheshire_fork.Machine.{Machine, done}
use cheshire_fork.Machine.Bytes.{store_bytes}
use cheshire_fork.Machine.Returns
use cheshire_fork.Machine.Returns.{Returns, returns}
use cheshire_fork.Mmio.{Bus, get8}
use cheshire_fork.Uart.{line_status, data_ready, read_ready, read_byte, read_loop, read_str}
use cheshire_fork.Uart.Stream.{Line, IsUart, Same, wait_for_lem}

module _ {D : Type 0} {bus : Bus D} {base patience : ℕ} {l : Line D}
    (u : IsUart bus base patience l) where
  read_ready_lem :
      (m0 m : Machine D) (byte : ℕ) (rest : List ℕ)
      → l.input m0.dev ≡ byte ∷ rest
      → Same u m0 m
      → Returns
          (λ b m'.
            if b
            then Same u m0 m' × l.Full m'.dev
            else Same u m0 m' × (l.input_wait m'.dev < l.input_wait m.dev))
          (read_ready bus base m)
  unfolding read_ready get8
  read_ready_lem m0 m byte rest pending (ok, s, i, f) =
      let (ok', s', i', _, arrive) = u.status m.dev ok in
      go (bit_and (bus.read8 (base + line_status) m.dev).0 data_ready == 0) (ok', s' ∙ s, i' ∙ i, f)
        arrive
    where
      go :
          {m' : Machine D} (b : Bool)
          → Same u m0 m'
          → (if b
              then (l.input m.dev ≡ []) ⊎ (l.input_wait m'.dev < l.input_wait m.dev)
              else l.Full m'.dev)
          → Returns
              (λ b m'.
                if b
                then Same u m0 m' × l.Full m'.dev
                else Same u m0 m' × (l.input_wait m'.dev < l.input_wait m.dev))
              (done (not b) m')
      go true same (inl none_left) = absurd (cons≢nil (sym (i ∙ pending) ∙ none_left))
      go true same (inr less) = returns (same, less)
      go false same full = returns (same, full)

  pub read_byte_lem :
      (fuel byte : ℕ) (rest : List ℕ) (m : Machine D)
      → patience ≤ fuel
      → l.Ok m.dev
      → l.input m.dev ≡ byte ∷ rest
      → Returns
          (λ x m'.
            (x ≡ byte)
            × l.Ok m'.dev
            × (l.sent m'.dev ≡ l.sent m.dev)
            × (l.input m'.dev ≡ rest)
            × (m'.mem ≡ m.mem))
          (read_byte bus base fuel m)
  unfolding read_byte get8
  read_byte_lem fuel byte rest m enough ok pending =
      Returns.bind
        (wait_for_lem u (read_ready bus base) (Same u m) (λ m'. Same u m m' × l.Full m'.dev)
          l.input_wait (λ m1. read_ready_lem m m1 byte rest pending) fuel m (ok, refl, refl, refl)
          (omega (arith, u.input_bound m.dev ok)))
        λ _ m1 ((ok1, s1, i1, f1), full).
          let (ok2, x, s2, i2) = u.deliver m1.dev byte rest ok1 full (i1 ∙ pending) in
          returns (x, ok2, s2 ∙ s1, i2, f1)

  read_loop_lem :
      (fuel dst i : ℕ) (xs rest : List ℕ) (m : Machine D)
      → patience ≤ fuel
      → l.Ok m.dev
      → l.input m.dev ≡ xs ++ rest
      → Returns
          (λ _ m'.
            l.Ok m'.dev
            × (l.sent m'.dev ≡ l.sent m.dev)
            × (l.input m'.dev ≡ rest)
            × (m'.mem ≡ store_bytes (dst + i) xs m.mem))
          (read_loop bus base fuel dst (length xs) i m)
  unfolding read_loop store_bytes
  read_loop_lem fuel dst i [] rest m enough ok pending = returns (ok, refl, pending, refl)
  read_loop_lem fuel dst i (x ∷ xs) rest m enough ok pending =
      Returns.bind (read_byte_lem fuel x (xs ++ rest) m enough ok pending)
        λ y m1 (e, ok1, s1, i1, f1).
          Returns.mono (read_loop_lem fuel dst (i + 1) xs rest _ enough ok1 i1)
            λ _ m2 (ok2, s2, i2, f2).
              let place : dst + (i + 1) ≡ dst + i + 1 = omega arith in
              (ok2, s2 ∙ s1, i2, f2 ∙ rw (e, f1, place) refl)

  -- From a UART whose waits end within the fuel, a string read returns once it has stored the next
  -- bytes of the input at the destination, in their order; it changes no other byte of memory,
  -- leaves the bytes behind them in the input, and sends nothing.
  pub read_str-input :
      (fuel dst : ℕ) (xs rest : List ℕ) (m : Machine D)
      → patience ≤ fuel
      → l.Ok m.dev
      → l.input m.dev ≡ xs ++ rest
      → Returns
          (λ _ m'.
            l.Ok m'.dev
            × (l.sent m'.dev ≡ l.sent m.dev)
            × (l.input m'.dev ≡ rest)
            × (m'.mem ≡ store_bytes dst xs m.mem))
          (read_str bus base fuel dst (length xs) m)
  unfolding read_str
  read_str-input fuel dst xs rest m enough ok pending =
      let start : dst + 0 ≡ dst = omega arith in
      Returns.mono (read_loop_lem fuel dst 0 xs rest m enough ok pending)
        λ _ _ (ok1, s1, i1, f1). (ok1, s1, i1, f1 ∙ rw start refl)
