-- ===== src/Uart/Stream.antt =====
-- A UART with a line at its end, and the bytes that sw/lib/dif/uart.c sends on it.
use Prim.Native.Nat.{bit_and}
use mathlib.Core.List.{append_assoc, append-nil}
use cheshire_fork.Base.{
  ℕ, zero, suc, ◌+◌, ◌≤◌, ◌<◌, ◌≡◌, sym, ◌∙◌, refl, arith, Bool, true, false, not, List, [], ◌∷◌,
  ◌++◌, ◌==◌, if◌then◌else◌, tabulate, u8, ◌⊎◌,
}
use cheshire_fork.Machine.{Machine, Cmd, pure, done}
use cheshire_fork.Machine.Returns
use cheshire_fork.Machine.Returns.{Returns, returns}
use cheshire_fork.Mmio.{Bus, get8, put8}
use cheshire_fork.Uart.{
  rbr, thr, line_status, data_ready, thr_empty, write_ready, wait_for, write_byte, write_loop,
  write_str,
}

-- A UART with a line at its end: the bytes `sent` so far, the bytes still to come (`input`), and how
-- many reads of the line status may pass before the transmitter is empty (`send_wait`) and before a
-- byte that is to come has arrived (`input_wait`).
pub record Line (D : Type 0) : Type 1 where
  pub Ok : D → Type 0
  pub Empty : D → Type 0
  pub Full : D → Type 0
  pub sent : D → List ℕ
  pub input : D → List ℕ
  pub send_wait : D → ℕ
  pub input_wait : D → ℕ

-- The status bits are right, and the waits end.
pub record IsUart {D : Type 0} (bus : Bus D) (base patience : ℕ) (l : Line D) : Type 0 where
  pub send_bound : (d : D) → l.Ok d → l.send_wait d < patience
  pub input_bound : (d : D) → l.Ok d → l.input_wait d < patience
  pub status :
      (d : D)
      → l.Ok d
      → (let (s, d') = bus.read8 (base + line_status) d in
          l.Ok d'
          × (l.sent d' ≡ l.sent d)
          × (l.input d' ≡ l.input d)
          × (if bit_and s thr_empty == 0 then l.send_wait d' < l.send_wait d else l.Empty d')
          × (if bit_and s data_ready == 0
              then (l.input d ≡ []) ⊎ (l.input_wait d' < l.input_wait d)
              else l.Full d'))
  pub accept :
      (d : D) (byte : ℕ)
      → l.Ok d
      → l.Empty d
      → byte < 256
      → (let d' = bus.write8 (base + thr) byte d in
          l.Ok d' × (l.sent d' ≡ l.sent d ++ (byte ∷ [])) × (l.input d' ≡ l.input d))
  pub deliver :
      (d : D) (byte : ℕ) (rest : List ℕ)
      → l.Ok d
      → l.Full d
      → l.input d ≡ byte ∷ rest
      → (let (x, d') = bus.read8 (base + rbr) d in
          l.Ok d' × (x ≡ byte) × (l.sent d' ≡ l.sent d) × (l.input d' ≡ rest))

module _ {D : Type 0} {bus : Bus D} {base patience : ℕ} {l : Line D}
    (u : IsUart bus base patience l) where
  -- Between `m` and `m'` only the status has been read.
  abbrev pub Same : (m m' : Machine D) → Type 0
  Same m m' =
      l.Ok m'.dev
      × (l.sent m'.dev ≡ l.sent m.dev)
      × (l.input m'.dev ≡ l.input m.dev)
      × (m'.mem ≡ m.mem)

  -- A wait ends if each failed test brings its end nearer.
  pub wait_for_lem :
      (test : Cmd D Bool) (I P : Machine D → Type 0) (w : D → ℕ)
      → ((m : Machine D)
          → I m
          → Returns (λ b m'. if b then P m' else I m' × (w m'.dev < w m.dev)) (test m))
      → (fuel : ℕ) (m : Machine D) → I m
      → w m.dev < fuel
      → Returns (λ _. P) (wait_for bus base test fuel m)
  unfolding wait_for
  wait_for_lem test I P w step zero m i h = absurd (omega arith)
  wait_for_lem test I P w step (suc n) m i h =
      Returns.bind (step m i) (next (wait_for_lem test I P w step n))
    where
      next :
          ((m1 : Machine D) → I m1 → w m1.dev < n → Returns (λ _. P) (wait_for bus base test n m1))
          → (b : Bool) (m1 : Machine D) → (if b then P m1 else I m1 × (w m1.dev < w m.dev))
          → Returns (λ _. P) ((if b then pure tt else wait_for bus base test n) m1)
      next again true m1 p = returns p
      next again false m1 (i1, less) = again m1 i1 (omega arith)

  write_ready_lem :
      (m0 m : Machine D)
      → Same m0 m
      → Returns
          (λ b m'.
            if b
            then Same m0 m' × l.Empty m'.dev
            else Same m0 m' × (l.send_wait m'.dev < l.send_wait m.dev))
          (write_ready bus base m)
  unfolding write_ready get8
  write_ready_lem m0 m (ok, s, i, f) =
      let (ok', s', i', send, _) = u.status m.dev ok in
      go (bit_and (bus.read8 (base + line_status) m.dev).0 thr_empty == 0) (ok', s' ∙ s, i' ∙ i, f)
        send
    where
      go :
          {m' : Machine D} (b : Bool)
          → Same m0 m'
          → (if b then l.send_wait m'.dev < l.send_wait m.dev else l.Empty m'.dev)
          → Returns
              (λ b m'.
                if b
                then Same m0 m' × l.Empty m'.dev
                else Same m0 m' × (l.send_wait m'.dev < l.send_wait m.dev))
              (done (not b) m')
      go true same less = returns (same, less)
      go false same empty = returns (same, empty)

  pub write_byte_lem :
      (fuel byte : ℕ) (m : Machine D)
      → patience ≤ fuel
      → l.Ok m.dev
      → Returns
          (λ _ m'.
            l.Ok m'.dev
            × (l.sent m'.dev ≡ l.sent m.dev ++ (u8 byte ∷ []))
            × (l.input m'.dev ≡ l.input m.dev)
            × (m'.mem ≡ m.mem))
          (write_byte bus base fuel byte m)
  unfolding write_byte put8
  write_byte_lem fuel byte m enough ok =
      Returns.bind
        (wait_for_lem (write_ready bus base) (Same m) (λ m'. Same m m' × l.Empty m'.dev) l.send_wait
          (write_ready_lem m) fuel m (ok, refl, refl, refl) (omega (arith, u.send_bound m.dev ok)))
        λ _ m1 ((ok1, s1, i1, f1), empty).
          let (ok2, s2, i2) = u.accept m1.dev (u8 byte) ok1 empty (omega arith) in
          returns (ok2, (s2 ∙ rw s1 refl), i2 ∙ i1, f1)

  write_loop_lem :
      (fuel src left i : ℕ) (m : Machine D)
      → patience ≤ fuel
      → l.Ok m.dev
      → Returns
          (λ _ m'.
            l.Ok m'.dev
            × (l.sent m'.dev ≡ l.sent m.dev ++ tabulate (λ q. u8 (m.mem (src + q))) i left)
            × (l.input m'.dev ≡ l.input m.dev)
            × (m'.mem ≡ m.mem))
          (write_loop bus base fuel src left i m)
  unfolding write_loop
  write_loop_lem fuel src zero i m enough ok =
      returns (ok, sym (append-nil (l.sent m.dev)), refl, refl)
  write_loop_lem fuel src (suc left) i m enough ok =
      Returns.bind (write_byte_lem fuel (m.mem (src + i)) m enough ok) λ _ m1 (ok1, s1, i1, f1).
        Returns.mono (write_loop_lem fuel src left (i + 1) m1 enough ok1) λ _ m2 (ok2, s2, i2, f2).
          (
            ok2,
            s2
                ∙ rw (s1, f1)
                    (append_assoc (l.sent m.dev) (u8 (m.mem (src + i)) ∷ [])
                      (tabulate (λ q. u8 (m.mem (src + q))) (i + 1) left)),
            i2 ∙ i1,
            f2 ∙ f1,
          )

  -- From a UART whose waits end within the fuel, a string write returns once it has sent exactly the
  -- bytes of the string, in their order, behind what was sent before; it takes no byte from the
  -- input and leaves memory as it was.
  pub write_str-sent :
      (fuel src len : ℕ) (m : Machine D)
      → patience ≤ fuel
      → l.Ok m.dev
      → Returns
          (λ _ m'.
            l.Ok m'.dev
            × (l.sent m'.dev ≡ l.sent m.dev ++ tabulate (λ q. u8 (m.mem (src + q))) 0 len)
            × (l.input m'.dev ≡ l.input m.dev)
            × (m'.mem ≡ m.mem))
          (write_str bus base fuel src len m)
  unfolding write_str
  write_str-sent fuel src len m enough ok = write_loop_lem fuel src len 0 m enough ok
