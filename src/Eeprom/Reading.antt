-- ===== src/Eeprom/Reading.antt =====
-- `i2c_24fc1025_read` of sw/lib/hal/i2c_24fc1025.c.
use cheshire_fork.Base.{
  ℕ, zero, suc, ◌+◌, ◌-◌, ◌%◌, ◌^◌, ◌≤◌, ◌<◌, ◌≡◌, ap, refl, arith, true, false, ltb, leb, ◌==◌,
  if◌then◌else◌, u64, Bool-cases, inl, inr,
}
use cheshire_fork.Machine.{Machine, Cmd, check_assert}
use cheshire_fork.Machine.Bytes.{Mem, IsCopied, IsCopied-zero, IsCopied-append}
use cheshire_fork.Machine.Returns
use cheshire_fork.Machine.Returns.{Returns, returns}
use cheshire_fork.Eeprom.{I2cHost, chunk_loop, access, eeprom_read}
use cheshire_fork.Eeprom.Device.{Phase, wrapped, draining, empty, IsEeprom}
use cheshire_fork.Eeprom.Chunk.{chunk_lem}

-- The bytes that a request covers: at least those up to the next FIFO boundary.
unfoldable pub covered : (addr len : ℕ) → ℕ
covered addr len =
    if addr % 64 == 0 then len else if leb len (64 - addr % 64) then 64 - addr % 64 else len

module _ {D C : Type 0} {i2c : I2cHost D C} {State : Phase → D → Type 0} {memory : Mem}
    {drain arrive : ℕ} (rom : IsEeprom i2c State memory drain arrive) {spin_tick : Cmd D (Unit {0})}
    {patience : ℕ}
    (tick : (m : Machine D)
      → State empty m.dev
      → Returns (λ _ m'. State empty m'.dev × (m'.mem ≡ m.mem)) (spin_tick m))
    (patient : drain < patience) (patient_read : arrive < patience) where
  chunk_loop_lem :
      (n buf addr len offs : ℕ) (m : Machine D)
      → len - offs < n
      → addr + len ≤ 2 ^ 64
      → (addr + offs) % 64 ≡ 0
      → State (draining drain) m.dev
      → Returns
          (λ _ m'.
            State (draining drain) m'.dev
            × IsCopied (wrapped memory) (addr + offs) (buf + offs) (len - offs) m.mem m'.mem)
          (chunk_loop i2c spin_tick patience n buf addr len offs false m)
  unfolding chunk_loop
  chunk_loop_lem zero buf addr len offs m fuel fits aligned st = absurd (omega (arith, fuel))
  chunk_loop_lem (suc n) buf addr len offs m fuel fits aligned st =
      elim (Bool-cases (ltb offs len)) [
        | inl more ↦
            let wrap : u64 (addr + offs) ≡ addr + offs = ground (arith, more, fits) in
            let c = if leb 64 (len - offs) then 64 else len - offs in
            let size : (if leb i2c.fifo_depth (len - offs) then i2c.fifo_depth else len - offs)
                ≡ c =
              ap (λ n. if leb n (len - offs) then n else len - offs) rom.depth in
            let next : offs + i2c.fifo_depth ≡ offs + 64 = ap (λ n. offs + n) rom.depth in
            rw (more, wrap, size, next)
              (Returns.bind
                (chunk_lem rom tick patient patient_read (c + 1) (buf + offs) (addr + offs) c m
                  (omega arith) (ground (arith, more)) (ground arith) (ground (arith, aligned)) st)
                λ _ m1 (st1, first).
                  Returns.mono
                    (chunk_loop_lem n buf addr len (offs + 64) m1 (ground (arith, fuel, more)) fits
                      (omega (arith, aligned)) st1)
                    λ _ m2 (st2, rest). (
                      st2,
                      IsCopied-append (wrapped memory) (addr + offs) (buf + offs) c
                          (addr + (offs + 64)) (buf + (offs + 64)) (len - (offs + 64)) (len - offs)
                          m.mem m1.mem m2.mem first rest (ground arith) (ground arith),
                    ))
        | inr over ↦
            let none_left : len - offs ≡ 0 = ground (arith, over) in
            rw (over, none_left)
              (returns (st, IsCopied-zero (wrapped memory) (addr + offs) (buf + offs) m.mem))
      ]

  -- The chunks behind a leading piece of `d` bytes, which ends on a FIFO boundary.
  behind_lem :
      (d total buf addr len : ℕ) (f : Mem) (m : Machine D)
      → addr + len ≤ 2 ^ 64
      → (addr + d) % 64 ≡ 0
      → total ≡ d + (len - d)
      → State (draining drain) m.dev
      → IsCopied (wrapped memory) addr buf d f m.mem
      → Returns
          (λ _ m'.
            State (draining drain) m'.dev × IsCopied (wrapped memory) addr buf total f m'.mem)
          (chunk_loop i2c spin_tick patience (len + 1) buf addr len d false m)
  behind_lem d total buf addr len f m fits aligned e st first =
      Returns.mono (chunk_loop_lem (len + 1) buf addr len d m (omega arith) fits aligned st)
        λ _ m' (st', rest). (
          st',
          IsCopied-append (wrapped memory) addr buf d (addr + d) (buf + d) (len - d) total f m.mem
              m'.mem first rest e (inr (refl, refl)),
        )

  -- A read of the EEPROM, aligned or not, that ends at most at 2 ^ 64, while an earlier transfer of
  -- the host may still be ending. If the wait for a tick returns and the host stays as it is, and
  -- the fuel exceeds the looks that the host needs, the read returns 0 and leaves the host ready. It
  -- copies the bytes from `addr` on, at least up to the next FIFO boundary if `addr` is off one, and
  -- changes no other byte of memory. Addresses count modulo 64 KiB.
  pub eeprom_read-IsCopied :
      (buf addr len : ℕ) (m : Machine D)
      → addr + len ≤ 2 ^ 64
      → State (draining drain) m.dev
      → Returns
          (λ _ m'.
            State (draining drain) m'.dev
            × IsCopied (wrapped memory) addr buf (covered addr len) m.mem m'.mem)
          (eeprom_read i2c spin_tick patience buf addr len m)
  unfolding eeprom_read access check_assert covered
  eeprom_read-IsCopied buf addr len m fits st =
      let whole : (128 % i2c.fifo_depth == 0) ≡ true = ap (λ n. 128 % n == 0) rom.depth in
      let offset : i2c.fifo_depth - addr % i2c.fifo_depth ≡ 64 - addr % 64 =
        ap (λ n. n - addr % n) rom.depth in
      let start : addr % i2c.fifo_depth ≡ addr % 64 = ap (λ n. addr % n) rom.depth in
      elim (Bool-cases (addr % 64 == 0)) [
        | inl on ↦
            rw (whole, offset, start, on)
              (behind_lem 0 len buf addr len m.mem m fits (ground (arith, on)) (omega arith) st
                (IsCopied-zero (wrapped memory) addr buf m.mem))
        | inr off ↦
            rw (whole, offset, start, off)
              (Returns.bind
                (Returns.when_lem (
                  chunk_lem rom tick patient patient_read (64 - addr % 64 + 1) buf addr
                    (64 - addr % 64) m (omega arith) (omega arith) (omega arith) (omega arith) st))
                λ _ m1 (st1, first).
                  behind_lem (64 - addr % 64) _ buf addr len m.mem m1 fits (omega arith)
                    (ground arith) st1 first)
      ]
