-- ===== src/Eeprom/Chunk.antt =====
-- The read of one chunk by `__i2c_24fc1025_access_chunk` of sw/lib/hal/i2c_24fc1025.c.
use Prim.Native.Nat.{bit_and, bit_or}
use mathlib.Core.Path.{subst}
use cheshire_fork.Base.{
  ℕ, zero, suc, ◌+◌, ◌-◌, ◌*◌, ◌/◌, ◌%◌, ◌^◌, ◌≤◌, ◌<◌, ◌≡◌, ◌∙◌, refl, arith, Bool, true, false,
  ◌++◌, List, [], ◌∷◌, ltb, length, tabulate, length-tabulate, u8, ◌>>>◌, Bool-cases, inl, inr,
}
use cheshire_fork.Base.Masks.{and_ones, bit_and_shifted, bit_or_above, bit_or_comm}
use cheshire_fork.Machine.{Machine, Cmd, check_call}
use cheshire_fork.Machine.Bytes.{
  Mem, IsCopied, in_range, store_bytes, store_bytes-tabulate, IsCopied-zero, IsCopied-append,
}
use cheshire_fork.Machine.Returns
use cheshire_fork.Machine.Returns.{Returns, returns}
use cheshire_fork.Eeprom.{
  I2cHost, Fmt, start, transmit, transmit_stop, receive, send, FifoLevels, any_level, levels,
  wait_levels, fetch_loop, ctrl_waddr, read_half, address_phase, access_chunk,
}
use cheshire_fork.Eeprom.Device.{
  tolerates, Phase, wrapped, draining, empty, held, serving, full, Look, settled, goes_on, IsEeprom,
}

-- The block and chip selects stand above the byte that goes out.
selects : (addr : ℕ) → (x : ℕ) × (ctrl_waddr addr ≡ 256 * x + 0xA0)
unfolding ctrl_waddr
selects addr =
    let y = bit_and (addr / 2 ^ 16) 1 in
    let z = bit_and (addr / 2 ^ 20) 17 in
    let e1 : bit_and addr 0x10000 >>> 1 ≡ y * 2 ^ 15 = omega (arith, bit_and_shifted 16 addr 1) in
    let e2 : bit_and addr 0x1100000 >>> 4 ≡ z * 2 ^ 16 =
      omega (arith, bit_and_shifted 20 addr 17) in
    let e3 : bit_or 0xA0 (y * 2 ^ 15) ≡ y * 2 ^ 15 + 0xA0 = bit_or_above 15 y 0xA0 (omega arith) in
    let e4 : bit_or (y * 2 ^ 15 + 0xA0) (z * 2 ^ 16) ≡ z * 2 ^ 16 + (y * 2 ^ 15 + 0xA0) =
      bit_or_above 16 z (y * 2 ^ 15 + 0xA0) (omega (arith, and_ones 1 (addr / 2 ^ 16))) in
    (128 * y + 256 * z, rw (e1, e2, e3, e4) (omega arith))

ctrl_waddr-byte : (addr : ℕ) → u8 (ctrl_waddr addr) ≡ 0xA0
ctrl_waddr-byte addr = let (x, e) = selects addr in omega (arith, e)

ctrl_waddr-read_byte : (addr : ℕ) → u8 (bit_or (ctrl_waddr addr) 0x1) ≡ 0xA1
ctrl_waddr-read_byte addr =
    let (x, e) = selects addr in
    let even : ctrl_waddr addr ≡ (128 * x + 80) * 2 ^ 1 = omega (arith, e) in
    rw (even, bit_or_comm ((128 * x + 80) * 2 ^ 1) 1, bit_or_above 1 (128 * x + 80) 1 (omega arith))
      (omega arith)

-- A read that does not leave the 64 KiB that the address bytes reach.
IsCopied-wrapped :
    (memory : Mem) (addr buf n : ℕ) (f g : Mem)
    → addr % 2 ^ 16 + n ≤ 2 ^ 16
    → IsCopied memory (addr % 2 ^ 16) buf n f g
    → IsCopied (wrapped memory) addr buf n f g
IsCopied-wrapped memory addr buf n f g inside c q = elim (Bool-cases (in_range buf n q)) [
  | inl within ↦
      let e : (addr + (q - buf)) % 2 ^ 16 ≡ addr % 2 ^ 16 + (q - buf) = ground (arith, within) in
      rw (within, e) (c q ∙ rw within refl)
  | inr out ↦ rw out (c q ∙ rw out refl)
]

IsCopied-from :
    (src : Mem) (s a n : ℕ) (f' g : Mem) {f : Mem}
    → f ≡ f'
    → IsCopied src s (a + 0) n f g
    → IsCopied src s a n f' g
IsCopied-from src s a n f' g {f} e c =
    let none : a + 0 ≡ a = omega arith in
    subst (λ f. IsCopied src s a n f g) e (subst (λ b. IsCopied src s b n f g) none c)

module _ {D C : Type 0} {i2c : I2cHost D C} {State : Phase → D → Type 0} {memory : Mem}
    {drain arrive : ℕ} (rom : IsEeprom i2c State memory drain arrive) where
  -- A wait ends within the looks that the host needs.
  wait_lem :
      (again : FifoLevels → Bool) (After : D → Type 0) (Before : ℕ → D → Type 0) (k fuel : ℕ)
      (m : Machine D)
      → ((j : ℕ) (d : D)
          → Before j d
          → (let r = i2c.get_fifo_levels d in
              (r.0 ≡ 0) × Look (again r.1) (After r.2) (λ j. Before j r.2) j))
      → k < fuel
      → Before k m.dev
      → Returns (λ _ m'. After m'.dev × (m'.mem ≡ m.mem)) (wait_levels i2c again fuel m)
  unfolding wait_levels levels check_call
  wait_lem again After Before k zero m looks more st = absurd (omega (arith, more))
  wait_lem again After Before k (suc fuel) m looks more st =
      let (code, look) = looks k m.dev st in
      elim look [
        | settled over now ↦ rw (code, over) (returns (now, refl))
        | goes_on j fewer on later ↦
            rw (code, on)
              (wait_lem again After Before j fuel _ looks (omega (arith, fewer, more)) later)
      ]

  fetch_loop_lem :
      (src : Mem) (s buf left b : ℕ) (m : Machine D)
      → State (full (tabulate src s left)) m.dev
      → Returns
          (λ _ m'. State (full []) m'.dev × IsCopied src s (buf + b) left m.mem m'.mem)
          (fetch_loop i2c buf left b m)
  unfolding fetch_loop check_call
  fetch_loop_lem src s buf zero b m st = returns (st, IsCopied-zero src s (buf + b) m.mem)
  fetch_loop_lem src s buf (suc left) b m st =
      let (code, e, st1) = rom.fetches (src s) (tabulate src (s + 1) left) m.dev st in
      rw (code, e)
        (Returns.mono (fetch_loop_lem src (s + 1) buf left (b + 1) _ st1) λ _ m' (st', copied). (
          st',
          IsCopied-append src s (buf + b) 1 (s + 1) (buf + (b + 1)) left (suc left) m.mem
              (store_bytes (buf + b) (src s ∷ []) m.mem) m'.mem
              (store_bytes-tabulate src s (buf + b) 1 m.mem) copied (omega arith)
              (inr (refl, omega arith)),
        ))

  send_lem :
      (value byte : ℕ) (flag : Fmt) (es : List (ℕ × Fmt)) (m : Machine D)
      → u8 value ≡ byte
      → length es < 64
      → State (held es) m.dev
      → Returns
          (λ _ m'. State (held (es ++ (byte, flag) ∷ [])) m'.dev × (m'.mem ≡ m.mem))
          (send i2c value flag (tolerates flag) m)
  unfolding check_call
  send_lem value byte flag es m e room st =
      let (code, st1) =
        rom.queues byte flag es m.dev (omega (arith, e)) (omega (arith, rom.depth, room)) st in
      rw (e, code) (returns (st1, refl))

  module _ {spin_tick : Cmd D (Unit {0})} {patience : ℕ}
      (tick : (m : Machine D)
        → State empty m.dev
        → Returns (λ _ m'. State empty m'.dev × (m'.mem ≡ m.mem)) (spin_tick m))
      (patient : drain < patience) (patient_read : arrive < patience) where
    address_lem :
        (addr : ℕ) (m : Machine D)
        → State (draining drain) m.dev
        → Returns
            (λ _ m'.
              State
                (held
                  ((0xA0, start) ∷ (addr / 256 % 256, transmit) ∷ (addr % 256, transmit_stop) ∷ []))
                m'.dev
              × (m'.mem ≡ m.mem))
            (address_phase i2c spin_tick patience addr false m)
    unfolding address_phase check_call
    address_lem addr m st =
        Returns.bind
          (wait_lem any_level (State empty) (λ k. State (draining k)) drain patience m rom.drains
            patient st)
          λ _ m1 (st1, same1). Returns.bind (tick m1 st1) λ _ m2 (st2, same2).
            let (code, st3) = rom.disables m2.dev st2 in
            rw code (
              Returns.bind
                (send_lem (ctrl_waddr addr) 0xA0 start [] _ (ctrl_waddr-byte addr) (omega arith)
                  st3)
                λ _ m4 (st4, same4).
                  Returns.bind
                    (send_lem (bit_and (addr >>> 8) 0xFF) (addr / 256 % 256) transmit _ m4
                      (omega (arith, and_ones 8 (addr >>> 8))) (omega arith) st4)
                    λ _ m5 (st5, same5).
                      Returns.mono
                        (send_lem (bit_and addr 0xFF) (addr % 256) transmit_stop _ m5
                          (omega (arith, and_ones 8 addr)) (omega arith) st5)
                        λ _ m6 (st6, same6). (st6, same6 ∙ same5 ∙ same4 ∙ same2 ∙ same1))

    read_half_lem :
        (buf addr len : ℕ) (m : Machine D)
        → 0 < len
        → len ≤ 64
        → addr % 2 ^ 16 + len ≤ 2 ^ 16
        → State
            (held ((0xA0, start) ∷ (addr / 256 % 256, transmit) ∷ (addr % 256, transmit_stop) ∷ []))
            m.dev
        → Returns
            (λ _ m'.
              State (draining drain) m'.dev × IsCopied (wrapped memory) addr buf len m.mem m'.mem)
            (read_half i2c spin_tick patience buf addr len m)
    unfolding read_half check_call
    read_half_lem buf addr len m some short inside st =
        Returns.bind
          (send_lem (bit_or (ctrl_waddr addr) 0x1) 0xA1 start _ m (ctrl_waddr-read_byte addr)
            (omega arith) st)
          λ _ m1 (st1, same1).
            Returns.bind (send_lem len len receive _ m1 (omega (arith, short)) (omega arith) st1)
              λ _ m2 (st2, same2).
                let (code, st3) =
                  rom.launches (addr / 256 % 256) (addr % 256) len m2.dev (omega arith)
                    (omega arith) some (omega (arith, rom.depth, short)) (omega (arith, inside))
                    st2 in
                rw code (
                  Returns.bind
                    (wait_lem (λ l. ltb l.rx len) (State (full xs)) (λ k. State (serving k xs))
                      arrive patience _ looks patient_read
                      (subst
                        (λ s.
                          State (serving arrive (tabulate memory s len))
                            (i2c.host_set_enabled true m2.dev).1)
                        here st3))
                    λ _ m4 (st4, same4).
                      Returns.mono (fetch_loop_lem memory (addr % 2 ^ 16) buf len 0 m4 st4)
                        λ _ m5 (st5, copied). (
                          rom.ends m5.dev st5,
                          IsCopied-wrapped memory addr buf len m.mem m5.mem inside (
                              IsCopied-from memory (addr % 2 ^ 16) buf len m.mem m5.mem
                                (same4 ∙ same2 ∙ same1) copied),
                        ))
      where
        xs : List ℕ
        xs = tabulate memory (addr % 2 ^ 16) len

        here : 256 * (addr / 256 % 256) + addr % 256 ≡ addr % 2 ^ 16
        here = omega arith

        looks :
            (k : ℕ) (d : D)
            → State (serving k xs) d
            → (let r = i2c.get_fifo_levels d in
                (r.0 ≡ 0)
                × Look (ltb r.1.rx len) (State (full xs) r.2) (λ j. State (serving j xs) r.2) k)
        looks k d st =
            subst
              (λ n.
                (let r = i2c.get_fifo_levels d in
                  (r.0 ≡ 0)
                  × Look (ltb r.1.rx n) (State (full xs) r.2) (λ j. State (serving j xs) r.2) k))
              (length-tabulate memory (addr % 2 ^ 16) len) (rom.serves k xs d st)

    pub chunk_lem :
        (fuel buf addr len : ℕ) (m : Machine D)
        → 0 < fuel
        → 0 < len
        → len ≤ 64
        → addr % 2 ^ 16 + len ≤ 2 ^ 16
        → State (draining drain) m.dev
        → Returns
            (λ _ m'.
              State (draining drain) m'.dev × IsCopied (wrapped memory) addr buf len m.mem m'.mem)
            (access_chunk i2c spin_tick patience fuel buf addr len false m)
    unfolding access_chunk
    chunk_lem zero buf addr len m fuelled some short inside st = absurd (omega (arith, fuelled))
    chunk_lem (suc fuel) buf addr len m fuelled some short inside st =
        Returns.bind (address_lem addr m st) λ _ m1 (st1, same).
          Returns.mono (read_half_lem buf addr len m1 some short inside st1) λ _ m2 (st2, copied).
            (st2, subst (λ f. IsCopied (wrapped memory) addr buf len f m2.mem) same copied)
