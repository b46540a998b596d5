-- ===== src/Eeprom/Device.antt =====
-- What sw/lib/hal/i2c_24fc1025.c meets on the bus: OpenTitan's I2C host as a state machine, and a
-- 24FC1025 behind it, whose first 64 KiB answer to the control bytes 0xA0 and 0xA1.
use cheshire_fork.Base.{
  ℕ, ◌+◌, ◌*◌, ◌%◌, ◌^◌, ◌≤◌, ◌<◌, ◌≡◌, Bool, true, false, List, [], ◌∷◌, ◌++◌, ltb, length,
  tabulate,
}
use cheshire_fork.Machine.Bytes.{Mem}
use cheshire_fork.Eeprom.{I2cHost, Fmt, start, transmit, transmit_stop, receive, any_level}

-- The host is `draining k` while a transfer of its own ends, which is seen after `k` more looks at
-- the FIFO levels, and then `empty`. Disabled, it is `held` with the entries of its format FIFO.
-- Enabled again with a read, it is `serving k xs` while the bytes `xs` come in, and then `full xs`.
pub data Phase : Type 0 where
  draining : ℕ → Phase
  empty : Phase
  held : List (ℕ × Fmt) → Phase
  serving : ℕ → List ℕ → Phase
  full : List ℕ → Phase

-- A look at the levels with at most `k` more to come: either the wait is over, or it goes on.
pub data Look (again : Bool) (Now : Type 0) (Later : ℕ → Type 0) (k : ℕ) : Type 0 where
  settled : again ≡ false → Now → Look again Now Later k
  goes_on : (j : ℕ) → j < k → again ≡ true → Later j → Look again Now Later k

-- The host refuses a read entry that tolerates a missing acknowledge.
abbrev pub tolerates : Fmt → Bool
tolerates receive = false
tolerates start = true
tolerates transmit = true
tolerates transmit_stop = true

-- The bytes that the two address bytes reach.
abbrev pub wrapped : Mem → Mem
wrapped memory a = memory (a % 2 ^ 16)

-- The entries of a random read: the address is written, and `n` bytes are read from there.
abbrev pub random_read : (hi lo n : ℕ) → List (ℕ × Fmt)
random_read hi lo n =
    (0xA0, start) ∷ (hi, transmit) ∷ (lo, transmit_stop) ∷ (0xA1, start) ∷ (n, receive) ∷ []

pub record IsEeprom {D C : Type 0} (i2c : I2cHost D C) (State : Phase → D → Type 0) (memory : Mem)
    (drain arrive : ℕ) : Type 0 where
  pub depth : i2c.fifo_depth ≡ 64
  pub drains :
      (k : ℕ) (d : D)
      → State (draining k) d
      → (let r = i2c.get_fifo_levels d in
          (r.0 ≡ 0) × Look (any_level r.1) (State empty r.2) (λ j. State (draining j) r.2) k)
  pub disables :
      (d : D)
      → State empty d
      → (let r = i2c.host_set_enabled false d in (r.0 ≡ 0) × State (held []) r.1)
  pub queues :
      (byte : ℕ) (flag : Fmt) (es : List (ℕ × Fmt)) (d : D)
      → byte < 256
      → length es < i2c.fifo_depth
      → State (held es) d
      → (let r = i2c.write_byte byte flag (tolerates flag) d in
          (r.0 ≡ 0) × State (held (es ++ (byte, flag) ∷ [])) r.1)
  pub launches :
      (hi lo n : ℕ) (d : D)
      → hi < 256
      → lo < 256
      → 0 < n
      → n ≤ i2c.fifo_depth
      → 256 * hi + lo + n ≤ 2 ^ 16
      → State (held (random_read hi lo n)) d
      → (let r = i2c.host_set_enabled true d in
          (r.0 ≡ 0) × State (serving arrive (tabulate memory (256 * hi + lo) n)) r.1)
  pub serves :
      (k : ℕ) (xs : List ℕ) (d : D)
      → State (serving k xs) d
      → (let r = i2c.get_fifo_levels d in
          (r.0 ≡ 0)
          × Look (ltb r.1.rx (length xs)) (State (full xs) r.2) (λ j. State (serving j xs) r.2) k)
  pub fetches :
      (x : ℕ) (xs : List ℕ) (d : D)
      → State (full (x ∷ xs)) d
      → (let r = i2c.read_byte d in (r.0 ≡ 0) × (r.1 ≡ x) × State (full xs) r.2)
  pub ends : (d : D) → State (full []) d → State (draining drain) d
