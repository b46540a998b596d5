-- ===== src/Clint/Time.antt =====
-- What `clint_get_mtime` of sw/lib/dif/clint.c returns while the time goes on.
use Prim.Native.Nat.{bit_or}
use cheshire_fork.Base.{ℕ, ◌+◌, ◌-◌, ◌*◌, ◌/◌, ◌%◌, ◌^◌, ◌≤◌, ◌<◌, ◌≡◌, refl, arith, u64, ◌<<<◌}
use cheshire_fork.Base.Masks.{or_apart}
use cheshire_fork.Machine.{Machine}
use cheshire_fork.Machine.Returns.{Returns, returns}
use cheshire_fork.Mmio.{Bus, get32}
use cheshire_fork.Clint.{mtime_low, mtime_high, get_mtime}

-- A 64-bit clock behind two registers. It may go on with every access.
pub record IsClock {D : Type 0} (bus : Bus D) (base : ℕ) (time : D → ℕ) : Type 0 where
  pub bounded : (d : D) → time d < 2 ^ 64
  pub high :
      (d : D)
      → (let (x, d') = bus.read32 (base + mtime_high) d in
          (x ≡ time d / 2 ^ 32) × (time d ≤ time d'))
  pub low :
      (d : D)
      → (let (x, d') = bus.read32 (base + mtime_low) d in
          (x ≡ time d % 2 ^ 32) × (time d ≤ time d'))

-- Two halves of which the high one was taken earlier.
joined :
    (a b : ℕ)
    → a ≤ b
    → a < 2 ^ 64
    → bit_or (u64 ((a / 2 ^ 32) <<< 32)) (b % 2 ^ 32) + 2 ^ 32 * (b / 2 ^ 32 - a / 2 ^ 32) ≡ b
joined a b h small =
    let fits : u64 ((a / 2 ^ 32) <<< 32) ≡ a / 2 ^ 32 * 2 ^ 32 = omega arith in
    rw (fits, or_apart 32 (b % 2 ^ 32) (a / 2 ^ 32) (omega arith)) (omega arith)

module _ {D : Type 0} {bus : Bus D} {base : ℕ} {time : D → ℕ} (clock : IsClock bus base time) where
  -- The time that is returned is the time of the second access, less 2 ^ 32 for each carry into
  -- the high half between the two accesses. Without a carry it is exact; with one it is too small.
  pub get_mtime-time :
      (m : Machine D)
      → (let d1 = (bus.read32 (base + mtime_high) m.dev).1 in
          Returns
            (λ t m'.
              (t + 2 ^ 32 * (time d1 / 2 ^ 32 - time m.dev / 2 ^ 32) ≡ time d1)
              × (time d1 ≤ time m'.dev)
              × (m'.mem ≡ m.mem))
            (get_mtime bus base m))
  unfolding get_mtime get32
  get_mtime-time m =
      let d1 = (bus.read32 (base + mtime_high) m.dev).1 in
      let (h, up) = clock.high m.dev in
      let (l, on) = clock.low d1 in
      rw (h, l) (returns (joined (time m.dev) (time d1) up (clock.bounded m.dev), on, refl))
