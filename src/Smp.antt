-- ===== src/Smp.antt =====
-- The macros smp_pause and smp_resume of sw/include/smp.h, by which hw/bootrom/cheshire_bootrom.S
-- holds all harts but one at boot and later lets them go on together. Each access to the CLINT is a
-- step of its own, with the register instructions around it.
pub mod Barrier
pub mod Steps
pub mod Progress
use Prim.Native.Nat.{bit_and}
use cheshire_fork.Base.{
  ℕ, ◌+◌, ◌*◌, ◌%◌, ◌^◌, Bool, true, false, List, [], ◌∷◌, ltb, ◌==◌, if◌then◌else◌, u64, ◌<<<◌,
}

-- The point at which a hart is. The number is `reg1`, an address in the CLINT. `entry` is before
-- smp_pause, `booting` between the two macros, `waiting` at label 2, `clearing` behind its branch,
-- `waking` and `watching` at labels 1 and 3, `past` behind smp_resume.
pub data Point : Type 0 where
  entry booting waiting clearing past : Point
  waking watching : (reg1 : ℕ) → Point

-- The CLINT's words by their addresses, and the point of each hart.
pub record Harts : Type 0 where
  pub clint : ℕ → ℕ
  pub points : ℕ → Point

-- `sw` to an address of the CLINT.
abbrev pub store : (a word : ℕ) → (ℕ → ℕ) → ℕ → ℕ
store a word f q = if q == a then word else f q

abbrev pub put_point : (hart : ℕ) → Point → (ℕ → Point) → ℕ → Point
put_point hart p f i = if i == hart then p else f i

-- The signed comparison of `blt`.
unfoldable pub blt : ℕ → ℕ → Bool
blt a c = ltb (u64 (a + 2 ^ 63)) (u64 (c + 2 ^ 63))

-- `base` is `__base_clint`, and `harts` is regs.NUM_HARTS.
module _ (base harts : ℕ) where
  -- `reg3` in the two loops.
  unfoldable pub end : ℕ
  end = u64 (base + u64 (harts <<< 2))

  -- Behind the access of a round of a loop: on to the next word, or out.
  unfoldable pub next_word : (reg1 : ℕ) → (ℕ → Point) → Point → Point
  unfolding blt end
  next_word reg1 again out = let next = u64 (reg1 + 4) in if blt next end then again next else out

-- `boot` is NONSMP_HART. `mip` is what a hart reads from that register, by the CLINT's words.
module _ (base harts boot : ℕ) (mip : (ℕ → ℕ) → ℕ → ℕ) where
  -- What a hart does next at a point.
  unfoldable pub act : (hart : ℕ) → Point → Harts → Harts
  unfolding next_word
  act hart entry s = record s {
    points = put_point hart (if boot == hart then booting else waiting) s.points;
  }
  act hart booting s = record s { points = put_point hart (waking base) s.points }
  act hart (waking reg1) s = record {
    clint = store reg1 1 s.clint;
    points = put_point hart (next_word base harts reg1 waking waiting) s.points;
  }
  act hart waiting s = record s {
    points =
        put_point hart (if bit_and (mip s.clint hart) 8 == 0 then waiting else clearing) s.points;
  }
  act hart clearing s = record {
    clint = store (u64 (u64 (hart <<< 2) + base)) 0 s.clint;
    points = put_point hart (watching base) s.points;
  }
  act hart (watching reg1) s =
      if s.clint reg1 == 0
      then record s { points = put_point hart (next_word base harts reg1 watching past) s.points }
      else s
  act hart past s = s

  unfoldable pub hart_step : (hart : ℕ) → Harts → Harts
  unfolding act
  hart_step hart s = act hart (s.points hart) s

  -- The harts of a list take a step each, in its order.
  unfoldable pub run : List ℕ → Harts → Harts
  unfolding hart_step
  run [] s = s
  run (hart ∷ rest) s = run rest (hart_step hart s)
