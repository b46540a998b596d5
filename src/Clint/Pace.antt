-- ===== src/Clint/Pace.antt =====
-- A core whose cycle counter and whose CLINT run at a fixed ratio, and what one round of the loops
-- of `clint_get_core_freq` (sw/lib/dif/clint.c) sees of it.

use cheshire_fork.Base.{
  ℕ, ◌+◌, ◌*◌, ◌/◌, ◌^◌, ◌≤◌, ◌<◌, ◌≡◌, refl, arith, ◌⊎◌, inl, inr, ltb, ◌∙◌, Bool-cases,
}
use cheshire_fork.Base.Masks.{or_apart}
use cheshire_fork.Machine.{Machine}
use cheshire_fork.Machine.Returns.{Returns, returns}
use cheshire_fork.Mmio.{Bus, get32}
use cheshire_fork.Clint.{mtime_low, mtime_high, get_mtime}

-- A quotient on either side of a bound.
pub below : (period bound x : ℕ) → x < bound * period → x / period < bound
below period bound x h = grind (arith, h)

pub above : (period bound x : ℕ) → 0 < period → bound * period ≤ x → bound ≤ x / period
above period bound x some h = grind (arith, some, h)

-- Between a state and the next, at least one cycle goes by and at most `step`.
abbrev pub Goes : (step before after : ℕ) → Type 0
Goes step before after = (before < after) × (after ≤ before + step)

-- `cycles` counts from reset on; the time is one tick for `period` cycles. An access shows the
-- state that it is made in. This is said of the time before the first carry into the high half.
pub record IsPaced {D : Type 0} (bus : Bus D) (base : ℕ) (mcycle : D → ℕ × D) (Keep : D → Type 0)
    (cycles : D → ℕ) (period step : ℕ) : Type 0 where
  pub quick : 3 * step < period
  pub high :
      (d : D)
      → Keep d
      → cycles d < 2 ^ 32 * period
      → (let r = bus.read32 (base + mtime_high) d in
          (r.0 ≡ 0) × Goes step (cycles d) (cycles r.1) × Keep r.1)
  pub low :
      (d : D)
      → Keep d
      → cycles d < 2 ^ 32 * period
      → (let r = bus.read32 (base + mtime_low) d in
          (r.0 ≡ cycles d / period) × Goes step (cycles d) (cycles r.1) × Keep r.1)
  pub counter :
      (d : D)
      → Keep d
      → cycles d < 2 ^ 32 * period
      → (let r = mcycle d in (r.0 ≡ cycles d) × Goes step (cycles d) (cycles r.1) × Keep r.1)

module _ {D : Type 0} {bus : Bus D} {base : ℕ} {mcycle : D → ℕ × D} {Keep : D → Type 0}
    {cycles : D → ℕ} {period step : ℕ}
    (pace : IsPaced bus base mcycle Keep cycles period step) where
  -- The time is that at some cycle `at` between the state before and the state after.
  pub record Timed (t : ℕ) (m m' : Machine D) : Type 0 where
    pub at : ℕ
    pub shown : t ≡ at / period
    pub begun : Goes step (cycles m.dev) at
    pub ended : Goes step at (cycles m'.dev)
    pub kept : Keep m'.dev
    pub mem_same : m'.mem ≡ m.mem

  -- Before the first carry into the high half, the time is exact.
  pub get_mtime-Timed :
      (m : Machine D)
      → Keep m.dev
      → cycles m.dev + step < 2 ^ 32 * period
      → Returns (λ t m'. Timed t m m') (get_mtime bus base m)
  unfolding get_mtime get32
  get_mtime-Timed m keep early =
      let (h, gone, keep1) = pace.high m.dev keep (omega (arith, early)) in
      let d1 = (bus.read32 (base + mtime_high) m.dev).1 in
      let (l, gone2, keep2) = pace.low d1 keep1 (omega (arith, gone, early)) in
      let small = below period (2 ^ 32) (cycles d1) (omega (arith, gone, early)) in
      rw (h, l)
        (returns record {
          at = cycles d1;
          shown = omega (arith, small, or_apart 32 (cycles d1 / period) 0 small);
          begun = gone;
          ended = gone2;
          kept = keep2;
          mem_same = refl;
        })

  -- A counter and then a time, as the rounds read them, against the end of the tick before `edge`.
  -- Either the edge is still to come, or it has come since the last round and the counter and the
  -- time show it.
  pub record Short (edge t : ℕ) (m m' : Machine D) : Type 0 where
    pub not_yet : t < edge
    pub early : cycles m.dev < edge * period
    pub since : (b : ℕ) → b * period ≤ cycles m.dev → b ≤ t
    pub gone : cycles m.dev < cycles m'.dev
    pub near : cycles m'.dev < edge * period + step
    pub kept : Keep m'.dev
    pub mem_same : m'.mem ≡ m.mem

  pub record Reached (edge count t : ℕ) (m' : Machine D) : Type 0 where
    pub on_edge : t ≡ edge
    pub not_early : edge * period ≤ count + 2 * step
    pub not_late : count < edge * period + step
    pub near : cycles m'.dev < (edge + 1) * period + step
    pub past : edge * period ≤ cycles m'.dev
    pub kept : Keep m'.dev

  pub round_lem :
      (edge : ℕ) (m m1 : Machine D) {t : ℕ} {m' : Machine D}
      → cycles m.dev < edge * period + step
      → Goes step (cycles m.dev) (cycles m1.dev)
      → m1.mem ≡ m.mem
      → Timed t m1 m'
      → Short edge t m m' ⊎ (Reached edge (cycles m.dev) t m' × (m'.mem ≡ m.mem))
  round_lem edge m m1 {t} {m'} near goes same timed =
      elim (Bool-cases (ltb timed.at (edge * period))) [
        | inl early ↦ inl record {
          not_yet = rw timed.shown (below period edge timed.at (ground (arith, early)));
          early = ground (arith, early, goes, timed.begun);
          since = λ b from. rw timed.shown (
              above period b timed.at (omega (arith, pace.quick))
                (omega (arith, from, goes, timed.begun)));
          gone = omega (arith, goes, timed.begun, timed.ended);
          near = ground (arith, early, timed.ended);
          kept = timed.kept;
          mem_same = timed.mem_same ∙ same;
        }
        | inr late ↦ inr (
          record {
            on_edge = rw timed.shown (
                omega (
                  arith,
                  below period (edge + 1) timed.at
                      (omega (arith, pace.quick, near, goes, timed.begun)),
                  above period edge timed.at (omega (arith, pace.quick)) (ground (arith, late)),
                ));
            not_early = ground (arith, late, goes, timed.begun);
            not_late = near;
            near = omega (arith, pace.quick, near, goes, timed.begun, timed.ended);
            past = ground (arith, late, timed.ended);
            kept = timed.kept;
          },
          timed.mem_same ∙ same,
        )
      ]
