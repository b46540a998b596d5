-- ===== src/Clint/Frequency.antt =====
-- `clint_get_core_freq` of sw/lib/dif/clint.c on a paced core.
use native.Mathlib.Nat.{
  mul-le-mul_left, mul-le-mul_right, le_of_mul-le-mul_left, lt_of_mul-lt-mul_right, div-mul-le_self,
}
use cheshire_fork.Base.{
  ℕ, zero, suc, ◌+◌, ◌-◌, ◌*◌, ◌/◌, ◌^◌, ◌≤◌, ◌<◌, ◌≡◌, ◌∙◌, refl, arith, true, false, ltb, ◌==◌,
  inl, inr, u64, sub64,
}
use cheshire_fork.Machine.{Machine}
use cheshire_fork.Machine.Returns
use cheshire_fork.Machine.Returns.{Returns, returns}
use cheshire_fork.Mmio.{Bus}
use cheshire_fork.Clint.{start_loop, end_loop, get_core_freq, rate}
use cheshire_fork.Clint.Pace.{IsPaced, get_mtime-Timed, Reached, round_lem}

-- A count over `ticks` ticks that is right to `3 * step` cycles gives the frequency.
accuracy :
    (count ticks period step ref inv : ℕ)
    → 0 < ticks
    → ref < (ticks + 1) * inv
    → ticks * period ≤ count + 3 * step
    → count ≤ ticks * period + 3 * step
    → (let f = count * ref / ticks in
        (f ≤ period * ref + (6 * step * inv + 1)) × (period * ref ≤ f + (6 * step * inv + 1)))
accuracy count ticks period step ref inv some short low high =
    let f = count * ref / ticks in
    let wide : ref ≤ 2 * (ticks * inv) = omega (arith, mul-le-mul_right inv some, short) in
    let more = mul-le-mul_left (3 * step) wide in
    let above = mul-le-mul_right ref high in
    let under = mul-le-mul_right ref low in
    let from : f * ticks ≤ count * ref = div-mul-le_self (count * ref) ticks in
    let to : count * ref < (f + 1) * ticks = grind (arith, some) in
    (
      le_of_mul-le-mul_left {k = ticks} (omega (arith, more, above, from)) some,
      le_of_mul-le-mul_left {k = ticks} (omega (arith, more, under, to)) some,
    )

past : (x period : ℕ) → 0 < period → x < (x / period + 1) * period
past x period some = grind (arith, some)

module _ {D : Type 0} {bus : Bus D} {base : ℕ} {mcycle : D → ℕ × D} {Keep : D → Type 0}
    {cycles : D → ℕ} {period step : ℕ}
    (pace : IsPaced bus base mcycle Keep cycles period step) where
  -- What either loop returns: a counter and a time on the edge.
  abbrev Edge : (edge : ℕ) → Machine D → ℕ × ℕ → Machine D → Type 0
  Edge edge m (c, t) m' = Reached pace edge c t m' × (m'.mem ≡ m.mem)

  inside : (edge : ℕ) → edge < 2 ^ 32 → (edge + 1) * period ≤ 2 ^ 32 * period
  inside edge h = mul-le-mul_right period (omega (arith, h))

  end_loop_lem :
      (fuel edge : ℕ) (m : Machine D)
      → edge < 2 ^ 32
      → cycles m.dev < edge * period + step
      → edge * period - cycles m.dev < fuel
      → Keep m.dev
      → Returns (Edge edge m) (end_loop bus base mcycle fuel edge m)
  unfolding end_loop
  end_loop_lem zero edge m early near enough keep = absurd (omega (arith, enough))
  end_loop_lem (suc n) edge m early near enough keep =
      let (e, goes, keep1) =
        pace.counter m.dev keep (omega (arith, near, pace.quick, inside edge early)) in
      Returns.bind
        (get_mtime-Timed pace (record m { dev = (mcycle m.dev).1 }) keep1
          (omega (arith, near, goes, pace.quick, inside edge early)))
        λ t m1 timed. elim (round_lem pace edge m _ near goes refl timed) [
          | inl again ↦
              let yet : ltb t edge ≡ true = ground (arith, again.not_yet) in
              rw yet (
                Returns.mono
                  (end_loop_lem n edge m1 early again.near
                    (omega (arith, again.early, again.gone, enough)) again.kept)
                  λ ct m2 (r, same). (r, same ∙ again.mem_same))
          | inr (r, same) ↦
              let done : ltb t edge ≡ false = ground (arith, r.on_edge) in
              rw done (rw e (returns (r, same)))
        ]

  start_loop_lem :
      (fuel before : ℕ) (m : Machine D)
      → before + 1 < 2 ^ 32
      → before * period ≤ cycles m.dev
      → cycles m.dev < (before + 1) * period + step
      → (before + 1) * period - cycles m.dev < fuel
      → Keep m.dev
      → Returns (Edge (before + 1) m) (start_loop bus base mcycle fuel before m)
  unfolding start_loop
  start_loop_lem zero before m early from near enough keep = absurd (omega (arith, enough))
  start_loop_lem (suc n) before m early from near enough keep =
      let (e, goes, keep1) =
        pace.counter m.dev keep (omega (arith, near, pace.quick, inside (before + 1) early)) in
      Returns.bind
        (get_mtime-Timed pace (record m { dev = (mcycle m.dev).1 }) keep1
          (omega (arith, near, goes, pace.quick, inside (before + 1) early)))
        λ t m1 timed. elim (round_lem pace (before + 1) m _ near goes refl timed) [
          | inl again ↦
              let yet : (t == before) ≡ true =
                ground (arith, again.not_yet, again.since before from) in
              rw yet (
                Returns.mono
                  (start_loop_lem n before m1 early (omega (arith, from, again.gone)) again.near
                    (omega (arith, again.early, again.gone, enough)) again.kept)
                  λ ct m2 (r, same). (r, same ∙ again.mem_same))
          | inr (r, same) ↦
              let done : (t == before) ≡ false = ground (arith, r.on_edge) in
              rw done (rw e (returns (r, same)))
        ]

  -- What the two loops have measured.
  rate_lem :
      (before ref_freq ref_time_inv count1 count2 t1 t2 : ℕ) {m1 m2 : Machine D}
      → (let ticks = ref_freq / ref_time_inv in
          0 < ticks
          → 0 < ref_time_inv
          → before + 1 + ticks < 2 ^ 32
          → period ≤ 2 ^ 32
          → (ticks * period + 3 * step) * ref_freq < 2 ^ 64
          → Reached pace (before + 1) count1 t1 m1
          → Reached pace (before + 1 + ticks) count2 t2 m2
          → (let f = rate (sub64 count2 count1) ref_freq (sub64 t2 t1) in
              let slack = 6 * step * ref_time_inv + 1 in
              (f ≤ period * ref_freq + slack) × (period * ref_freq ≤ f + slack)))
  unfolding rate
  rate_lem before ref_freq ref_time_inv count1 count2 t1 t2 some some_inv early small fits r1 r2 =
      let ticks = ref_freq / ref_time_inv in
      let count = count2 - count1 in
      let wide = inside (before + 1 + ticks) early in
      let low : ticks * period ≤ count + 3 * step = omega (arith, r1.not_late, r2.not_early) in
      let high : count ≤ ticks * period + 3 * step = omega (arith, r1.not_early, r2.not_late) in
      let forward : count1 ≤ count2 =
        omega (arith, r1.not_late, r2.not_early, pace.quick, mul-le-mul_right period some) in
      let counts : sub64 count2 count1 ≡ count =
        omega (arith, forward, r2.not_late, wide, small, pace.quick) in
      let times : sub64 t2 t1 ≡ ticks = omega (arith, r1.on_edge, r2.on_edge, early) in
      let nonzero : (ticks == 0) ≡ false = ground (arith, some) in
      let whole : u64 (count * ref_freq) ≡ count * ref_freq =
        omega (arith, fits, mul-le-mul_right ref_freq high) in
      rw (counts, times, nonzero, whole)
        (accuracy count ticks period step ref_freq ref_time_inv some (grind (arith, some_inv)) low
          high)

  -- On a core with a clock at 1 / `period` of its frequency, on which an access of the counter or the
  -- clock takes at most `step` cycles, less than a third of a tick, the measurement ends and is
  -- right to `6 * step * ref_time_inv + 1` Hz: the core's frequency is `period` times that of the
  -- clock. This holds if the time stays below 2 ^ 32 ticks, the interval has a tick at least, and
  -- the product of cycles and clock frequency has 64 bits; the fuel is enough for each loop to poll
  -- in every cycle.
  pub get_core_freq-accurate :
      (fuel ref_freq ref_time_inv : ℕ) (m : Machine D)
      → (let ticks = ref_freq / ref_time_inv in
          let slack = 6 * step * ref_time_inv + 1 in
          Keep m.dev
          → 0 < ticks
          → 0 < ref_time_inv
          → cycles m.dev + (ticks + 3) * period < 2 ^ 32 * period
          → period ≤ 2 ^ 32
          → (ticks * period + 3 * step) * ref_freq < 2 ^ 64
          → (ticks + 1) * period < fuel
          → Returns
              (λ f m'.
                (f ≤ period * ref_freq + slack)
                × (period * ref_freq ≤ f + slack)
                × Keep m'.dev
                × (m'.mem ≡ m.mem))
              (get_core_freq bus base mcycle fuel ref_freq ref_time_inv m))
  unfolding get_core_freq
  get_core_freq-accurate fuel ref_freq ref_time_inv m keep some some_inv early small fits enough =
      Returns.bind (get_mtime-Timed pace m keep (omega (arith, early, pace.quick))) λ t m1 timed.
        let ticks = ref_freq / ref_time_inv in
        let from : t * period ≤ timed.at = rw timed.shown (div-mul-le_self timed.at period) in
        let upto : timed.at < (t + 1) * period =
          rw timed.shown (past timed.at period (omega (arith, pace.quick))) in
        let last : t + 1 + ticks < 2 ^ 32 =
          lt_of_mul-lt-mul_right period (omega (arith, from, timed.begun, early, pace.quick)) in
        Returns.bind
          (start_loop_lem fuel t m1 (omega (arith, last)) (omega (arith, from, timed.ended))
            (omega (arith, upto, timed.ended)) (omega (arith, from, timed.ended, enough))
            timed.kept)
          λ (c1, t1) m2 (r1, same1).
            let limit : u64 (t1 + ticks) ≡ t + 1 + ticks = omega (arith, r1.on_edge, last) in
            rw limit (
              Returns.bind
                (end_loop_lem fuel (t + 1 + ticks) m2 last
                  (omega (arith, r1.near, mul-le-mul_right period some))
                  (omega (arith, r1.past, enough)) r1.kept)
                λ (c2, t2) m3 (r2, same2).
                  let (not_above, not_below) =
                    rate_lem t ref_freq ref_time_inv c1 c2 t1 t2 some some_inv last small fits r1
                      r2 in
                  returns (not_above, not_below, r2.kept, same2 ∙ same1 ∙ timed.mem_same))
