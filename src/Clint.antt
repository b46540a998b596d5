-- ===== src/Clint.antt =====
-- sw/lib/dif/clint.c: the core-local interruptor's time and compare registers. `mcycle`, a counter
-- of the core, is read as a device too. Loops that wait for the time take fuel.
pub mod Time
pub mod Waiting
pub mod Pace
pub mod Frequency
pub mod Straps
use Prim.Native.Nat.{bit_or}
use cheshire_fork.Base.{
  ℕ, zero, suc, ◌+◌, ◌-◌, ◌*◌, ◌/◌, ◌^◌, ltb, ◌==◌, if◌then◌else◌, ◌<<<◌, ◌>>>◌, u64, sub64,
}
use cheshire_fork.Machine.{Cmd, diverge, ◌>>=◌, ◌>>◌, pure, on_dev}
use cheshire_fork.Mmio.{Bus, get32, put32}

-- The register offsets of sw/include/regs/clint.h.
abbrev pub mtimecmp_low0 : ℕ
mtimecmp_low0 = 0x4000

abbrev pub mtimecmp_high0 : ℕ
mtimecmp_high0 = 0x4004

abbrev pub mtime_low : ℕ
mtime_low = 0xbff8

abbrev pub mtime_high : ℕ
mtime_high = 0xbffc

-- A rate in Hz. RISC-V's unsigned division by 0 gives all ones.
unfoldable pub rate : (cycles ref_freq ticks : ℕ) → ℕ
rate cycles ref_freq ticks = if ticks == 0 then 2 ^ 64 - 1 else u64 (cycles * ref_freq) / ticks

module _ {D : Type 0} (bus : Bus D) (base : ℕ) where
  -- `clint_get_mtime`. C leaves the order of the two reads, which stand in one expression, to the
  -- compiler; here they are made from left to right, the high half first.
  unfoldable pub get_mtime : Cmd D ℕ
  get_mtime = do
    high ← get32 bus base mtime_high
    low ← get32 bus base mtime_low
    pure (bit_or (u64 (high <<< 32)) low)

  -- `clint_spin_until`.
  unfoldable pub spin_until : (fuel tgt_mtime : ℕ) → Cmd D (Unit {0})
  spin_until zero tgt_mtime = diverge
  spin_until (suc n) tgt_mtime = do
    now ← get_mtime
    let again = spin_until n tgt_mtime
    if ltb now tgt_mtime then again else pure tt

  -- `clint_spin_ticks`.
  unfoldable pub spin_ticks : (fuel ticks : ℕ) → Cmd D (Unit {0})
  unfolding spin_until get_mtime
  spin_ticks fuel ticks = do now ← get_mtime; spin_until fuel (u64 (now + ticks))

  -- `clint_set_mtimecmpx`: the high register is written first.
  unfoldable pub set_mtimecmpx : (timer_idx value : ℕ) → Cmd D (Unit {0})
  set_mtimecmpx timer_idx value = do
    let offs = u64 (timer_idx <<< 3)
    put32 bus base (mtimecmp_high0 + offs) (value >>> 32)
    put32 bus base (mtimecmp_low0 + offs) value

  module _ (mcycle : D → ℕ × D) where
    -- The loop to the next tick: `do { read } while (start_mtime == end_mtime);`
    unfoldable pub start_loop : (fuel end_mtime : ℕ) → Cmd D (ℕ × ℕ)
    start_loop zero end_mtime = diverge
    start_loop (suc n) end_mtime = do
      start_mcycle ← on_dev mcycle
      start_mtime ← get_mtime
      let again = start_loop n end_mtime
      if start_mtime == end_mtime then again else pure (start_mcycle, start_mtime)

    -- The loop to the tick past the end: `do { read } while (end_mtime < limit);`
    unfoldable pub end_loop : (fuel limit : ℕ) → Cmd D (ℕ × ℕ)
    end_loop zero limit = diverge
    end_loop (suc n) limit = do
      end_mcycle ← on_dev mcycle
      end_mtime ← get_mtime
      let again = end_loop n limit
      if ltb end_mtime limit then again else pure (end_mcycle, end_mtime)

    -- `clint_get_core_freq`.
    unfoldable pub get_core_freq : (fuel ref_freq ref_time_inv : ℕ) → Cmd D ℕ
    unfolding start_loop end_loop get_mtime rate
    get_core_freq fuel ref_freq ref_time_inv = do
      let num_ticks = ref_freq / ref_time_inv
      before ← get_mtime
      (start_mcycle, start_mtime) ← start_loop fuel before
      (end_mcycle, end_mtime) ← end_loop fuel (u64 (start_mtime + num_ticks))
      pure (rate (sub64 end_mcycle start_mcycle) ref_freq (sub64 end_mtime start_mtime))

    -- What `clint_sleep_until` does between its test and its wait for an interrupt.
    module _ (enable_and_wait : D → D) where
      -- `clint_sleep_until`; the fence, the interrupt enables and `wfi` are one device action.
      unfoldable pub sleep_until : (timer_idx tgt_mtime : ℕ) → Cmd D (Unit {0})
      unfolding get_mtime set_mtimecmpx
      sleep_until timer_idx tgt_mtime = do
        now ← get_mtime
        let sleep = set_mtimecmpx timer_idx tgt_mtime >> on_dev (λ d. (tt, enable_and_wait d))
        if ltb now tgt_mtime then pure tt else sleep

      -- `clint_sleep_ticks`.
      unfoldable pub sleep_ticks : (timer_idx ticks : ℕ) → Cmd D (Unit {0})
      unfolding sleep_until
      sleep_ticks timer_idx ticks = do now ← get_mtime; sleep_until timer_idx (u64 (now + ticks))
