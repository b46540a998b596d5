-- ===== src/Tests/Harts.antt =====
-- Three harts at the barrier.

use cheshire_fork.Base.{
  ℕ, ◌+◌, ◌*◌, ◌<◌, ◌≡◌, refl, arith, List, [], ◌∷◌, ◌==◌, if◌then◌else◌, Bool-cases, inl, inr,
}
use cheshire_fork.Smp.{Harts, entry, past, run, hart_step, act, next_word, blt, end}
use cheshire_fork.Smp.Steps.{IsClint, IsStart, IsTogether, AreHarts, run-IsTogether}
use cheshire_fork.Smp.Progress.{run-all_past}

abbrev clint_base : ℕ
clint_base = 0x2040000

abbrev pending_bit : (ℕ → ℕ) → ℕ → ℕ
pending_bit f hart = if f (clint_base + 4 * hart) == 0 then 0 else 8

pending_bit-IsClint : IsClint clint_base pending_bit
pending_bit-IsClint = record {
  pending = λ f hart. elim (Bool-cases (f (clint_base + 4 * hart) == 0)) [
    | inl none ↦ rw none refl
    | inr one ↦ rw one refl
  ];
}

abbrev reset : Harts
reset = record { clint = λ a. 0; points = λ i. entry }

reset-IsStart : IsStart clint_base 3 reset
reset-IsStart = record { words = λ i below. refl; entries = λ i below. refl }

-- Hart 0 boots and calls the harts; all answer, and hart 1 is the first one past the barrier.
abbrev first_out : List ℕ
first_out = 0 ∷ 1 ∷ 2 ∷ 0 ∷ 0 ∷ 0 ∷ 0 ∷ 0 ∷ 0 ∷ 1 ∷ 1 ∷ 2 ∷ 2 ∷ 1 ∷ 1 ∷ 1 ∷ []

first_out-past : (run clint_base 3 0 pending_bit first_out reset).points 1 ≡ past
unfolding run hart_step act next_word blt end
first_out-past = refl

first_out-AreHarts : AreHarts 3 first_out
first_out-AreHarts = ground arith

run-IsTogether_example : IsTogether clint_base 3 (run clint_base 3 0 pending_bit first_out reset)
run-IsTogether_example =
    run-IsTogether pending_bit-IsClint (omega arith) (omega arith) first_out reset 1 reset-IsStart
      first_out-AreHarts (omega arith) first_out-past

run-all_past_example :
    (more : List ℕ) × AreHarts 3 more
    × ((j : ℕ)
        → j < 3
        → (run clint_base 3 0 pending_bit more
              (run clint_base 3 0 pending_bit first_out reset)).points
            j
          ≡ past)
run-all_past_example =
    run-all_past pending_bit-IsClint (omega arith) (omega arith) first_out reset reset-IsStart
      first_out-AreHarts

-- Where hart 1 boots instead, hart 0 gets past the barrier before hart 2 is called.
abbrev too_early : List ℕ
too_early = 0 ∷ 1 ∷ 1 ∷ 1 ∷ 0 ∷ 0 ∷ 0 ∷ 0 ∷ 0 ∷ []

too_early-past :
    (let s = run clint_base 3 1 pending_bit too_early reset in
      (s.points 0 ≡ past) × (s.points 2 ≡ entry))
unfolding run hart_step act next_word blt end
too_early-past = (refl, refl)
