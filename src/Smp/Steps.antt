-- ===== src/Smp/Steps.antt =====
-- Every step of a hart keeps the invariant, and what follows for the end of the barrier.
use Prim.Native.Nat.{bit_and}
use mathlib.Core.Path.{subst}
use cheshire_fork.Base.{
  ℕ, ◌+◌, ◌-◌, ◌*◌, ◌/◌, ◌^◌, ◌<◌, ◌≡◌, sym, ◌∙◌, ap, refl, arith, true, List, [], ◌∷◌, ltb, ◌==◌,
  u64, ◌<<<◌, Bool-cases, inl, inr,
}
use cheshire_fork.Smp.{
  Point, entry, booting, waiting, clearing, past, waking, watching, Harts, act, hart_step, run,
}
use cheshire_fork.Smp.Barrier.{
  has_answered, is_clearing, called, seen, IsPlaced, IsBarrier, goes, answers, calls_next,
  next_word_lem,
}

-- A CLINT whose words are the software interrupts of the harts, in bit 3 of `mip`.
pub record IsClint (base : ℕ) (mip : (ℕ → ℕ) → ℕ → ℕ) : Type 0 where
  pub pending : (f : ℕ → ℕ) (hart : ℕ) → (bit_and (mip f hart) 8 == 0) ≡ (f (base + 4 * hart) == 0)

-- The harts of a schedule.
abbrev pub AreHarts : (harts : ℕ) → List ℕ → Type 0
AreHarts harts [] = Unit {0}
AreHarts harts (h ∷ hs) = (h < harts) × AreHarts harts hs

-- At reset: no interrupt is pending, and every hart is about to enter smp_pause.
pub record IsStart (base harts : ℕ) (s : Harts) : Type 0 where
  pub words : (i : ℕ) → i < harts → s.clint (base + 4 * i) ≡ 0
  pub entries : (i : ℕ) → i < harts → s.points i ≡ entry

pub record IsTogether (base harts : ℕ) (s : Harts) : Type 0 where
  pub answered : (j : ℕ) → j < harts → has_answered (s.points j) ≡ true
  pub silent : (j : ℕ) → j < harts → s.clint (base + 4 * j) ≡ 0

module _ {base harts : ℕ} {mip : (ℕ → ℕ) → ℕ → ℕ} (c : IsClint base mip) (some : 0 < harts)
    (space : base + 4 * harts < 2 ^ 63) where
  called-answered : (p : Point) → has_answered p ≡ true → called base harts p ≡ harts
  unfolding called has_answered
  called-answered entry a = cc
  called-answered booting a = cc
  called-answered waiting a = cc
  called-answered clearing a = cc
  called-answered past a = refl
  called-answered (waking r) a = cc
  called-answered (watching r) a = refl

  -- The next word that a watching hart sees to be zero is that of a hart that has answered.
  seen_next :
      (h k : ℕ) (s : Harts)
      → IsBarrier base harts s
      → h < harts
      → k < harts
      → has_answered (s.points h) ≡ true
      → seen base harts (s.points h) ≡ k
      → s.clint (base + 4 * k) ≡ 0
      → has_answered (s.points k) ≡ true
  seen_next h k s b inside_h inside_k a e zero_word = ground (
    arith,
    b.called_one k inside_k,
    b.uncalled_zero h inside_h,
    b.seen_answered h 0 inside_h some,
    called-answered (s.points 0),
  )

  called_at :
      (h : ℕ) (p : Point) (s : Harts)
      → s.points h ≡ p
      → h ≡ 0
      → called base harts p ≡ called base harts (s.points 0)
  called_at h p s e h0 = ap (called base harts) (sym e ∙ ap s.points h0)

  pub act_lem :
      (h : ℕ) (p : Point) (s : Harts)
      → IsBarrier base harts s
      → h < harts
      → s.points h ≡ p
      → IsBarrier base harts (act base harts 0 mip h p s)
  unfolding act has_answered called seen IsPlaced is_clearing
  act_lem h entry s b inside e = elim (Bool-cases (0 == h)) [
    | inl first ↦
        let h0 : h ≡ 0 = ground (arith, first) in
        rw first (
          goes base harts some space h booting s b inside h0 (sym (ap has_answered e))
            (called_at h entry s e) (λ x. cc) (λ j _ see. absurd (omega (arith, see))))
    | inr other ↦ rw other (
        goes base harts some space h waiting s b inside tt (sym (ap has_answered e))
          (λ h0. absurd (ground (arith, other, h0))) (λ x. cc)
          (λ j _ see. absurd (omega (arith, see))))
  ]
  act_lem h booting s b inside e =
      let h0 : h ≡ 0 = subst (IsPlaced base harts h) e (b.placed h inside) in
      let none : (base - base) / 4 ≡ 0 = omega arith in
      goes base harts some space h (waking base) s b inside (h0, 0, some, omega arith)
        (sym (ap has_answered e)) (λ h0. none ∙ called_at h booting s e h0) (λ x. cc)
        (λ j _ see. absurd (omega (arith, see)))
  act_lem h (waking reg1) s b inside e =
      let (h0, k, inside_k, at) = subst (IsPlaced base harts h) e (b.placed h inside) in
      let e' : s.points 0 ≡ waking (base + 4 * k) = rw (← at, ← h0) e in
      rw (h0, at, next_word_lem base harts some space k waking waiting inside_k)
        (elim (Bool-cases (ltb (k + 1) harts)) [
          | inl more ↦ rw more (
              calls_next base harts some space k (waking (base + 4 * (k + 1))) s b inside_k e'
                (refl, k + 1, ground (arith, more), refl) (omega arith) refl refl refl)
          | inr last ↦ rw last (
              calls_next base harts some space k waiting s b inside_k e' tt (ground (arith, last))
                refl refl refl)
        ])
  act_lem h waiting s b inside e =
      rw (c.pending s.clint h) (elim (Bool-cases (s.clint (base + 4 * h) == 0)) [
        | inl none ↦ rw none (
            goes base harts some space h waiting s b inside tt (sym (ap has_answered e))
              (called_at h _ s e) (λ x. cc) (λ j _ see. absurd (omega (arith, see))))
        | inr one ↦ rw one (
            goes base harts some space h clearing s b inside tt (sym (ap has_answered e))
              (called_at h _ s e) (λ x. ground (arith, one, b.uncalled_zero h inside))
              (λ j _ see. absurd (omega (arith, see))))
      ])
  act_lem h clearing s b inside e =
      let at : u64 (u64 (h <<< 2) + base) ≡ base + 4 * h = omega arith in
      rw at (answers base harts some space h s b inside e)
  act_lem h (watching reg1) s b inside e =
      let (k, inside_k, at) = subst (IsPlaced base harts h) e (b.placed h inside) in
      let count : seen base harts (s.points h) ≡ k = ap (seen base harts) e ∙ rw at (omega arith) in
      let answered = ap has_answered e in
      rw at (elim (Bool-cases (s.clint (base + 4 * k) == 0)) [
        | inr one ↦ rw one b
        | inl none ↦
            let next = seen_next h k s b inside inside_k answered count (ground (arith, none)) in
            rw (none, next_word_lem base harts some space k watching past inside_k)
              (elim (Bool-cases (ltb (k + 1) harts)) [
                | inl more ↦ rw more (
                    goes base harts some space h (watching (base + 4 * (k + 1))) s b inside
                      (k + 1, ground (arith, more), refl) (sym answered) (called_at h _ s e)
                      (λ x. cc)
                      (λ j below see.
                        ground (arith, see, next, count, b.seen_answered h j inside below)))
                | inr last ↦ rw last (
                    goes base harts some space h past s b inside tt (sym answered)
                      (called_at h _ s e) (λ x. cc)
                      (λ j below see.
                        ground (arith, see, last, next, count, b.seen_answered h j inside below)))
              ])
      ])
  act_lem h past s b inside e = b

  pub run_lem :
      (schedule : List ℕ) (s : Harts)
      → AreHarts harts schedule
      → IsBarrier base harts s
      → IsBarrier base harts (run base harts 0 mip schedule s)
  unfolding run hart_step
  run_lem [] s tt b = b
  run_lem (h ∷ hs) s (inside, rest) b =
      run_lem hs (hart_step base harts 0 mip h s) rest (act_lem h (s.points h) s b inside refl)

  pub start_lem : (s : Harts) → IsStart base harts s → IsBarrier base harts s
  unfolding has_answered called seen IsPlaced is_clearing
  start_lem s start = record {
    placed = λ i below. rw (start.entries i below) tt;
    answered_zero = λ i below a. start.words i below;
    called_one = λ i below call none.
        absurd (omega (arith, call, ap (called base harts) (start.entries 0 some)));
    uncalled_zero = λ i below uncalled. (
      start.words i below,
      ap has_answered (start.entries i below),
      ap is_clearing (start.entries i below),
    );
    seen_answered = λ i j below_i below_j see.
        absurd (omega (arith, see, ap (seen base harts) (start.entries i below_i)));
  }

  -- In whatever order the harts take their steps: once one hart is past the barrier, every hart has
  -- been called, has taken its interrupt back, and is behind that point, and no interrupt is left.
  -- The harts start at smp_pause with no interrupt pending, and the hart that boots is hart 0.
  pub run-IsTogether :
      (schedule : List ℕ) (s : Harts) (h : ℕ)
      → IsStart base harts s
      → AreHarts harts schedule
      → h < harts
      → (run base harts 0 mip schedule s).points h ≡ past
      → IsTogether base harts (run base harts 0 mip schedule s)
  unfolding seen
  run-IsTogether schedule s h start ok inside e =
      let b = run_lem schedule s ok (start_lem s start) in
      let all : (j : ℕ)
          → j < harts
          → has_answered ((run base harts 0 mip schedule s).points j) ≡ true =
        λ j below. b.seen_answered h j inside below (rw e below) in
      record { answered = all; silent = λ j below. b.answered_zero j below (all j below) }
