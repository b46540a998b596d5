-- ===== src/Smp/Barrier.antt =====
-- The invariant of the harts between smp_pause and the end of smp_resume.

use cheshire_fork.Base.{
  ℕ, ◌+◌, ◌-◌, ◌*◌, ◌/◌, ◌^◌, ◌<◌, ◌≤◌, ◌≡◌, ap, refl, arith, Bool, true, false, ltb, ◌==◌, u64,
  ◌<<<◌, if◌then◌else◌, Bool-cases, inl, inr,
}
use cheshire_fork.Smp.{
  Point, entry, booting, clearing, past, waking, watching, Harts, store, put_point, blt, end,
  next_word,
}

-- The hart has seen its interrupt and has taken it back.
unfoldable pub has_answered : Point → Bool
has_answered (watching reg1) = true
has_answered past = true
has_answered p = false

unfoldable pub is_clearing : Point → Bool
is_clearing clearing = true
is_clearing p = false

module _ (base harts : ℕ) where
  -- How many harts the boot hart, from its point, has called.
  unfoldable pub called : Point → ℕ
  called entry = 0
  called booting = 0
  called (waking reg1) = (reg1 - base) / 4
  called p = harts

  -- How many words a hart has seen to be zero.
  unfoldable pub seen : Point → ℕ
  seen (watching reg1) = (reg1 - base) / 4
  seen past = harts
  seen p = 0

  -- A loop is at a word of the CLINT, and only the boot hart boots.
  unfoldable pub IsPlaced : (hart : ℕ) → Point → Type 0
  IsPlaced i booting = i ≡ 0
  IsPlaced i (waking reg1) = (i ≡ 0) × (k : ℕ) × (k < harts) × (reg1 ≡ base + 4 * k)
  IsPlaced i (watching reg1) = (k : ℕ) × (k < harts) × (reg1 ≡ base + 4 * k)
  IsPlaced i p = Unit {0}

  pub record IsBarrier (s : Harts) : Type 0 where
    pub placed : (i : ℕ) → i < harts → IsPlaced i (s.points i)
    pub answered_zero :
        (i : ℕ) → i < harts → has_answered (s.points i) ≡ true → s.clint (base + 4 * i) ≡ 0
    pub called_one :
        (i : ℕ)
        → i < harts
        → i < called (s.points 0)
        → has_answered (s.points i) ≡ false
        → s.clint (base + 4 * i) ≡ 1
    pub uncalled_zero :
        (i : ℕ)
        → i < harts
        → called (s.points 0) ≤ i
        → (s.clint (base + 4 * i) ≡ 0)
          × (has_answered (s.points i) ≡ false)
          × (is_clearing (s.points i) ≡ false)
    pub seen_answered :
        (i j : ℕ) → i < harts → j < harts → j < seen (s.points i) → has_answered (s.points j) ≡ true

at_put_point :
    {A : Type 0} (f : Point → A) (h : ℕ) (p : Point) (g : ℕ → Point) (i : ℕ)
    → f (put_point h p g i) ≡ (if i == h then f p else f (g i))
at_put_point f h p g i = elim (Bool-cases (i == h)) [ inl e ↦ rw e refl | inr e ↦ rw e refl ]

-- From a call to the point at which all harts are called, a hart changes its point only.
module _ (base harts : ℕ) (some : 0 < harts) (space : base + 4 * harts < 2 ^ 63) where
  pub goes :
      (h : ℕ) (p : Point) (s : Harts)
      → IsBarrier base harts s
      → h < harts
      → IsPlaced base harts h p
      → has_answered p ≡ has_answered (s.points h)
      → (h ≡ 0 → called base harts p ≡ called base harts (s.points 0))
      → (is_clearing p ≡ true → h < called base harts (s.points 0))
      → ((j : ℕ) → j < harts → j < seen base harts p → has_answered (s.points j) ≡ true)
      → IsBarrier base harts (record s { points = put_point h p s.points })
  goes h p s b inside at same calls clears sees = record {
    placed = λ i below. elim (Bool-cases (i == h)) [
      | inl e ↦ let same_hart : i ≡ h = ground (arith, e) in rw (e, same_hart) at
      | inr e ↦ rw e (b.placed i below)
    ];
    answered_zero = λ i below a.
        ground (arith, at_put_point has_answered h p s.points i, a, same, b.answered_zero i below);
    called_one = λ i below call none. ground (
      arith,
      at_put_point has_answered h p s.points i,
      at_put_point (called base harts) h p s.points 0,
      call,
      none,
      same,
      calls,
      b.called_one i below,
    );
    uncalled_zero = λ i below uncalled. ground (
      arith,
      at_put_point has_answered h p s.points i,
      at_put_point (called base harts) h p s.points 0,
      at_put_point (is_clearing) h p s.points i,
      uncalled,
      same,
      calls,
      clears,
      b.uncalled_zero i below,
    );
    seen_answered = λ i j below_i below_j see. ground (
      arith,
      at_put_point has_answered h p s.points j,
      at_put_point (seen base harts) h p s.points i,
      see,
      same,
      sees j below_j,
      b.seen_answered i j below_i below_j,
    );
  }

  -- A hart takes its interrupt back.
  pub answers :
      (h : ℕ) (s : Harts)
      → IsBarrier base harts s
      → h < harts
      → s.points h ≡ clearing
      → IsBarrier base harts (record {
        clint = store (base + 4 * h) 0 s.clint;
        points = put_point h (watching base) s.points;
      })
  unfolding has_answered called seen IsPlaced is_clearing
  answers h s b inside e = record {
    placed = λ i below. elim (Bool-cases (i == h)) [
      | inl e ↦ rw e (0, some, omega arith)
      | inr e ↦ rw e (b.placed i below)
    ];
    answered_zero = λ i below a.
        ground (
          arith,
          at_put_point has_answered h (watching base) s.points i,
          a,
          b.answered_zero i below,
        );
    called_one = λ i below call none. ground (
      arith,
      at_put_point has_answered h (watching base) s.points i,
      at_put_point (called base harts) h (watching base) s.points 0,
      call,
      none,
      ap has_answered e,
      ap (called base harts) e,
      b.called_one i below,
    );
    uncalled_zero = λ i below uncalled. ground (
      arith,
      at_put_point has_answered h (watching base) s.points i,
      at_put_point (called base harts) h (watching base) s.points 0,
      at_put_point is_clearing h (watching base) s.points i,
      uncalled,
      ap has_answered e,
      ap is_clearing e,
      ap (called base harts) e,
      b.uncalled_zero i below,
    );
    seen_answered = λ i j below_i below_j see. ground (
      arith,
      at_put_point has_answered h (watching base) s.points j,
      at_put_point (seen base harts) h (watching base) s.points i,
      see,
      b.seen_answered i j below_i below_j,
    );
  }

  -- The boot hart calls the next hart.
  pub calls_next :
      (k : ℕ) (p : Point) (s : Harts)
      → IsBarrier base harts s
      → k < harts
      → s.points 0 ≡ waking (base + 4 * k)
      → IsPlaced base harts 0 p
      → called base harts p ≡ k + 1
      → seen base harts p ≡ 0
      → has_answered p ≡ false
      → is_clearing p ≡ false
      → IsBarrier base harts
          (record { clint = store (base + 4 * k) 1 s.clint; points = put_point 0 p s.points })
  unfolding has_answered called seen is_clearing
  calls_next k p s b inside e at call_p see_p none_p clear_p =
      let count : (base + 4 * k - base) / 4 ≡ k = omega arith in
      record {
        placed = λ i below. elim (Bool-cases (i == 0)) [
          | inl e ↦ let first : i ≡ 0 = ground (arith, e) in rw (e, first) at
          | inr e ↦ rw e (b.placed i below)
        ];
        answered_zero = λ i below a. ground (
          arith,
          at_put_point has_answered 0 p s.points i,
          a,
          none_p,
          count,
          ap (called base harts) e,
          b.uncalled_zero i below,
          b.answered_zero i below,
        );
        called_one = λ i below call none. ground (
          arith,
          at_put_point has_answered 0 p s.points i,
          at_put_point (called base harts) 0 p s.points 0,
          call,
          none,
          count,
          call_p,
          ap has_answered e,
          ap (called base harts) e,
          b.called_one i below,
        );
        uncalled_zero = λ i below uncalled. ground (
          arith,
          at_put_point has_answered 0 p s.points i,
          at_put_point (called base harts) 0 p s.points 0,
          at_put_point is_clearing 0 p s.points i,
          uncalled,
          none_p,
          clear_p,
          call_p,
          count,
          ap (called base harts) e,
          b.uncalled_zero i below,
        );
        seen_answered = λ i j below_i below_j see. ground (
          arith,
          at_put_point has_answered 0 p s.points j,
          at_put_point (seen base harts) 0 p s.points i,
          see,
          see_p,
          none_p,
          ap has_answered e,
          b.seen_answered i j below_i below_j,
        );
      }

  pub next_word_lem :
      (k : ℕ) (again : ℕ → Point) (out : Point)
      → k < harts
      → next_word base harts (base + 4 * k) again out
        ≡ (if ltb (k + 1) harts then again (base + 4 * (k + 1)) else out)
  unfolding next_word blt end
  next_word_lem k again out inside =
      let at : u64 (base + 4 * k + 4) ≡ base + 4 * (k + 1) = omega arith in
      let stop : u64 (base + u64 (harts <<< 2)) ≡ base + 4 * harts = omega arith in
      let before : blt (base + 4 * (k + 1)) (base + 4 * harts) ≡ ltb (k + 1) harts = ground arith in
      rw (at, stop, before) refl
