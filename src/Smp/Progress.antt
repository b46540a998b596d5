-- ===== src/Smp/Progress.antt =====
-- The barrier does not lock up: all harts can get past it from every state that they can reach.

use cheshire_fork.Base.{
  ℕ, zero, suc, ◌+◌, ◌-◌, ◌*◌, ◌/◌, ◌^◌, ◌<◌, ◌≡◌, refl, arith, Bool, true, false, not, List, [],
  ◌∷◌, ltb, ◌==◌, Bool-cases, inl, inr, ◌⊎◌,
}
use cheshire_fork.Smp.{
  Point, entry, booting, waiting, clearing, past, waking, watching, Harts, act, hart_step, run,
}
use cheshire_fork.Smp.Barrier.{has_answered, called, IsPlaced, IsBarrier, next_word_lem}
use cheshire_fork.Smp.Steps.{IsClint, IsStart, AreHarts, act_lem, run_lem, start_lem}

-- A search below a bound.
search :
    (f : ℕ → Bool) (n : ℕ) → ((i : ℕ) → i < n → f i ≡ true) ⊎ ((i : ℕ) × (i < n) × (f i ≡ false))
search f zero = inl λ i below. absurd (omega (arith, below))
search f (suc n) = elim (search f n) [
  | inr (i, below, e) ↦ inr (i, omega (arith, below), e)
  | inl all ↦ elim (Bool-cases (f n)) [
    | inl e ↦ inl λ i below. ground (arith, all i, e, below)
    | inr e ↦ inr (n, omega arith, e)
  ]
]

-- The sum of the ranks of the first `n` harts.
total : (rank : Point → ℕ) → ℕ → (ℕ → Point) → ℕ
total rank zero f = 0
total rank (suc n) f = rank (f n) + total rank n f

total-same :
    (rank : Point → ℕ) (n : ℕ) (f g : ℕ → Point)
    → ((i : ℕ) → i < n → g i ≡ f i)
    → total rank n g ≡ total rank n f
unfolding total
total-same rank zero f g same = refl
total-same rank (suc n) f g same =
    let here = same n (omega arith) in
    let below = total-same rank n f g (λ i h. same i (omega (arith, h))) in rw (here, below) refl

total-less :
    (rank : Point → ℕ) (n h : ℕ) (f g : ℕ → Point)
    → h < n
    → ((i : ℕ) → i < n → (i == h) ≡ false → g i ≡ f i)
    → rank (g h) < rank (f h)
    → total rank n g < total rank n f
unfolding total
total-less rank zero h f g inside same less = absurd (omega (arith, inside))
total-less rank (suc n) h f g inside same less = elim (Bool-cases (n == h)) [
  | inl last ↦
      let e : n ≡ h = ground (arith, last) in
      let below =
        total-same rank n f g (λ i b. same i (omega (arith, b)) (ground (arith, b, last))) in
      rw (below, e) (omega (arith, less))
  | inr other ↦
      let here = same n (omega arith) other in
      let below =
        total-less rank n h f g (ground (arith, inside, other)) (λ i b. same i (omega (arith, b)))
          less in
      rw here (omega (arith, below))
]

is_past : Point → Bool
is_past past = true
is_past p = false

self : (h : ℕ) → (h == h) ≡ true
self h = ground arith

past_lem : (p : Point) → is_past p ≡ true → p ≡ past
unfolding is_past
past_lem past e = refl
past_lem entry e = cc
past_lem booting e = cc
past_lem waiting e = cc
past_lem clearing e = cc
past_lem (waking r) e = cc
past_lem (watching r) e = cc

module _ (base harts : ℕ) where
  -- How far a hart still has to go.
  rank : Point → ℕ
  rank entry = 2 * harts + 4
  rank booting = 2 * harts + 3
  rank (waking reg1) = 2 * harts + 2 - (reg1 - base) / 4
  rank waiting = harts + 2
  rank clearing = harts + 1
  rank (watching reg1) = harts - (reg1 - base) / 4
  rank past = 0

  -- Whether a hart goes on at once.
  enabled : (ℕ → ℕ) → (hart : ℕ) → Point → Bool
  enabled f hart waiting = not (f (base + 4 * hart) == 0)
  enabled f hart (watching reg1) = f reg1 == 0
  enabled f hart past = false
  enabled f hart p = true

  calling_lem :
      (f : ℕ → ℕ) (h : ℕ) (p : Point)
      → (called base harts p == harts) ≡ false
      → enabled f h p ≡ true
  unfolding called enabled
  calling_lem f h entry e = refl
  calling_lem f h booting e = refl
  calling_lem f h (waking r) e = refl
  calling_lem f h clearing e = refl
  calling_lem f h waiting e = absurd (ground (arith, e))
  calling_lem f h (watching r) e = absurd (ground (arith, e))
  calling_lem f h past e = absurd (ground (arith, e))

  called_lem :
      (f : ℕ → ℕ) (h : ℕ) (p : Point)
      → has_answered p ≡ false
      → f (base + 4 * h) ≡ 1
      → enabled f h p ≡ true
  unfolding has_answered enabled
  called_lem f h entry e one = refl
  called_lem f h booting e one = refl
  called_lem f h (waking r) e one = refl
  called_lem f h clearing e one = refl
  called_lem f h waiting e one = ground (arith, one)
  called_lem f h (watching r) e one = cc
  called_lem f h past e one = cc

  watching_lem :
      (f : ℕ → ℕ) (h : ℕ) (p : Point)
      → IsPlaced base harts h p
      → is_past p ≡ false
      → has_answered p ≡ true
      → ((k : ℕ) → k < harts → f (base + 4 * k) ≡ 0)
      → enabled f h p ≡ true
  unfolding has_answered enabled is_past IsPlaced
  watching_lem f h entry at here e zeros = cc
  watching_lem f h booting at here e zeros = cc
  watching_lem f h (waking r) at here e zeros = cc
  watching_lem f h clearing at here e zeros = cc
  watching_lem f h waiting at here e zeros = cc
  watching_lem f h (watching r) (k, inside, at) here e zeros = rw (at, zeros k inside) refl
  watching_lem f h past at here e zeros = cc

module _ {base harts : ℕ} {mip : (ℕ → ℕ) → ℕ → ℕ} (c : IsClint base mip) (some : 0 < harts)
    (space : base + 4 * harts < 2 ^ 63) where
  others_lem :
      (h : ℕ) (p : Point) (s : Harts) (i : ℕ)
      → (i == h) ≡ false
      → (act base harts 0 mip h p s).points i ≡ s.points i
  unfolding act
  others_lem h entry s i e = rw e refl
  others_lem h booting s i e = rw e refl
  others_lem h (waking r) s i e = rw e refl
  others_lem h waiting s i e = rw e refl
  others_lem h clearing s i e = rw e refl
  others_lem h (watching r) s i e = elim (Bool-cases (s.clint r == 0)) [
    | inl none ↦ rw (none, e) refl
    | inr one ↦ rw one refl
  ]
  others_lem h past s i e = refl

  goes_on :
      (h : ℕ) (p : Point) (s : Harts)
      → IsPlaced base harts h p
      → enabled base harts s.clint h p ≡ true
      → s.points h ≡ p
      → rank base harts ((act base harts 0 mip h p s).points h) < rank base harts p
  unfolding act enabled rank IsPlaced
  goes_on h entry s at on e = rw (self h) (elim (Bool-cases (0 == h)) [
    | inl first ↦ rw first (omega arith)
    | inr other ↦ rw other (omega arith)
  ])
  goes_on h booting s at on e = rw (self h) (omega arith)
  goes_on h (waking r) s (h0, k, inside, at) on e =
      rw (self h, at, next_word_lem base harts some space k waking waiting inside)
        (elim (Bool-cases (ltb (k + 1) harts)) [
          | inl more ↦ rw more (omega (arith, inside))
          | inr last ↦ rw last (omega (arith, inside))
        ])
  goes_on h waiting s at on e =
      let pending : (s.clint (base + 4 * h) == 0) ≡ false = ground (arith, on) in
      rw (self h, c.pending s.clint h, pending) (omega arith)
  goes_on h clearing s at on e = rw (self h) (omega arith)
  goes_on h (watching r) s (k, inside, at) on e =
      rw (on, self h, at, next_word_lem base harts some space k watching past inside)
        (elim (Bool-cases (ltb (k + 1) harts)) [
          | inl more ↦ rw more (omega (arith, inside))
          | inr last ↦ rw last (omega (arith, inside))
        ])
  goes_on h past s at on e = cc

  -- In a state that holds the invariant some hart can go on, until all are past.
  some_enabled :
      (s : Harts)
      → IsBarrier base harts s
      → ((j : ℕ) → j < harts → is_past (s.points j) ≡ true)
        ⊎ ((h : ℕ) × (h < harts) × (enabled base harts s.clint h (s.points h) ≡ true))
  some_enabled s b = elim (search (λ j. is_past (s.points j)) harts) [
    | inl all ↦ inl all
    | inr (i, inside, here) ↦ elim (Bool-cases (called base harts (s.points 0) == harts)) [
      | inr calling ↦ inr (0, some, calling_lem base harts s.clint 0 (s.points 0) calling)
      | inl done ↦ elim (search (λ j. has_answered (s.points j)) harts) [
        | inl all ↦ inr (
          i,
          inside,
          watching_lem base harts s.clint i (s.points i) (b.placed i inside) here (all i inside)
              (λ k below. b.answered_zero k below (all k below)),
        )
        | inr (j, inside_j, not_yet) ↦ inr (
          j,
          inside_j,
          called_lem base harts s.clint j (s.points j) not_yet
              (b.called_one j inside_j (ground (arith, done)) not_yet),
        )
      ]
    ]
  ]

  all_past_lem :
      (fuel : ℕ) (s : Harts)
      → IsBarrier base harts s
      → total (rank base harts) harts s.points < fuel
      → (more : List ℕ) × AreHarts harts more
        × ((j : ℕ) → j < harts → (run base harts 0 mip more s).points j ≡ past)
  unfolding run hart_step
  all_past_lem zero s b fuel = absurd (omega (arith, fuel))
  all_past_lem (suc fuel) s b enough = elim (some_enabled s b) [
    | inl all ↦ ([], tt, λ j below. past_lem (s.points j) (all j below))
    | inr (h, inside, on) ↦
        let s' = act base harts 0 mip h (s.points h) s in
        let less =
          total-less (rank base harts) harts h s.points s'.points inside
            (λ i below other. others_lem h (s.points h) s i other)
            (goes_on h (s.points h) s (b.placed h inside) on refl) in
        let (more, ok, done) =
          all_past_lem fuel s' (act_lem c some space h (s.points h) s b inside refl)
            (omega (arith, less, enough)) in
        (h ∷ more, (inside, ok), done)
  ]

  -- The barrier does not lock up: however the harts have interleaved since reset, they can still
  -- take steps by which all of them get past the barrier.
  pub run-all_past :
      (schedule : List ℕ) (s : Harts)
      → IsStart base harts s
      → AreHarts harts schedule
      → (more : List ℕ) × AreHarts harts more
        × ((j : ℕ)
            → j < harts
            → (run base harts 0 mip more (run base harts 0 mip schedule s)).points j ≡ past)
  run-all_past schedule s start ok =
      let s' = run base harts 0 mip schedule s in
      all_past_lem (suc (total (rank base harts) harts s'.points)) s'
        (run_lem c some space schedule s ok (start_lem c some space s start)) (omega arith)
