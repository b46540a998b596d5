-- ===== src/Machine/Returns.antt =====
-- Total correctness of a run: it returns normally, and its value and machine satisfy `P`.
use mathlib.Core.Path.{subst}
use cheshire_fork.Base.{ℕ, ◌≡◌, ◌==◌, Bool, false, u32, arith, Bool-cases, inl, inr}
use cheshire_fork.Machine.{
  Machine, Run, done, fail, halt, spin, Cmd, and_then, return_if, ◌>>◌, check_call, pure,
}

pub data Returns {D A : Type 0} (P : A → Machine D → Type 0) : Run D A → Type 0 where
  returns : {a : A} {m : Machine D} → P a m → Returns P (done a m)

module _ {D A : Type 0} {P : A → Machine D → Type 0} where
  pub bind :
      {B : Type 0} {Q : B → Machine D → Type 0} {r : Run D A} {k : A → Cmd D B}
      → Returns P r
      → ((a : A) (m : Machine D) → P a m → Returns Q (k a m))
      → Returns Q (and_then r k)
  bind (returns p) next = next _ _ p

  pub mono :
      {Q : A → Machine D → Type 0} {r : Run D A}
      → Returns P r
      → ((a : A) (m : Machine D) → P a m → Q a m)
      → Returns Q r
  mono (returns p) weaken = returns (weaken _ _ p)

-- Behind a run that returns, only its value and its machine count.
pub into :
    {D A B : Type 0} {P : A → Machine D → Type 0} {r : Run D A} {k : A → Cmd D B}
    (R : Run D B → Type 0)
    → Returns P r
    → ((a : A) (m : Machine D) → P a m → R (k a m))
    → R (and_then r k)
into R (returns p) next = next _ _ p

pub assoc :
    {D A B C : Type 0} {Q : C → Machine D → Type 0} (r : Run D A) (k : A → Cmd D B)
    (j : B → Cmd D C)
    → Returns Q (and_then (and_then r k) j)
    → Returns Q (and_then r λ a m. and_then (k a m) j)
assoc (done a m) k j h = h
assoc (fail c m) k j h = h
assoc (halt m) k j h = h
assoc spin k j h = h

pub passes :
    {D A : Type 0} {Q : A → Machine D → Type 0} (b : Bool) (code : ℕ) (k : Cmd D A) (m : Machine D)
    → b ≡ false
    → Returns Q (k m)
    → Returns Q ((return_if b code >> k) m)
unfolding return_if
passes b code k m e r = rw e r

pub of_done :
    {D A : Type 0} {Q : A → Machine D → Type 0} {a : A} {m : Machine D}
    → Returns Q (done a m)
    → Q a m
of_done (returns q) = q

-- The value that a C function with result `int` returns: 0 for `done`, the code for `fail`.
pub data Exits {D : Type 0} (P : ℕ → Machine D → Type 0) : Run D (Unit {0}) → Type 0 where
  exits_zero : {m : Machine D} → P 0 m → Exits P (done tt m)
  exits_with : {c : ℕ} {m : Machine D} → P c m → Exits P (fail c m)

pub Exits-bind :
    {D A : Type 0} {P : A → Machine D → Type 0} {Q : ℕ → Machine D → Type 0} {r : Run D A}
    {k : A → Cmd D (Unit {0})}
    → Returns P r
    → ((a : A) (m : Machine D) → P a m → Exits Q (k a m))
    → Exits Q (and_then r k)
Exits-bind (returns p) next = next _ _ p

pub Exits-check_call :
    {D : Type 0} {Q : ℕ → Machine D → Type 0} (c : ℕ) (m : Machine D)
    → Q (u32 c) m
    → Exits Q (check_call c m)
unfolding check_call
Exits-check_call {Q = Q} c m q = elim (Bool-cases (u32 c == 0)) [
  | inl e ↦
      let none : u32 c ≡ 0 = ground (arith, e) in rw e (exits_zero (subst (λ k. Q k m) none q))
  | inr e ↦ rw e (exits_with q)
]

-- `when` runs nothing behind its command.
pub when_lem :
    {D : Type 0} {P : Unit {0} → Machine D → Type 0} {r : Run D (Unit {0})}
    → Returns P r
    → Returns P (and_then r λ _. pure tt)
when_lem (returns p) = returns p

-- A run that stops for ever with the machine in a state of `P`.
pub data Halts {D A : Type 0} (P : Machine D → Type 0) : Run D A → Type 0 where
  halts : {m : Machine D} → P m → Halts P (halt m)

-- A run that returns the error code `c`.
pub data Fails {D A : Type 0} (c : ℕ) (P : Machine D → Type 0) : Run D A → Type 0 where
  fails : {m : Machine D} → P m → Fails c P (fail c m)

-- An error is passed on.
pub Fails-first :
    {D A B : Type 0} {c : ℕ} {P : Machine D → Type 0} {r : Run D A} (k : A → Cmd D B)
    → Fails c P r
    → Fails c P (and_then r k)
Fails-first k (fails p) = fails p

pub Fails-bind :
    {D A B : Type 0} {c : ℕ} {P : A → Machine D → Type 0} {Q : Machine D → Type 0} {r : Run D A}
    {k : A → Cmd D B}
    → Returns P r
    → ((a : A) (m : Machine D) → P a m → Fails c Q (k a m))
    → Fails c Q (and_then r k)
Fails-bind {c = c} {Q = Q} ret next = into (Fails c Q) ret next

pub Fails-mono :
    {D A : Type 0} {c : ℕ} {P Q : Machine D → Type 0} {r : Run D A}
    → Fails c P r
    → ((m : Machine D) → P m → Q m)
    → Fails c Q r
Fails-mono (fails p) weaken = fails (weaken _ p)
