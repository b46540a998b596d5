-- ===== src/Flash/Writing.antt =====
-- What the write path of sw/lib/hal/spi_s25fs512s.c sends to the flash.
use Prim.Native.Nat.{bit_and}
use cheshire_fork.Base.{
  ℕ, zero, suc, ◌+◌, ◌≡◌, refl, Bool, true, false, List, ◌==◌, u32, get_or, if◌then◌else◌,
  Bool-cases, inl, inr,
}
use cheshire_fork.Machine.{Machine, Run, done, fail, spin, Cmd, and_then, check_call, check_assert}
use cheshire_fork.SpiHost.{SpiHost, Segment, transact}
use cheshire_fork.Flash.{Handle, poll_wip, erase, single_flash_page, flash_loop, single_flash}

-- The part of a run that does not depend on memory: how it ends, its value, and the devices.
pub data Alike {D A : Type 0} : Run D A → Run D A → Type 0 where
  returned : {a : A} {m m' : Machine D} → m.dev ≡ m'.dev → Alike (done a m) (done a m')
  failed : {c : ℕ} {m m' : Machine D} → m.dev ≡ m'.dev → Alike (fail c m) (fail c m')
  spun : Alike spin spin

and_then_lem :
    {D A B : Type 0} {r r' : Run D A} {k k' : A → Cmd D B}
    → Alike r r'
    → ((a : A) (m m' : Machine D) → m.dev ≡ m'.dev → Alike (k a m) (k' a m'))
    → Alike (and_then r k) (and_then r' k')
and_then_lem (returned e) next = next _ _ _ e
and_then_lem (failed e) next = failed e
and_then_lem spun next = spun

-- A command whose end, value and effect on the devices do not depend on memory.
abbrev pub IsBlind : {D A : Type 0} → Cmd D A → Type 0
IsBlind {D = D} c = (m m' : Machine D) → m.dev ≡ m'.dev → Alike (c m) (c m')

check_call_lem : {D : Type 0} (c : ℕ) → IsBlind {D = D} (check_call c)
unfolding check_call
check_call_lem c m m' e = elim (Bool-cases (u32 c == 0)) [
  | inl ok ↦ rw ok (returned e)
  | inr bad ↦ rw bad (failed e)
]

if_lem :
    {D A : Type 0} {c c' : Cmd D A} (b : Bool)
    → IsBlind c
    → IsBlind c'
    → IsBlind (if b then c else c')
if_lem true p q = p
if_lem false p q = q

check_assert_lem : {D : Type 0} (c : ℕ) (b : Bool) → IsBlind {D = D} (check_assert c b)
unfolding check_assert
check_assert_lem c true m m' e = returned e
check_assert_lem c false m m' e = failed e

module _ {D : Type 0} (host : SpiHost D) (h : Handle) where
  transact_lem :
      (csaat : Bool) (csid : ℕ) (segs : List Segment) → IsBlind (transact host csaat csid segs)
  unfolding transact
  transact_lem csaat csid segs m m' e =
      rw e (and_then_lem (check_call_lem _ _ _ refl) (λ _ _ _. returned))

  poll_wip_lem : (fuel status : ℕ) → IsBlind (poll_wip host h fuel status)
  unfolding poll_wip
  poll_wip_lem zero status m m' e = spun
  poll_wip_lem (suc n) status m m' e = and_then_lem (transact_lem false h.csid _ m m' e) λ got.
      if_lem (bit_and (get_or got 0 status) 1 == 0) (check_call_lem _)
        (poll_wip_lem n (get_or got 0 status))

  erase_lem : (fuel page i : ℕ) → IsBlind (erase host h fuel page i)
  unfolding erase
  erase_lem fuel page i m m' e =
      and_then_lem (transact_lem false h.csid _ m m' e) λ _. poll_wip_lem fuel 0

  single_flash_page_lem :
      (fuel buf buf' page : ℕ) (m m' : Machine D)
      → m.dev ≡ m'.dev
      → Alike
          (single_flash_page host h fuel buf page m)
          (single_flash_page host h fuel buf' page m')
  unfolding single_flash_page
  single_flash_page_lem fuel buf buf' page m m' e =
      and_then_lem (erase_lem fuel page 0 m m' e) λ _ m1 m1' e1.
        and_then_lem (erase_lem fuel page 1 m1 m1' e1) λ _ m2 m2' e2.
          and_then_lem (transact_lem false h.csid _ m2 m2' e2)
            λ _ m3 m3' e3. poll_wip_lem fuel 0 _ _ e3

  flash_loop_lem :
      (fuel buf buf' page left p : ℕ) (m m' : Machine D)
      → m.dev ≡ m'.dev
      → Alike
          (flash_loop host h fuel buf page left p m)
          (flash_loop host h fuel buf' page left p m')
  unfolding flash_loop
  flash_loop_lem fuel buf buf' page zero p m m' e = returned e
  flash_loop_lem fuel buf buf' page (suc left) p m m' e =
      and_then_lem (single_flash_page_lem fuel _ _ _ m m' e)
        λ _ m1 m1'. flash_loop_lem fuel buf buf' page left (p + 1) m1 m1'

  -- Flashing does not depend on the data: from any two buffers in any two memories it ends in the
  -- same way, and the devices, the flash among them, end in the same state.
  pub single_flash-IsBlind :
      (fuel buf buf' page num_pages : ℕ) (m m' : Machine D)
      → m.dev ≡ m'.dev
      → Alike
          (single_flash host h fuel buf page num_pages m)
          (single_flash host h fuel buf' page num_pages m')
  unfolding single_flash
  single_flash-IsBlind fuel buf buf' page num_pages m m' e =
      and_then_lem (check_assert_lem _ _ m m' e) λ _ m1 m1' e1.
        and_then_lem (transact_lem false h.csid _ m1 m1' e1)
          λ _. flash_loop_lem fuel buf buf' page num_pages 0
