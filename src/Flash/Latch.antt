-- ===== src/Flash/Latch.antt =====
-- `spi_s25fs512s_single_flash` of sw/lib/hal/spi_s25fs512s.c on a flash with a write enable latch.
use Prim.Native.Nat.{bit_and}
use cheshire_fork.Base.{
  ℕ, zero, suc, ◌+◌, ◌<◌, ◌≡◌, ◌∙◌, ◌⊎◌, inl, inr, ap, refl, arith, Bool, true, false, List, [],
  ◌∷◌, ◌++◌, ltb, ◌==◌, if◌then◌else◌, u32, u64, ◌<<<◌,
}
use cheshire_fork.Machine.{Machine, check_assert, check_call}
use cheshire_fork.Machine.Returns
use cheshire_fork.Machine.Returns.{Returns, returns}
use cheshire_fork.SpiHost.{SpiHost, opcode, address, rx, transact}
use cheshire_fork.Flash.{Handle, poll_wip, erase, single_flash_page, flash_loop, single_flash}

-- The latch is set by WREN (0x06). An erase (0xDC) or a program (0x12) command is carried out only
-- while it is set, and resets it. `erased` are the addresses of the erases that were carried out.
-- The status register shows no error, and shows that the flash is busy at most `wait` times more.
pub record IsLatched {D : Type 0} (host : SpiHost D) (csid : ℕ) (latch : D → Bool)
    (erased : D → List ℕ) (wait : D → ℕ) (patience : ℕ) : Type 0 where
  pub patient : (d : D) → wait d < patience
  pub enables :
      (d : D)
      → (let r = host.transaction false csid (opcode 0x06 ∷ []) d in
          (r.code ≡ 0) × (latch r.after ≡ true) × (erased r.after ≡ erased d))
  pub erases :
      (a : ℕ) (d : D)
      → (let r = host.transaction false csid (opcode 0xDC ∷ address a ∷ []) d in
          (r.code ≡ 0)
          × (latch r.after ≡ false)
          × (erased r.after ≡ (if latch d then erased d ++ a ∷ [] else erased d)))
  pub programs :
      (a n : ℕ) (d : D)
      → (let r = host.transaction false csid (opcode 0x12 ∷ address a ∷ rx n ∷ []) d in
          (r.code ≡ 0) × (latch r.after ≡ false) × (erased r.after ≡ erased d))
  pub shows :
      (d : D)
      → (let r = host.transaction false csid (opcode 0x05 ∷ rx 1 ∷ []) d in
          (r.code ≡ 0)
          × (latch r.after ≡ latch d)
          × (erased r.after ≡ erased d)
          × ((status : ℕ) × (r.received ≡ status ∷ [])
              × (bit_and status 0b01100000 ≡ 0)
              × (((bit_and status 1 == 0) ≡ true)
                  ⊎ (((bit_and status 1 == 0) ≡ false) × (wait r.after < wait d)))))

module _ {D : Type 0} {host : SpiHost D} (h : Handle) {latch : D → Bool} {erased : D → List ℕ}
    {wait : D → ℕ} {patience : ℕ} (flash : IsLatched host h.csid latch erased wait patience) where
  -- The latch is as given, and so are the erases.
  abbrev Holds : Bool → List ℕ → Machine D → Type 0
  Holds on done m = (latch m.dev ≡ on) × (erased m.dev ≡ done)

  poll_wip_lem :
      (fuel status : ℕ) (on : Bool) (done : List ℕ) (m : Machine D)
      → wait m.dev < fuel
      → Holds on done m
      → Returns (λ _. Holds on done) (poll_wip host h fuel status m)
  unfolding poll_wip transact check_call
  poll_wip_lem zero status on done m enough holds = absurd (omega (arith, enough))
  poll_wip_lem (suc n) status on done m enough (l, e) =
      let (code, l1, e1, (s, got, no_error, look)) = flash.shows m.dev in
      elim look [
        | inl idle ↦ rw (code, got, idle, no_error) (returns (l1 ∙ l, e1 ∙ e))
        | inr (busy, fewer) ↦
            rw (code, got, busy)
              (poll_wip_lem n s on done _ (omega (arith, fewer, enough)) (l1 ∙ l, e1 ∙ e))
      ]

  erase_lem :
      (page i : ℕ) (on : Bool) (done : List ℕ) (m : Machine D)
      → Holds on done m
      → (let a = u32 (u64 (page <<< 9) + (i <<< 8)) in
          Returns
            (λ _. Holds false (if on then done ++ a ∷ [] else done))
            (erase host h patience page i m))
  unfolding erase transact check_call
  erase_lem page i on done m (l, e) =
      let a = u32 (u64 (page <<< 9) + (i <<< 8)) in
      let (code, l1, e1) = flash.erases a m.dev in
      rw code (
        poll_wip_lem patience 0 false (if on then done ++ a ∷ [] else done) _ (flash.patient _)
          (l1, e1 ∙ rw (l, e) refl))

  page_lem :
      (buf page : ℕ) (on : Bool) (done : List ℕ) (m : Machine D)
      → Holds on done m
      → Returns
          (λ _. Holds false (if on then done ++ u32 (u64 (page <<< 9) + 0) ∷ [] else done))
          (single_flash_page host h patience buf page m)
  unfolding single_flash_page transact check_call
  page_lem buf page on done m holds = Returns.bind (erase_lem page 0 on done m holds) λ _ m1 holds1.
      Returns.bind (erase_lem page 1 false _ m1 holds1) λ _ m2 (l2, e2).
        let (code, l3, e3) = flash.programs (u32 (page <<< 9)) 512 m2.dev in
        rw code (poll_wip_lem patience 0 false _ _ (flash.patient _) (l3, e3 ∙ e2))

  flash_loop_lem :
      (buf page left p : ℕ) (done : List ℕ) (m : Machine D)
      → Holds false done m
      → Returns (λ _. Holds false done) (flash_loop host h patience buf page left p m)
  unfolding flash_loop
  flash_loop_lem buf page zero p done m holds = returns holds
  flash_loop_lem buf page (suc left) p done m holds =
      Returns.bind (page_lem _ _ false done m holds)
        λ _ m1 holds1. flash_loop_lem buf page left (p + 1) done m1 holds1

  -- On a flash with a write enable latch that shows no errors, in any state, at an SPI frequency
  -- below 100 MHz and with fuel for its waits, the writing of one page or more returns 0, and only one
  -- erase has been carried out, that at the address of the first page.
  pub single_flash-one_erase :
      (buf page more : ℕ) (m : Machine D)
      → h.spi_freq < 100000000
      → Returns
          (λ _ m'. erased m'.dev ≡ erased m.dev ++ u32 (page <<< 9) ∷ [])
          (single_flash host h patience buf page (suc more) m)
  unfolding single_flash flash_loop transact check_call check_assert
  single_flash-one_erase buf page more m slow =
      let fast : ltb h.spi_freq 100000000 ≡ true = ground (arith, slow) in
      let (code, l, e) = flash.enables m.dev in
      let first : u32 (u64 (u64 (page + 0) <<< 9) + 0) ≡ u32 (page <<< 9) = omega arith in
      rw (fast, code)
        (Returns.bind (page_lem (buf + 0) (u64 (page + 0)) true (erased m.dev) _ (l, e))
          λ _ m1 holds1.
            Returns.mono (flash_loop_lem buf page more 1 _ m1 holds1)
              λ _ m2 (l2, e2). e2 ∙ ap (λ a. erased m.dev ++ a ∷ []) first)
