-- ===== src/Tests/Latch.antt =====
-- Pages written to a flash with a write enable latch that is busy for two looks after each command.
use Prim.Native.Nat.{bit_and}
use cheshire_fork.Base.{
  ℕ, zero, suc, ◌≡◌, ◌<◌, ◌⊎◌, inl, inr, refl, arith, Bool, true, false, List, [], ◌∷◌, ◌++◌, ◌==◌,
  if◌then◌else◌,
}
use cheshire_fork.Machine.{Machine}
use cheshire_fork.Machine.Returns.{Returns}
use cheshire_fork.SpiHost.{SpiHost, Segment, Reply, opcode, address, rx}
use cheshire_fork.Flash.{Handle, single_flash}
use cheshire_fork.Flash.Latch.{IsLatched, single_flash-one_erase}
use cheshire_fork.Tests.Bench.{absent_spi}

record Latched : Type 0 where
  latch : Bool
  erased : List ℕ
  busy : ℕ

abbrev look : ℕ → ℕ × ℕ
look zero = (0, 0)
look (suc n) = (1, n)

-- Never busy for longer than two looks.
abbrev cut : ℕ → ℕ
cut zero = 0
cut (suc zero) = 1
cut (suc (suc n)) = 2

abbrev reply : Latched → List ℕ → Reply Latched
reply d bytes = record { code = 0; received = bytes; after = d }

abbrev answer : Latched → List Segment → Reply Latched
answer d (opcode op ∷ []) = reply (record d { latch = true }) []
answer d (opcode op ∷ address a ∷ []) =
    reply
      (record {
        latch = false;
        erased = if d.latch then d.erased ++ a ∷ [] else d.erased;
        busy = 2;
      })
      []
answer d (opcode op ∷ rx n ∷ []) =
    reply (record d { busy = (look (cut d.busy)).1 }) ((look (cut d.busy)).0 ∷ [])
answer d segs = reply (record d { latch = false; busy = 2 }) []

abbrev host : SpiHost Latched
host = record absent_spi { transaction = λ csaat csid segs d. answer d segs }

abbrev handle : Handle
handle = record { spi_freq = 40000000; csid = 1 }

looks :
    (n : ℕ)
    → (status : ℕ) × ((look (cut n)).0 ∷ [] ≡ status ∷ [])
      × (bit_and status 0b01100000 ≡ 0)
      × (((bit_and status 1 == 0) ≡ true)
          ⊎ (((bit_and status 1 == 0) ≡ false) × (cut (look (cut n)).1 < cut n)))
looks zero = (0, refl, refl, inl refl)
looks (suc zero) = (1, refl, refl, inr (refl, omega arith))
looks (suc (suc n)) = (1, refl, refl, inr (refl, omega arith))

cut-lt : (n : ℕ) → cut n < 3
cut-lt zero = omega arith
cut-lt (suc zero) = omega arith
cut-lt (suc (suc n)) = omega arith

host-IsLatched : IsLatched host 1 (λ d. d.latch) (λ d. d.erased) (λ d. cut d.busy) 3
host-IsLatched = record {
  patient = λ d. cut-lt d.busy;
  enables = λ d. (refl, refl, refl);
  erases = λ a d. (refl, refl, refl);
  programs = λ a n d. (refl, refl, refl);
  shows = λ d. (refl, refl, refl, looks d.busy);
}

abbrev idle : Machine Latched
idle = record { mem = λ a. a; dev = record { latch = false; erased = []; busy = 0 } }

single_flash-one_erase_example :
    Returns (λ _ m'. m'.dev.erased ≡ 0x6000 ∷ []) (single_flash host handle 3 0x1000 48 4 idle)
single_flash-one_erase_example =
    single_flash-one_erase handle host-IsLatched 0x1000 48 3 idle (omega arith)
