-- ===== src/Elf/Segments.antt =====
-- The loadable segments of a file, described apart from the loader's state.

use cheshire_fork.Base.{
  ℕ, zero, suc, ◌+◌, ◌%◌, ◌^◌, ◌≡◌, sym, refl, arith, Bool, true, not, ◌&&◌, Option, none, some,
  List, [], ◌∷◌, ◌++◌, map, leb, ◌==◌, if◌then◌else◌, tabulate, u64, Bool-cases, inl, inr,
}
use cheshire_fork.Machine.Bytes.{Mem}
use cheshire_fork.Elf.{find, insert, maybe, ph}
use cheshire_fork.Elf.Layout.{Class, elf32, elf64, Ehdr, Phdr}

-- The first of two optional values that is there.
abbrev pub first_of {ℓ} : {A : Type ℓ} → Option A → Option A → Option A
first_of none y = y
first_of (some x) y = some x

pub first_of_assoc {ℓ} :
    {A : Type ℓ} (x y z : Option A) → first_of (first_of x y) z ≡ first_of x (first_of y z)
first_of_assoc none y z = refl
first_of_assoc (some x) y z = refl

pub first_of-none {ℓ} : {A : Type ℓ} (x : Option A) → first_of x none ≡ x
first_of-none none = refl
first_of-none (some x) = refl

find-append : (a : ℕ) (m n : List (ℕ × List ℕ)) → find a (m ++ n) ≡ first_of (find a m) (find a n)
unfolding find
find-append a [] n = refl
find-append a ((b, x) ∷ m) n = elim (Bool-cases (a == b)) [
  | inl same ↦ rw same refl
  | inr other ↦ rw other (find-append a m n)
]

-- A map's `insert` never replaces.
pub find-insert :
    (a b : ℕ) (x : List ℕ) (m : List (ℕ × List ℕ))
    → find a (insert b x m) ≡ first_of (find a m) (if a == b then some x else none)
unfolding insert find
find-insert a b x m = go (find b m) refl
  where
    go :
        (o : Option (List ℕ))
        → find b m ≡ o
        → find a (maybe (m ++ (b, x) ∷ []) (λ old. m) (find b m))
          ≡ first_of (find a m) (if a == b then some x else none)
    go none e = rw e (find-append a m ((b, x) ∷ []))
    go (some old) e = elim (Bool-cases (a == b)) [
      | inl same ↦
          let equal : a ≡ b = ground arith in
          let there : find a m ≡ some old = rw equal e in rw (e, there) refl
      | inr other ↦ rw (e, other) (sym (first_of-none (find a m)))
    ]

-- Offsets and sizes have 32 or 64 bits.
unfoldable pub width : Class → ℕ
width elf32 = 2 ^ 32
width elf64 = 2 ^ 64

-- A program header whose bytes are loaded.
unfoldable pub loadable : Phdr → Bool
loadable p = p.p_type == 1 && not (p.p_memsz == 0) && not (p.p_filesz == 0)

module _ (c : Class) (f : Mem) (size : ℕ) where
  -- The bytes of a segment in the file.
  abbrev pub content : Phdr → List ℕ
  content p = tabulate (λ i. f (u64 (p.p_offset + i))) 0 p.p_filesz

  -- A segment whose end, in the width of the class, is within the file, and which has `2 ^ 31` bytes
  -- at most.
  abbrev pub in_file : Phdr → Bool
  in_file p = leb ((p.p_offset + p.p_filesz) % width c) size && leb p.p_filesz (2 ^ 31)

  -- The loadable entries of a table of `left` entries from `i` on.
  unfoldable pub segments : Ehdr → (left i : ℕ) → List Phdr
  unfolding loadable
  segments eh zero i = []
  segments eh (suc left) i =
      let p = ph c f size eh i in
      let rest = segments eh left (i + 1) in if loadable p then p ∷ rest else rest

  abbrev pub all_in_file : List Phdr → Bool
  all_in_file [] = true
  all_in_file (p ∷ ps) = in_file p && all_in_file ps

  abbrev pub ranges : List Phdr → List (ℕ × ℕ)
  ranges = map (λ p. (p.p_paddr, p.p_memsz))

  -- What is loaded for an address: the first segment with it.
  unfoldable pub content_at : ℕ → List Phdr → Option (List ℕ)
  content_at a [] = none
  content_at a (p ∷ ps) = if a == p.p_paddr then some (content p) else content_at a ps
