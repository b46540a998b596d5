-- ===== src/Elf/Reading.antt =====
-- What the simulation reads, through `get_section` and `read_section` of
-- target/sim/src/elfloader.cpp, of a file that is loaded.
use cheshire_fork.Base.{
  ℕ, zero, suc, ◌+◌, ◌≡◌, arith, some, List, [], ◌∷◌, leb, if◌then◌else◌, length,
}
use cheshire_fork.Machine.Bytes.{Mem, store_bytes}
use cheshire_fork.Elf.{Elf, find, get_section, minus_one, copy_loop, read_section}
use cheshire_fork.Elf.Layout.{Class, Phdr}
use cheshire_fork.Elf.Segments.{content}

abbrev pub take {ℓ} : {A : Type ℓ} → ℕ → List A → List A
take zero xs = []
take (suc n) [] = []
take (suc n) (x ∷ xs) = x ∷ take n xs

-- The copy of `bytes` to a buffer of `len` places: all of them, or the first `len` and an error.
abbrev pub copied : List ℕ → (len buf : ℕ) → Mem → ℕ × Mem
copied bytes len buf g =
    if leb (length bytes) len
    then (0, store_bytes buf bytes g)
    else (minus_one, store_bytes buf (take len bytes) g)

copy_loop_lem :
    (bytes : List ℕ) (len buf : ℕ) (g : Mem) → copy_loop bytes len buf g ≡ copied bytes len buf g
unfolding copy_loop store_bytes
copy_loop_lem [] len buf g = ground arith
copy_loop_lem (x ∷ xs) zero buf g = ground arith
copy_loop_lem (x ∷ xs) (suc len) buf g =
    ground (arith, copy_loop_lem xs len (buf + 1) (store_bytes buf (x ∷ []) g))

pub read_section-find :
    (s : Elf) (address buf len : ℕ) (bytes : List ℕ) (g : Mem)
    → find address s.mems ≡ some bytes
    → read_section s address buf len g ≡ copied bytes len buf g
unfolding read_section
read_section-find s address buf len bytes g e = rw e (copy_loop_lem bytes len buf g)

module _ (c : Class) (f : Mem) (size : ℕ) where
  -- What a loader in state `s'` gives for the segment `p`, the `i`-th of those loaded: its address
  -- and its size in memory, and a copy of its bytes in the file.
  abbrev pub Gives : Elf → (i : ℕ) → Phdr → Type 0
  Gives s' i p =
      (get_section (record s' { section_index = i })
        ≡ (some (p.p_paddr, p.p_memsz), record s' { section_index = i + 1 }))
      × ((buf len : ℕ) (g : Mem)
          → read_section s' p.p_paddr buf len g ≡ (
              if leb p.p_filesz len
              then (0, store_bytes buf (content c f size p) g)
              else (minus_one, store_bytes buf (take len (content c f size p)) g)))
