-- ===== src/Elf/Closing.antt =====
-- `read_elf` of target/sim/src/elfloader.cpp: what it closes on each way out.

use cheshire_fork.Base.{
  ℕ, ◌+◌, ◌-◌, ◌≡◌, ◌∙◌, refl, arith, Bool, true, false, not, ◌&&◌, ◌||◌, Option, none, some, List,
  [], ◌∷◌, ◌++◌, ltb, if◌then◌else◌, ◌==◌, inl, inr, Bool-cases,
}
use cheshire_fork.Machine.Bytes.{Mem}
use cheshire_fork.Elf.{
  Elf, Outcome, minus_one, find, load_elf, short_phdrs, maybe, Os, Handles, exit_fd, exit_mmap,
  is_elf, read_mapped, read_elf,
}
use cheshire_fork.Elf.Layout.{Class, elf32, elf64, Phdr, ehdr, ehdr64_size}
use cheshire_fork.Elf.Segments.{segments, content, content_at, ranges, first_of}
use cheshire_fork.Elf.Loading.{IsLoaded, Ends, is_short, all_there, load_elf-segments}

-- Every section has bytes.
abbrev pub AreBacked : List (ℕ × List ℕ) → List (ℕ × ℕ) → Type 0
AreBacked m [] = Unit {0}
AreBacked m ((a, n) ∷ rest) = ((bytes : List ℕ) × (find a m ≡ some bytes)) × AreBacked m rest

abbrev pub IsBacked : Elf → Type 0
IsBacked s = AreBacked s.mems s.sections

AreBacked-append :
    (m : List (ℕ × List ℕ)) (xs ys : List (ℕ × ℕ))
    → AreBacked m xs
    → AreBacked m ys
    → AreBacked m (xs ++ ys)
AreBacked-append m [] ys hx hy = hy
AreBacked-append m ((a, n) ∷ xs) ys (here, hx) hy = (here, AreBacked-append m xs ys hx hy)

AreBacked-first :
    (m m' : List (ℕ × List ℕ)) (more : ℕ → Option (List ℕ)) (xs : List (ℕ × ℕ))
    → ((a : ℕ) → find a m' ≡ first_of (find a m) (more a))
    → AreBacked m xs
    → AreBacked m' xs
AreBacked-first m m' more [] kept h = tt
AreBacked-first m m' more ((a, n) ∷ xs) kept ((bytes, e), h) =
    ((bytes, kept a ∙ rw e refl), AreBacked-first m m' more xs kept h)

first_of-some : (x : Option (List ℕ)) (y : List ℕ) → (z : List ℕ) × (first_of x (some y) ≡ some z)
first_of-some none y = (y, refl)
first_of-some (some x) y = (x, refl)

module _ (c : Class) (f : Mem) (size : ℕ) where
  AreBacked-ranges :
      (m m' : List (ℕ × List ℕ)) (segs ps : List Phdr)
      → ((a : ℕ) → find a m' ≡ first_of (find a m) (content_at c f size a segs))
      → ((a : ℕ) (bytes : List ℕ)
          → content_at c f size a ps ≡ some bytes
          → (more : List ℕ) × (content_at c f size a segs ≡ some more))
      → AreBacked m' (ranges c f size ps)
  unfolding content_at
  AreBacked-ranges m m' segs [] kept covers = tt
  AreBacked-ranges m m' segs (p ∷ ps) kept covers =
      let own : content_at c f size p.p_paddr (p ∷ ps) ≡ some (content c f size p) = ground arith in
      let (more, e) = covers p.p_paddr (content c f size p) own in
      let (bytes, found) = first_of-some (find p.p_paddr m) more in
      (
        (bytes, kept p.p_paddr ∙ rw e found),
        AreBacked-ranges m m' segs ps kept λ a tail e'. elim (Bool-cases (a == p.p_paddr)) [
          | inl same ↦ covers a (content c f size p) (rw same refl)
          | inr other ↦ covers a tail (rw other e')
        ],
      )

  IsLoaded-IsBacked :
      (segs : List Phdr) (s s' : Elf) → IsLoaded c f size segs s s' → IsBacked s → IsBacked s'
  IsLoaded-IsBacked segs s s' l h = rw l.sections (
      AreBacked-append s'.mems s.sections (ranges c f size segs)
        (AreBacked-first s.mems s'.mems (λ a. content_at c f size a segs) s.sections l.mems h)
        (AreBacked-ranges s.mems s'.mems segs segs l.mems (λ a bytes e. (bytes, e))))

  -- The part of a run of `load_elf` that returns.
  abbrev pub Backs : Option (Outcome × Elf) → Type 0
  Backs none = Unit {0}
  Backs (some (o, s')) = IsBacked s'

  backs_lem :
      (s : Elf) (b : Bool) (r : Option (Outcome × Elf))
      → IsBacked s
      → Ends c f size b (ehdr c f) s r
      → Backs r
  backs_lem s true r h (s', e, l) = rw e (
      IsLoaded-IsBacked (segments c f size (ehdr c f) (ehdr c f).e_phnum 0)
        (record s { entry = (ehdr c f).e_entry }) s' l h)
  backs_lem s false r h e = rw e tt

  load_elf-IsBacked : (s : Elf) → IsBacked s → Backs (load_elf c f size s)
  load_elf-IsBacked s h = go (is_short c f size) (load_elf-segments c f size s)
    where
      go :
          (b : Bool)
          → (if b
              then load_elf c f size s ≡ some (short_phdrs, s)
              else Ends c f size (all_there c f size) (ehdr c f) s (load_elf c f size s))
          → Backs (load_elf c f size s)
      go true e = rw e h
      go false ends = backs_lem s (all_there c f size) (load_elf c f size s) h ends

-- A run of `read_elf` that returns: all that it opened is closed again, and the sections have
-- their bytes.
pub data Closes (h : Handles) : Option (ℕ × Elf × Handles) → Type 0 where
  ended : Closes h none
  closed : {r : ℕ} {s' : Elf} {h' : Handles} → h' ≡ h → IsBacked s' → Closes h (some (r, s', h'))

Closes-if :
    {h : Handles} {x y : Option (ℕ × Elf × Handles)} (b : Bool)
    → Closes h x
    → Closes h y
    → Closes h (if b then x else y)
Closes-if true p q = p
Closes-if false p q = q

abbrev mapped : Handles → Handles
mapped h = record { fds = h.fds + 1; maps = h.maps + 1 }

Closes-mmap :
    (h : Handles) (r : ℕ) (s : Elf) → IsBacked s → Closes h (some (exit_mmap r s (mapped h)))
unfolding exit_mmap
Closes-mmap h r s backed =
    let one : h.fds + 1 - 1 ≡ h.fds = omega arith in
    let two : h.maps + 1 - 1 ≡ h.maps = omega arith in closed (rw (one, two) refl) backed

Closes-load :
    (h : Handles) (c : Class) (f : Mem) (size : ℕ) (r : Option (Outcome × Elf))
    → Backs c f size r
    → Closes h (maybe none (λ (_, s'). some (exit_mmap 0 s' (mapped h))) r)
Closes-load h c f size none backs = ended
Closes-load h c f size (some (o, s')) backs = Closes-mmap h 0 s' backs

read_mapped_lem :
    (f : Mem) (size : ℕ) (s : Elf) (h : Handles)
    → IsBacked s
    → Closes h (read_mapped f size s (mapped h))
unfolding read_mapped
read_mapped_lem f size s h backed =
    Closes-if (not (is_elf f && f 4 == 1 || is_elf f && f 4 == 2))
      (Closes-mmap h minus_one s backed)
      (Closes-if (is_elf f && f 4 == 1)
        (Closes-load h elf32 f size (load_elf elf32 f size s)
          (load_elf-IsBacked elf32 f size s backed))
        (Closes-load h elf64 f size (load_elf elf64 f size s)
          (load_elf-IsBacked elf64 f size s backed)))

Closes-fd :
    (h : Handles) (s : Elf)
    → IsBacked s
    → Closes h (some (exit_fd minus_one s (record h { fds = h.fds + 1 })))
unfolding exit_fd
Closes-fd h s backed = let one : h.fds + 1 - 1 ≡ h.fds = omega arith in closed (rw one refl) backed

Closes-maybe :
    {A : Type 0} {h : Handles} {x : Option (ℕ × Elf × Handles)} {k : A → Option (ℕ × Elf × Handles)}
    (o : Option A)
    → Closes h x
    → ((a : A) → Closes h (k a))
    → Closes h (maybe x k o)
Closes-maybe none p q = p
Closes-maybe (some a) p q = q a

-- Whatever the operating system answers, a call of `read_elf` that returns has closed each file and
-- mapping that it opened, and leaves no section without bytes if there was none before.
pub read_elf-Closes : (os : Os) (s : Elf) (h : Handles) → IsBacked s → Closes h (read_elf os s h)
unfolding read_elf
read_elf-Closes os s h backed = Closes-if (not os.opens) (closed refl backed) (
    Closes-maybe os.stat (Closes-fd h s backed) λ size.
      Closes-if (ltb size ehdr64_size) (Closes-fd h s backed)
        (Closes-maybe os.mapped (Closes-fd h s backed) λ f. read_mapped_lem f size s h backed))

pub Closes-some :
    {h : Handles} {n : ℕ} {s' : Elf} {h' : Handles} → Closes h (some (n, s', h')) → IsBacked s'
Closes-some (closed same backed) = backed
