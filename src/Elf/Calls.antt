-- ===== src/Elf/Calls.antt =====
-- Any sequence of calls of the loader in target/sim/src/elfloader.cpp.
use mathlib.Core.Option.{none-ne-some, some-injective}
use mathlib.Core.Path.{subst}
use cheshire_fork.Base.{ℕ, zero, suc, ◌+◌, ◌≡◌, ◌∙◌, ap, refl, Option, none, some, List, [], ◌∷◌}
use cheshire_fork.Machine.Bytes.{Mem}
use cheshire_fork.Elf.{
  Elf, find, get_elem?, get_section, read_section, maybe, Os, Handles, read_elf,
}
use cheshire_fork.Elf.Reading.{copied, read_section-find}
use cheshire_fork.Elf.Closing.{AreBacked, IsBacked, Closes, Closes-some, read_elf-Closes}

-- The calls that change the loader's state. `read_section` does not.
pub data Call (s : Elf) : Elf → Type 0 where
  read :
      {s' : Elf} (os : Os) (h h' : Handles) (r : ℕ) → read_elf os s h ≡ some (r, s', h') → Call s s'
  next : {s' : Elf} (o : Option (ℕ × ℕ)) → get_section s ≡ (o, s') → Call s s'

-- The states that calls lead to.
pub data Calls (s : Elf) : Elf → Type 0 where
  none_yet : Calls s s
  later : {t u : Elf} → Calls s t → Call t u → Calls s u

-- The state before the first call.
abbrev pub start : Elf
start = record { sections = []; mems = []; entry = 0; section_index = 0 }

-- What `get_section` makes of the entry at the index.
abbrev stepped : Elf → Option (ℕ × ℕ) → Option (ℕ × ℕ) × Elf
stepped s =
    maybe (none, s) (λ section. (some section, record s { section_index = s.section_index + 1 }))

stepped-IsBacked : (s : Elf) (o : Option (ℕ × ℕ)) → IsBacked s → IsBacked (stepped s o).1
stepped-IsBacked s none h = h
stepped-IsBacked s (some x) h = h

Call-IsBacked : {s s' : Elf} → Call s s' → IsBacked s → IsBacked s'
unfolding get_section
Call-IsBacked {s} (read {s' = s'} os h h' r e) backed =
    Closes-some (subst (Closes h) e (read_elf-Closes os s h backed))
Call-IsBacked {s} (next {s' = s'} o e) backed =
    subst IsBacked (ap (λ r. r.1) e)
      (stepped-IsBacked s (get_elem? s.sections s.section_index) backed)

Calls-IsBacked : {s s' : Elf} → Calls s s' → IsBacked s → IsBacked s'
Calls-IsBacked none_yet backed = backed
Calls-IsBacked (later calls call) backed = Call-IsBacked call (Calls-IsBacked calls backed)

backed_at :
    (m : List (ℕ × List ℕ)) (sections : List (ℕ × ℕ)) (i a n : ℕ)
    → AreBacked m sections
    → get_elem? sections i ≡ some (a, n)
    → (bytes : List ℕ) × (find a m ≡ some bytes)
backed_at m [] i a n h e = absurd (none-ne-some (a, n) e)
backed_at m ((b, k) ∷ rest) zero a n ((bytes, there), h) e =
    let same : b ≡ a = ap (λ (x : ℕ × ℕ). x.0) (some-injective (b, k) (a, n) e) in
    (bytes, rw (← same) there)
backed_at m ((b, k) ∷ rest) (suc i) a n (there, h) e = backed_at m rest i a n h e

-- After any sequence of calls, files loaded twice and failed calls included, a section that
-- `get_section` hands out is one that `read_section` finds: it copies the same bytes into every
-- buffer, completely or up to the buffer's end, and never answers that there is no such section.
pub read_section-get_section :
    (s s' : Elf) (a n : ℕ)
    → Calls start s
    → get_section s ≡ (some (a, n), s')
    → (bytes : List ℕ) × ((buf len : ℕ) (g : Mem)
        → read_section s' a buf len g ≡ copied bytes len buf g)
unfolding get_section
read_section-get_section s s' a n calls e = go (get_elem? s.sections s.section_index) refl e
  where
    go :
        (o : Option (ℕ × ℕ))
        → get_elem? s.sections s.section_index ≡ o
        → stepped s o ≡ (some (a, n), s')
        → (bytes : List ℕ) × ((buf len : ℕ) (g : Mem)
            → read_section s' a buf len g ≡ copied bytes len buf g)
    go none at e = absurd (none-ne-some (a, n) (ap (λ r. r.0) e))
    go (some (b, k)) at e =
        let same : some (b, k) ≡ some (a, n) = ap (λ r. r.0) e in
        let (bytes, there) =
          backed_at s.mems s.sections s.section_index a n (Calls-IsBacked calls tt) (at ∙ same) in
        let kept : s.mems ≡ s'.mems = ap (λ r. r.1.mems) e in
        (bytes, λ buf len g. read_section-find s' a buf len bytes g (rw (← kept) there))
