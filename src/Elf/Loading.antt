-- ===== src/Elf/Loading.antt =====
-- What `load_elf` of target/sim/src/elfloader.cpp makes of a program header table.
use mathlib.Core.List.{append_assoc, append-nil}
use cheshire_fork.Base.{
  ℕ, zero, suc, ◌+◌, ◌≡◌, sym, ◌∙◌, ap, refl, Bool, true, false, Option, none, some, List, [], ◌∷◌,
  ◌++◌, ltb, leb, ◌%◌, ◌^◌, ◌==◌, if◌then◌else◌, u64, Bool-cases, inl, inr, ◌*◌,
}
use cheshire_fork.Machine.Bytes.{Mem}
use cheshire_fork.Elf.{
  Elf, find, insert, write, wrap, maybe, ph, load_segment, load_loop, load_elf, check_sections,
  Outcome, short_phdrs,
}
use cheshire_fork.Elf.Layout.{Class, elf32, elf64, Ehdr, Phdr, ehdr, phdr_size}
use cheshire_fork.Elf.Segments.{
  first_of, first_of_assoc, first_of-none, find-insert, loadable, content, width, segments,
  all_in_file, ranges, content_at,
}

wrap-width : (c : Class) (x : ℕ) → wrap c x ≡ x % width c
unfolding wrap width
wrap-width elf32 x = refl
wrap-width elf64 x = refl

first_of_if {ℓ} :
    {A : Type ℓ} (b : Bool) (x : A) (o : Option A)
    → first_of (if b then some x else none) o ≡ (if b then some x else o)
first_of_if true x o = refl
first_of_if false x o = refl

module _ (c : Class) (f : Mem) (size : ℕ) where
  -- `s'` is `s` with the segments loaded.
  pub record IsLoaded (segs : List Phdr) (s s' : Elf) : Type 0 where
    pub sections : s'.sections ≡ s.sections ++ ranges c f size segs
    pub mems : (a : ℕ) → find a s'.mems ≡ first_of (find a s.mems) (content_at c f size a segs)
    pub entry : s'.entry ≡ s.entry
    pub section_index : s'.section_index ≡ s.section_index

  -- The loader ends with the segments loaded if they are within the file and not too long, and else
  -- has no result.
  abbrev pub Loads : Bool → List Phdr → Elf → Option Elf → Type 0
  Loads true segs s r = (s' : Elf) × (r ≡ some s') × IsLoaded segs s s'
  Loads false segs s r = r ≡ none

  abbrev loaded_segment : Phdr → Elf → Elf
  loaded_segment p s = record s {
    sections = s.sections ++ (p.p_paddr, p.p_memsz) ∷ [];
    mems = insert p.p_paddr (content c f size p) s.mems;
  }

  cons_lem :
      (p : Phdr) (ps : List Phdr) (s : Elf) (r : Option Elf) (b : Bool)
      → Loads b ps (loaded_segment p s) r
      → Loads b (p ∷ ps) s r
  unfolding content_at
  cons_lem p ps s r false l = l
  cons_lem p ps s r true (s', e, l) = (
    s',
    e,
    record {
      sections =
          l.sections ∙ append_assoc s.sections ((p.p_paddr, p.p_memsz) ∷ []) (ranges c f size ps);
      mems = λ a.
          l.mems a
          ∙ rw (find-insert a p.p_paddr (content c f size p) s.mems) (
              first_of_assoc (find a s.mems)
                (if a == p.p_paddr then some (content c f size p) else none)
                (content_at c f size a ps)
              ∙ ap (first_of (find a s.mems))
                  (first_of_if (a == p.p_paddr) (content c f size p) (content_at c f size a ps)));
      entry = l.entry;
      section_index = l.section_index;
    },
  )

  load_loop_lem :
      (eh : Ehdr) (left i : ℕ) (s : Elf)
      → Loads
          (all_in_file c f size (segments c f size eh left i))
          (segments c f size eh left i)
          s
          (load_loop c f size eh left i s)
  unfolding load_loop segments load_segment write content_at loadable
  load_loop_lem eh zero i s = (
    s,
    refl,
    record {
      sections = sym (append-nil s.sections);
      mems = λ a. sym (first_of-none (find a s.mems));
      entry = refl;
      section_index = refl;
    },
  )
  load_loop_lem eh (suc left) i s =
      let p = ph c f size eh i in
      elim (Bool-cases (loadable p)) [
        | inl yes_load ↦
            rw (yes_load, wrap-width c (p.p_offset + p.p_filesz))
              (elim (Bool-cases (leb ((p.p_offset + p.p_filesz) % width c) size)) [
                | inl fits ↦ elim (Bool-cases (leb p.p_filesz (2 ^ 31))) [
                  | inl counted ↦
                      rw (fits, counted)
                        (cons_lem p (segments c f size eh left (i + 1)) s
                          (load_loop c f size eh left (i + 1) (loaded_segment p s))
                          (all_in_file c f size (segments c f size eh left (i + 1)))
                          (load_loop_lem eh left (i + 1) (loaded_segment p s)))
                  | inr overflows ↦ rw (fits, overflows) refl
                ]
                | inr beyond ↦ rw beyond refl
              ])
        | inr skip ↦ rw skip (load_loop_lem eh left (i + 1) s)
      ]

  -- How `load_elf` ends if it gets to the segments.
  abbrev pub Ends : Bool → Ehdr → Elf → Option (Outcome × Elf) → Type 0
  Ends true eh s r =
      (s' : Elf) × (r ≡ some (check_sections c f size eh, s'))
      × IsLoaded (segments c f size eh eh.e_phnum 0) (record s { entry = eh.e_entry }) s'
  Ends false eh s r = r ≡ none

  ends_lem :
      (b : Bool) (eh : Ehdr) (s : Elf) (r : Option Elf)
      → Loads b (segments c f size eh eh.e_phnum 0) (record s { entry = eh.e_entry }) r
      → Ends b eh s (maybe none (λ s'. some (check_sections c f size eh, s')) r)
  ends_lem true eh s r (s', e, l) = (s', rw e refl, l)
  ends_lem false eh s r e = rw e refl

  -- The table of the program headers ends behind the end of the file.
  abbrev pub is_short : Bool
  is_short = ltb size (u64 ((ehdr c f).e_phoff + (ehdr c f).e_phnum * phdr_size c))

  abbrev pub all_there : Bool
  all_there = all_in_file c f size (segments c f size (ehdr c f) (ehdr c f).e_phnum 0)

  pub load_elf-segments :
      (s : Elf)
      → (if is_short
          then load_elf c f size s ≡ some (short_phdrs, s)
          else Ends all_there (ehdr c f) s (load_elf c f size s))
  unfolding load_elf
  load_elf-segments s = elim (Bool-cases is_short) [
    | inl short ↦ rw short refl
    | inr there ↦ rw there (
        let s1 : Elf = record s { entry = (ehdr c f).e_entry } in
        let eh = ehdr c f in
        ends_lem all_there eh s (load_loop c f size eh eh.e_phnum 0 s1)
          (load_loop_lem eh eh.e_phnum 0 s1))
  ]
