-- ===== src/Elf.antt =====
-- target/sim/src/elfloader.cpp: the testbench's ELF loader, which hands the loadable segments of a
-- file to the simulation. The messages that it prints are left out, but for those that tell why
-- it stops, which are values of `Outcome`.
pub mod Layout
pub mod Segments
pub mod Loading
pub mod Reading
pub mod Closing
pub mod Calls
use cheshire_fork.Base.{
  ℕ, zero, suc, ◌+◌, ◌-◌, ◌*◌, ◌%◌, ◌^◌, Bool, true, false, not, ◌&&◌, ◌||◌, Option, none, some,
  List, [], ◌∷◌, ◌++◌, ltb, leb, ◌==◌, if◌then◌else◌, tabulate, length, u32, u64,
}
use cheshire_fork.Machine.Bytes.{Mem, store_bytes}
use Layout.{
  Class, elf32, elf64, Ehdr, Phdr, Shdr, ehdr, phdr, shdr, ehdr64_size, phdr_size, shdr_size,
}

-- The file's globals. `mems` maps an address to the bytes that were read for it.
pub record Elf : Type 0 where
  pub sections : List (ℕ × ℕ)
  pub mems : List (ℕ × List ℕ)
  pub entry : ℕ
  pub section_index : ℕ

abbrev pub maybe {ℓ κ} : {A : Type ℓ} {B : Type κ} → B → (A → B) → Option A → B
maybe b f none = b
maybe b f (some a) = f a

-- `mems.find(address)`.
unfoldable pub find : ℕ → List (ℕ × List ℕ) → Option (List ℕ)
find a [] = none
find a ((b, bytes) ∷ rest) = if a == b then some bytes else find a rest

-- `std::map::insert`, which keeps an entry that is there.
unfoldable pub insert : ℕ → List ℕ → List (ℕ × List ℕ) → List (ℕ × List ℕ)
unfolding find
insert a bytes m = maybe (m ++ (a, bytes) ∷ []) (λ old. m) (find a m)

-- `write`: the bytes of the file from `offset` on. The loop counts with an `int`, which overflows
-- behind `2 ^ 31` bytes: C does not say what happens then, and there is no result (`none`).
unfoldable pub write :
    (f : Mem) (address len offset : ℕ) → List (ℕ × List ℕ) → Option (List (ℕ × List ℕ))
unfolding insert
write f address len offset m =
    if leb len (2 ^ 31)
    then some (insert address (tabulate (λ i. f (u64 (offset + i))) 0 len) m)
    else none

-- `get_entry`.
unfoldable pub get_entry : Elf → ℕ
get_entry s = s.entry

abbrev pub get_elem? {ℓ} : {A : Type ℓ} → List A → ℕ → Option A
get_elem? [] i = none
get_elem? (x ∷ xs) zero = some x
get_elem? (x ∷ xs) (suc i) = get_elem? xs i

-- `get_section`: `none` stands for a return of 0, the section for a return of 1 with its two
-- outputs.
unfoldable pub get_section : Elf → Option (ℕ × ℕ) × Elf
get_section s =
    maybe (none, s) (λ section. (some section, record s { section_index = s.section_index + 1 }))
      (get_elem? s.sections s.section_index)

-- A returned -1 as a `char`.
abbrev pub minus_one : ℕ
minus_one = 255

-- The loop of `read_section` over the bytes that are left, with `len_tmp` places left at `buf`.
unfoldable pub copy_loop : List ℕ → (len_tmp buf : ℕ) → Mem → ℕ × Mem
copy_loop [] len_tmp buf f = (0, f)
copy_loop (x ∷ xs) zero buf f = (minus_one, f)
copy_loop (x ∷ xs) (suc left) buf f = copy_loop xs left (buf + 1) (store_bytes buf (x ∷ []) f)

-- `read_section` into the array at `buf` of the simulator's memory: the returned value, and memory.
-- `len` is a bit pattern: that of a negative length is greater than any section is long, and all of
-- the section is copied.
unfoldable pub read_section : Elf → (address buf len : ℕ) → Mem → ℕ × Mem
unfolding find copy_loop
read_section s address buf len f =
    maybe (minus_one, f) (λ bytes. copy_loop bytes len buf f) (find address s.mems)

-- How `load_elf` ends: at one of its messages, or with the indices of the sections `.strtab` and
-- `.symtab`.
pub data Outcome : Type 0 where
  short_phdrs short_shdrs bad_shstrndx short_shstrtab : Outcome
  loaded : (strtabidx symtabidx : ℕ) → Outcome

abbrev name_strtab : List ℕ
name_strtab = 0x2E ∷ 0x73 ∷ 0x74 ∷ 0x72 ∷ 0x74 ∷ 0x61 ∷ 0x62 ∷ 0 ∷ []

abbrev name_symtab : List ℕ
name_symtab = 0x2E ∷ 0x73 ∷ 0x79 ∷ 0x6D ∷ 0x74 ∷ 0x61 ∷ 0x62 ∷ 0 ∷ []

-- `strcmp(s, name) == 0` for a name with its final zero.
unfoldable pub same_name : Mem → ℕ → List ℕ → Bool
same_name f a [] = true
same_name f a (x ∷ xs) = f (u64 a) == x && same_name f (a + 1) xs

-- The width in which the fields of an entry are added.
unfoldable pub wrap : Class → ℕ → ℕ
wrap elf32 x = u32 x
wrap elf64 x = u64 x

module _ (c : Class) (f : Mem) (size : ℕ) where
  -- `ph[i]` and `sh[i]`.
  unfoldable pub ph : Ehdr → ℕ → Phdr
  unfolding phdr
  ph eh i = phdr c f (u64 (eh.e_phoff + i * phdr_size c))

  unfoldable pub sh : Ehdr → ℕ → Shdr
  unfolding shdr
  sh eh i = shdr c f (u64 (eh.e_shoff + i * shdr_size c))

  -- One program header. `none` is a failed assertion, which ends the process, or an overflow.
  unfoldable pub load_segment : Phdr → Elf → Option Elf
  unfolding write wrap
  load_segment p s =
      if p.p_type == 1 && not (p.p_memsz == 0) && not (p.p_filesz == 0)
      then (if leb (wrap c (p.p_offset + p.p_filesz)) size
          then maybe none
              (λ ms.
                some (record s { sections = s.sections ++ (p.p_paddr, p.p_memsz) ∷ []; mems = ms }))
              (write f p.p_paddr p.p_filesz p.p_offset s.mems)
          else none)
      else some s

  -- The loop over the program headers from `i` on.
  unfoldable pub load_loop : Ehdr → (left i : ℕ) → Elf → Option Elf
  load_loop eh zero i s = some s
  load_loop eh (suc left) i s = maybe none (load_loop eh left (i + 1)) (load_segment (ph eh i) s)

  -- The loop over the section headers from `i` on; the last section of a name counts.
  unfoldable pub name_loop : Ehdr → (shstrtab left i strtabidx symtabidx : ℕ) → Outcome
  unfolding same_name sh
  name_loop eh shstrtab zero i strtabidx symtabidx = loaded strtabidx symtabidx
  name_loop eh shstrtab (suc left) i strtabidx symtabidx =
      let at = shstrtab + (sh eh i).sh_name in
      let is_strtab = same_name f at name_strtab in
      let is_symtab = not is_strtab && same_name f at name_symtab in
      name_loop eh shstrtab left (i + 1) (if is_strtab then i else strtabidx)
        (if is_symtab then i else symtabidx)

  -- What `load_elf` does behind the segments.
  unfoldable pub check_sections : Ehdr → Outcome
  unfolding name_loop sh wrap
  check_sections eh =
      let names = sh eh eh.e_shstrndx in
      if ltb size (u64 (eh.e_shoff + eh.e_shnum * shdr_size c))
      then short_shdrs
      else if leb eh.e_shnum eh.e_shstrndx
      then bad_shstrndx
      else if ltb size (wrap c (names.sh_offset + names.sh_size))
      then short_shstrtab
      else name_loop eh names.sh_offset eh.e_shnum 0 0 0

  -- `load_elf`.
  unfoldable pub load_elf : Elf → Option (Outcome × Elf)
  unfolding ehdr load_loop check_sections
  load_elf s =
      let eh = ehdr c f in
      if ltb size (u64 (eh.e_phoff + eh.e_phnum * phdr_size c))
      then some (short_phdrs, s)
      else maybe none (λ s'. some (check_sections eh, s'))
          (load_loop eh eh.e_phnum 0 (record s { entry = eh.e_entry }))

-- What the operating system answers for the file name: whether `open` succeeds, the size from
-- `fstat`, and the bytes behind `mmap`.
pub record Os : Type 0 where
  pub opens : Bool
  pub stat : Option ℕ
  pub mapped : Option Mem

-- Open file descriptors and mappings.
pub record Handles : Type 0 where
  pub fds : ℕ
  pub maps : ℕ

-- The labels `exit_fd` and `exit_mmap`.
unfoldable pub exit_fd : ℕ → Elf → Handles → ℕ × Elf × Handles
exit_fd retval s h = (retval, s, record h { fds = h.fds - 1 })

unfoldable pub exit_mmap : ℕ → Elf → Handles → ℕ × Elf × Handles
unfolding exit_fd
exit_mmap retval s h = exit_fd retval s (record h { maps = h.maps - 1 })

-- `IS_ELF`, and with it `IS_ELF32` for 1 and `IS_ELF64` for 2.
unfoldable pub is_elf : Mem → Bool
is_elf f = f 0 == 0x7f && f 1 == 0x45 && f 2 == 0x4C && f 3 == 0x46

-- `read_elf` once the file is mapped. `none` is as in `load_segment`.
unfoldable pub read_mapped : Mem → (size : ℕ) → Elf → Handles → Option (ℕ × Elf × Handles)
unfolding load_elf exit_mmap is_elf
read_mapped f size s h =
    let load =
      λ (c : Class). maybe none (λ (_, s'). some (exit_mmap 0 s' h)) (load_elf c f size s) in
    if not (is_elf f && f 4 == 1 || is_elf f && f 4 == 2)
    then some (exit_mmap minus_one s h)
    else if is_elf f && f 4 == 1
    then load elf32
    else load elf64

-- `read_elf`.
unfoldable pub read_elf : Os → Elf → Handles → Option (ℕ × Elf × Handles)
unfolding read_mapped exit_fd
read_elf os s h =
    let opened = record h { fds = h.fds + 1 } in
    let with_map =
      λ (size : ℕ) (f : Mem). read_mapped f size s (record opened { maps = opened.maps + 1 }) in
    let with_size = λ (size : ℕ).
      if ltb size ehdr64_size
      then some (exit_fd minus_one s opened)
      else maybe (some (exit_fd minus_one s opened)) (with_map size) os.mapped in
    if not os.opens
    then some (minus_one, s, h)
    else maybe (some (exit_fd minus_one s opened)) with_size os.stat
