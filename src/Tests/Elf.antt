-- ===== src/Tests/Elf.antt =====
-- A small 64-bit file with two loadable segments, and a truncated one.
use cheshire_fork.Base.{ℕ, ◌≡◌, refl, true, some, List, [], ◌∷◌}
use cheshire_fork.Machine.Bytes.{Mem, store_bytes, load_le}
use cheshire_fork.Elf.{
  Elf, get_section, read_section, load_elf, exit_mmap, exit_fd, read_mapped, insert, ph, wrap, Os,
  Handles, read_elf, is_elf, find, load_segment, load_loop, write,
}
use cheshire_fork.Elf.Layout.{Phdr, ehdr, phdr}
use cheshire_fork.Elf.Reading.{copied}
use cheshire_fork.Elf.Closing.{Closes, read_elf-Closes}
use cheshire_fork.Elf.Calls.{none_yet, later, read, start, read_section-get_section}

-- Entry point 0x80000000; three bytes for address 0x1000, of eight in memory, and two for 0x2000.
abbrev file : Mem
unfolding store_bytes
file = store_bytes 0 (0x7f ∷ 0x45 ∷ 0x4C ∷ 0x46 ∷ 2 ∷ []) (
    store_bytes 27 (0x80 ∷ []) (
      store_bytes 32 (64 ∷ []) (
        store_bytes 56 (2 ∷ []) (
          store_bytes 64 (1 ∷ []) (
            store_bytes 72 (176 ∷ []) (
              store_bytes 89 (0x10 ∷ []) (
                store_bytes 96 (3 ∷ []) (
                  store_bytes 104 (8 ∷ []) (
                    store_bytes 120 (1 ∷ []) (
                      store_bytes 128 (179 ∷ []) (
                        store_bytes 145 (0x20 ∷ []) (
                          store_bytes 152 (2 ∷ []) (
                            store_bytes 160 (2 ∷ [])
                              (store_bytes 176 (11 ∷ 12 ∷ 13 ∷ 14 ∷ 15 ∷ []) (λ a. 0)))))))))))))))

abbrev second : Phdr
second = record {
  p_type = 1;
  p_flags = 0;
  p_offset = 179;
  p_vaddr = 0;
  p_paddr = 0x2000;
  p_filesz = 2;
  p_memsz = 2;
  p_align = 0;
}

abbrev no_handles : Handles
no_handles = record { fds = 0; maps = 0 }

abbrev os : ℕ → Os
os size = record { opens = true; stat = some size; mapped = some file }

read_elf-Closes_example : Closes no_handles (read_elf (os 181) start no_handles)
read_elf-Closes_example = read_elf-Closes (os 181) start no_handles tt

abbrev after : ℕ → Elf
after i = record {
  sections = (0x1000, 8) ∷ (0x2000, 2) ∷ [];
  mems = (0x1000, 11 ∷ 12 ∷ 13 ∷ []) ∷ (0x2000, 14 ∷ 15 ∷ []) ∷ [];
  entry = 0x80000000;
  section_index = i;
}

read_file : read_elf (os 181) start no_handles ≡ some (0, after 0, no_handles)
unfolding read_elf read_mapped exit_mmap exit_fd is_elf load_elf load_loop load_segment write insert
    find ehdr ph phdr wrap load_le store_bytes
read_file = refl

next_section : get_section (after 0) ≡ (some (0x1000, 8), after 1)
unfolding get_section
next_section = refl

read_section-get_section_example :
    (bytes : List ℕ) × ((buf len : ℕ) (g : Mem)
      → read_section (after 1) 0x1000 buf len g ≡ copied bytes len buf g)
read_section-get_section_example =
    read_section-get_section (after 0) (after 1) 0x1000 8
      (later none_yet (read (os 181) no_handles no_handles 0 read_file)) next_section
