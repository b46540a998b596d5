-- ===== src/Elf/Layout.antt =====
-- The file format of target/sim/src/elfloader.cpp: the structures of both classes and where their
-- fields stand, as a little-endian host reads them.
use cheshire_fork.Base.{ℕ, ◌+◌}
use cheshire_fork.Machine.Bytes.{Mem, load_le, load32, load64}

-- The two instances of the template `load_elf`.
pub data Class : Type 0 where
  elf32 elf64 : Class

-- `Elf32_Ehdr` and `Elf64_Ehdr` behind the identification.
pub record Ehdr : Type 0 where
  pub e_type : ℕ
  pub e_machine : ℕ
  pub e_version : ℕ
  pub e_entry : ℕ
  pub e_phoff : ℕ
  pub e_shoff : ℕ
  pub e_flags : ℕ
  pub e_ehsize : ℕ
  pub e_phentsize : ℕ
  pub e_phnum : ℕ
  pub e_shentsize : ℕ
  pub e_shnum : ℕ
  pub e_shstrndx : ℕ

-- `Elf32_Phdr` and `Elf64_Phdr`, which order their fields differently.
pub record Phdr : Type 0 where
  pub p_type : ℕ
  pub p_flags : ℕ
  pub p_offset : ℕ
  pub p_vaddr : ℕ
  pub p_paddr : ℕ
  pub p_filesz : ℕ
  pub p_memsz : ℕ
  pub p_align : ℕ

-- `Elf32_Shdr` and `Elf64_Shdr`.
pub record Shdr : Type 0 where
  pub sh_name : ℕ
  pub sh_type : ℕ
  pub sh_flags : ℕ
  pub sh_addr : ℕ
  pub sh_offset : ℕ
  pub sh_size : ℕ
  pub sh_link : ℕ
  pub sh_info : ℕ
  pub sh_addralign : ℕ
  pub sh_entsize : ℕ

abbrev load16 : Mem → ℕ → ℕ
load16 = load_le 2

-- `sizeof(Elf64_Ehdr)`, `sizeof(P)` and `sizeof(Sh)`.
abbrev pub ehdr64_size : ℕ
ehdr64_size = 64

abbrev pub phdr_size : Class → ℕ
phdr_size elf32 = 32
phdr_size elf64 = 56

abbrev pub shdr_size : Class → ℕ
shdr_size elf32 = 40
shdr_size elf64 = 64

-- The header at the start of the file.
unfoldable pub ehdr : Class → Mem → Ehdr
ehdr elf32 f = record {
  e_type = load16 f 16;
  e_machine = load16 f 18;
  e_version = load32 f 20;
  e_entry = load32 f 24;
  e_phoff = load32 f 28;
  e_shoff = load32 f 32;
  e_flags = load32 f 36;
  e_ehsize = load16 f 40;
  e_phentsize = load16 f 42;
  e_phnum = load16 f 44;
  e_shentsize = load16 f 46;
  e_shnum = load16 f 48;
  e_shstrndx = load16 f 50;
}
ehdr elf64 f = record {
  e_type = load16 f 16;
  e_machine = load16 f 18;
  e_version = load32 f 20;
  e_entry = load64 f 24;
  e_phoff = load64 f 32;
  e_shoff = load64 f 40;
  e_flags = load32 f 48;
  e_ehsize = load16 f 52;
  e_phentsize = load16 f 54;
  e_phnum = load16 f 56;
  e_shentsize = load16 f 58;
  e_shnum = load16 f 60;
  e_shstrndx = load16 f 62;
}

-- A program header at offset `a`.
unfoldable pub phdr : Class → Mem → ℕ → Phdr
phdr elf32 f a = record {
  p_type = load32 f a;
  p_offset = load32 f (a + 4);
  p_vaddr = load32 f (a + 8);
  p_paddr = load32 f (a + 12);
  p_filesz = load32 f (a + 16);
  p_memsz = load32 f (a + 20);
  p_flags = load32 f (a + 24);
  p_align = load32 f (a + 28);
}
phdr elf64 f a = record {
  p_type = load32 f a;
  p_flags = load32 f (a + 4);
  p_offset = load64 f (a + 8);
  p_vaddr = load64 f (a + 16);
  p_paddr = load64 f (a + 24);
  p_filesz = load64 f (a + 32);
  p_memsz = load64 f (a + 40);
  p_align = load64 f (a + 48);
}

-- A section header at offset `a`.
unfoldable pub shdr : Class → Mem → ℕ → Shdr
shdr elf32 f a = record {
  sh_name = load32 f a;
  sh_type = load32 f (a + 4);
  sh_flags = load32 f (a + 8);
  sh_addr = load32 f (a + 12);
  sh_offset = load32 f (a + 16);
  sh_size = load32 f (a + 20);
  sh_link = load32 f (a + 24);
  sh_info = load32 f (a + 28);
  sh_addralign = load32 f (a + 32);
  sh_entsize = load32 f (a + 36);
}
shdr elf64 f a = record {
  sh_name = load32 f a;
  sh_type = load32 f (a + 4);
  sh_flags = load64 f (a + 8);
  sh_addr = load64 f (a + 16);
  sh_offset = load64 f (a + 24);
  sh_size = load64 f (a + 32);
  sh_link = load32 f (a + 40);
  sh_info = load32 f (a + 44);
  sh_addralign = load64 f (a + 48);
  sh_entsize = load64 f (a + 56);
}
