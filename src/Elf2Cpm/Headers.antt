-- ===== src/Elf2Cpm/Headers.antt =====
-- The structures of an ELF file that tools/elf2cpm68k.c reads, with the fields that it uses.
use libgloss_cpm68k.Prelude.{ℕ, ◌/◌, ◌%◌, List, get_or, take}
use libgloss_cpm68k.Elf2Cpm.Field.{read16, read32}

-- `elf32_file_header_t`, 52 bytes
pub record FileHeader : Type 0 where
  pub e_ident : List ℕ
  pub e_type : ℕ
  pub e_machine : ℕ
  pub e_version : ℕ
  pub e_phoff : ℕ
  pub e_shoff : ℕ
  pub e_ehsize : ℕ
  pub e_phentsize : ℕ
  pub e_phnum : ℕ
  pub e_shentsize : ℕ
  pub e_shnum : ℕ

unfoldable pub file_header : List ℕ → FileHeader
file_header s = record {
  e_ident = take 16 s;
  e_type = read16 s 16;
  e_machine = read16 s 18;
  e_version = read32 s 20;
  e_phoff = read32 s 28;
  e_shoff = read32 s 32;
  e_ehsize = read16 s 40;
  e_phentsize = read16 s 42;
  e_phnum = read16 s 44;
  e_shentsize = read16 s 46;
  e_shnum = read16 s 48;
}

-- `elf32_program_header_t`, 32 bytes
pub record Segment : Type 0 where
  pub p_type : ℕ
  pub p_offset : ℕ
  pub p_vaddr : ℕ
  pub p_filesz : ℕ
  pub p_memsz : ℕ
  pub p_flags : ℕ

unfoldable pub segment : List ℕ → Segment
segment s = record {
  p_type = read32 s 0;
  p_offset = read32 s 4;
  p_vaddr = read32 s 8;
  p_filesz = read32 s 16;
  p_memsz = read32 s 20;
  p_flags = read32 s 24;
}

-- `elf32_section_header_t`, 40 bytes
pub record Section : Type 0 where
  pub sh_type : ℕ
  pub sh_flags : ℕ
  pub sh_offset : ℕ
  pub sh_size : ℕ
  pub sh_link : ℕ
  pub sh_info : ℕ
  pub sh_entsize : ℕ

unfoldable pub section : List ℕ → Section
section s = record {
  sh_type = read32 s 4;
  sh_flags = read32 s 8;
  sh_offset = read32 s 16;
  sh_size = read32 s 20;
  sh_link = read32 s 24;
  sh_info = read32 s 28;
  sh_entsize = read32 s 36;
}

-- `elf32_rela_t`, 12 bytes
pub record Rela : Type 0 where
  pub rel_offset : ℕ
  pub rel_info : ℕ

unfoldable pub rela : List ℕ → Rela
rela s = record { rel_offset = read32 s 0; rel_info = read32 s 4 }

-- `REL_SYM` and `REL_TYPE`
abbrev pub rel_sym : Rela → ℕ
rel_sym r = r.rel_info / 256

abbrev pub rel_type : Rela → ℕ
rel_type r = r.rel_info % 256

-- `elf32_sym_t`, 16 bytes
pub record Symbol : Type 0 where
  pub st_value : ℕ
  pub st_info : ℕ

unfoldable pub symbol : List ℕ → Symbol
symbol s = record { st_value = read32 s 4; st_info = get_or s 12 0 }

abbrev pub st_bind : Symbol → ℕ
st_bind y = y.st_info / 16
