-- ===== src/Elf2Cpm/Load.antt =====
-- `load_elf` of tools/elf2cpm68k.c: the checks of the ELF file, and what is taken from it.
pub mod Checked
use libgloss_cpm68k.Prelude.{ℕ, ◌*◌, ◌%◌, Bool, ◌&&◌, List, ltb, leb, ◌==◌, get_or}
use libgloss_cpm68k.Prelude.Words.{sub_long}
use libgloss_cpm68k.Elf2Cpm.Outcome.{
  Outcome, ok, ◌>>=◌, ◌>>◌, require, bad_header, bad_text, bad_data,
}
use libgloss_cpm68k.Elf2Cpm.Headers.{FileHeader, file_header, Segment, segment}
use libgloss_cpm68k.Elf2Cpm.Input.{Sections, read_at, element}
use libgloss_cpm68k.Elf2Cpm.Relocs.{Layout, load_elf_relocs}

-- what `load_elf` leaves in `elf_file_t` for `write_cpm`; the length of `rel_data` is `rel_count`
pub record ElfFile : Type 0 where
  pub layout : Layout
  pub rel_data : List ℕ

unfoldable pub is_header : FileHeader → Bool
is_header h =
    get_or h.e_ident 0 0 == 0x7f
    && get_or h.e_ident 1 0 == b'E'
    && get_or h.e_ident 2 0 == b'L'
    && get_or h.e_ident 3 0 == b'F'
    && get_or h.e_ident 4 0 == 1
    && get_or h.e_ident 5 0 == 2
    && get_or h.e_ident 6 0 == 1
    && h.e_type == 2
    && h.e_machine == 4
    && h.e_version == 1
    && h.e_ehsize == 52
    && h.e_phentsize == 32
    && h.e_shentsize == 40
    && leb 2 h.e_shnum

unfoldable pub is_text : Segment → Bool
is_text t = t.p_type == 1 && t.p_flags % 8 == 5 && t.p_vaddr == 0 && t.p_memsz == t.p_filesz

-- the data segment behind a text of `text_filesize` bytes
unfoldable pub is_data : ℕ → Segment → Bool
is_data text_filesize d = d.p_type == 1 && d.p_flags % 8 == 6 && leb text_filesize d.p_vaddr

abbrev pub layout_of : Segment → Segment → Layout
layout_of t d = record {
  text_offset = t.p_offset;
  text_filesize = t.p_filesz;
  data_offset = d.p_offset;
  data_vmaddr = d.p_vaddr;
  data_filesize = d.p_filesz;
  bss_memsize = sub_long d.p_memsz d.p_filesz;
}

unfoldable pub load_elf : List ℕ → Outcome ElfFile
unfolding read_at element file_header segment is_header is_text is_data load_elf_relocs
load_elf file = do
  h ← read_at file 0 52
  let header = file_header h
  require (is_header header) bad_header
  segments ← read_at file header.e_phoff (header.e_phentsize * header.e_phnum)
  sections ← read_at file header.e_shoff (header.e_shentsize * header.e_shnum)
  t ← element 32 segments 0
  require (is_text (segment t)) bad_text
  d ← element 32 segments 1
  require (is_data (segment t).p_filesz (segment d)) bad_data
  let layout = layout_of (segment t) (segment d)
  rel_data ← load_elf_relocs file (record { number = header.e_shnum; bytes = sections }) layout
  ok (record { layout = layout; rel_data = rel_data })
