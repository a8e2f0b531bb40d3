-- ===== src/Tests/Converter.antt =====
-- The theorems on the converter at a small program: six bytes of text with one relocation, which
-- points to the data, two bytes of padding, four bytes of data and four of bss.
use libgloss_cpm68k.Prelude.{
  ◌*◌, zero, suc, ap, sym, ◌∙◌, ◌≢◌, ℕ, ◌+◌, ◌/◌, ◌%◌, ◌^◌, ◌<◌, ◌≤◌, ◌≡◌, refl, List, [], ◌∷◌,
  ◌++◌, length, replicate, take, arith,
}
use libgloss_cpm68k.Elf2Cpm.Outcome.{ok-injective, stray, ok, failed, short_read}
use libgloss_cpm68k.Elf2Cpm.Field.{read16, read32, IsBytes}
use libgloss_cpm68k.Elf2Cpm.Headers.{section, Section, rela, rel_sym}
use libgloss_cpm68k.Elf2Cpm.Input.{element, elf_section_header, elf_section_data, Sections, read_at}
use libgloss_cpm68k.Elf2Cpm.Relocs.{Layout, load_elf_relocs}
use libgloss_cpm68k.Elf2Cpm.Relocs.Entries.{IsSource, IsTable, load_elf_relocs-IsTable}
use libgloss_cpm68k.Elf2Cpm.Relocs.InBounds.{
  IsLinked, element_inside, header_inside, load_elf_relocs-ne-stray,
}
use libgloss_cpm68k.Elf2Cpm.Relocs.Order.{IsAscending}
use libgloss_cpm68k.Elf2Cpm.Load.{ElfFile, load_elf}
use libgloss_cpm68k.Elf2Cpm.Load.Checked.{IsLoaded, load_elf-IsLoaded}
use libgloss_cpm68k.Elf2Cpm.Output.{
  exec_header, wrote, complete, copy_bytes, convert, write_relocs_from,
}
use libgloss_cpm68k.Elf2Cpm.Output.Copying.{copy_bytes-read_at}
use libgloss_cpm68k.Elf2Cpm.Output.Stream.{relocations, relocations-write_relocs_from}
use libgloss_cpm68k.Elf2Cpm.Output.Convert.{
  IsProgramFile, read_program-convert, convert-IsInFile, program_of, convert_cut,
}

abbrev half : ℕ → List ℕ
half v = (v / 256) ∷ (v % 256) ∷ []

abbrev word : ℕ → List ℕ
word v = 0 ∷ 0 ∷ (v / 256) ∷ (v % 256) ∷ []

abbrev elf_header : List ℕ
elf_header =
    (0x7f ∷ b'E' ∷ b'L' ∷ b'F' ∷ 1 ∷ 2 ∷ 1 ∷ replicate 9 0)
    ++ half 2
    ++ half 4
    ++ word 1
    ++ word 0
    ++ word 52
    ++ word 116
    ++ word 0
    ++ half 52
    ++ half 32
    ++ half 2
    ++ half 40
    ++ half 4
    ++ half 0

-- with the data at `offset` of the file
abbrev elf_segments_with : ℕ → List ℕ
elf_segments_with offset =
    word 1
    ++ word 276
    ++ word 0
    ++ word 0
    ++ word 6
    ++ word 6
    ++ word 5
    ++ word 2
    ++ word 1
    ++ word offset
    ++ word 8
    ++ word 8
    ++ word 4
    ++ word 8
    ++ word 6
    ++ word 2

abbrev elf_sections : List ℕ
elf_sections =
    replicate 40 0
    ++ word 0
    ++ word 1
    ++ word 6
    ++ word 0
    ++ word 276
    ++ word 6
    ++ word 0
    ++ word 0
    ++ word 2
    ++ word 0
    ++ word 0
    ++ word 4
    ++ word 0
    ++ word 0
    ++ word 286
    ++ word 12
    ++ word 3
    ++ word 1
    ++ word 4
    ++ word 12
    ++ word 0
    ++ word 2
    ++ word 0
    ++ word 0
    ++ word 298
    ++ word 16
    ++ word 0
    ++ word 0
    ++ word 4
    ++ word 16

abbrev elf_contents : List ℕ
elf_contents =
    (0x4e ∷ 0xb9 ∷ 0 ∷ 0 ∷ 0 ∷ 8 ∷ [])
    ++ (1 ∷ 2 ∷ 3 ∷ 4 ∷ [])
    ++ word 2
    ++ word 1
    ++ word 0
    ++ word 0
    ++ word 8
    ++ word 0
    ++ (0x10 ∷ 0 ∷ 0 ∷ 2 ∷ [])

abbrev elf_with : ℕ → List ℕ
elf_with offset = elf_header ++ elf_segments_with offset ++ elf_sections ++ elf_contents

abbrev elf : List ℕ
elf = elf_with 282

abbrev elf_layout : Layout
elf_layout = record {
  text_offset = 276;
  text_filesize = 6;
  data_offset = 282;
  data_vmaddr = 8;
  data_filesize = 4;
  bss_memsize = 4;
}

abbrev elf_relocs : List ℕ
elf_relocs = (2 + 2 ^ 28) ∷ []

abbrev ef : ElfFile
ef = record { layout = elf_layout; rel_data = elf_relocs }

elf_loaded : load_elf elf ≡ ok ef
unfolding load_elf read16 read32 section
elf_loaded = refl

abbrev cpm : List ℕ
cpm =
    half 0x601a
    ++ word 8
    ++ word 4
    ++ word 4
    ++ word 0
    ++ word 0
    ++ word 0
    ++ half 0
    ++ (0x4e ∷ 0xb9 ∷ 0 ∷ 0 ∷ 0 ∷ 8 ∷ 0 ∷ 0 ∷ 1 ∷ 2 ∷ 3 ∷ 4 ∷ [])
    ++ (0 ∷ 0 ∷ 0 ∷ 5 ∷ 0 ∷ 1 ∷ replicate 6 0)

elf_converted : convert elf ≡ ok (wrote cpm)
unfolding convert read16 read32 section
elf_converted = refl

-- without its last byte, which is one of the symbol table
elf_cut : convert (take 313 elf) ≡ failed short_read
unfolding convert read16 read32 section
elf_cut = refl

elf-IsBytes : IsBytes elf
elf-IsBytes = omega arith

read_program-convert_example :
    (out : List ℕ) × (convert elf ≡ ok (wrote out)) × IsProgramFile elf ef out
read_program-convert_example =
    read_program-convert elf ef elf-IsBytes elf_loaded
      (record { text = omega arith; contents = omega arith })
      (record { room = omega arith; spaced = (omega arith, refl, omega arith) })

convert-IsInFile_example :
    (ef : ElfFile) × (load_elf elf ≡ ok ef)
    × (0 < ef.layout.text_filesize → ef.layout.text_offset + ef.layout.text_filesize ≤ length elf)
    × (0 < ef.layout.data_filesize → ef.layout.data_offset + ef.layout.data_filesize ≤ length elf)
convert-IsInFile_example = convert-IsInFile elf cpm elf_converted

-- the data should be at 312, but the file ends at 314
abbrev short : List ℕ
short = elf_with 312

abbrev short_ef : ElfFile
short_ef = record { layout = record elf_layout { data_offset = 312 }; rel_data = elf_relocs }

short_loaded : load_elf short ≡ ok short_ef
unfolding load_elf read16 read32 section
short_loaded = refl

short-IsBytes : IsBytes short
short-IsBytes = omega arith

convert_cut_example :
    convert short
    ≡ ok (record {
      out = exec_header short_ef ++ ((program_of short short_ef).text ++ []);
      ended = failed short_read;
    })
convert_cut_example =
    convert_cut short short_ef short-IsBytes short_loaded (omega arith) (omega arith) (omega arith)

load_elf-IsLoaded_example : IsLoaded elf ef
load_elf-IsLoaded_example = load_elf-IsLoaded elf ef elf-IsBytes elf_loaded

copy_bytes-read_at_example : complete (copy_bytes elf 276 6) ≡ read_at elf 276 6
copy_bytes-read_at_example = copy_bytes-read_at elf 276 6

relocations-write_relocs_from_example :
    relocations 0 (write_relocs_from elf_layout 0 elf_relocs) ≡ elf_relocs
relocations-write_relocs_from_example =
    relocations-write_relocs_from elf_layout 0 elf_relocs refl (omega arith)
      (omega arith, refl, omega arith)

abbrev elf_section_table : Sections
elf_section_table = record { number = 4; bytes = elf_sections }

elf_relocs_loaded : load_elf_relocs elf elf_section_table elf_layout ≡ ok elf_relocs
unfolding load_elf_relocs read32 section
elf_relocs_loaded = refl

load_elf_relocs-IsTable_example :
    IsTable (IsSource elf elf_section_table) elf_layout elf_relocs × IsAscending elf_relocs
load_elf_relocs-IsTable_example =
    load_elf_relocs-IsTable elf elf_section_table elf_layout elf_relocs elf_relocs_loaded

abbrev elf_rela : List ℕ
elf_rela = word 2 ++ word 1 ++ word 0

abbrev elf_symbols : List ℕ
elf_symbols = word 0 ++ word 8 ++ word 0 ++ (0x10 ∷ 0 ∷ 0 ∷ 2 ∷ [])

rela_read : elf_section_data elf elf_section_table 2 ≡ ok elf_rela
unfolding elf_section_data section read32
rela_read = refl

symbols_read : elf_section_data elf elf_section_table 3 ≡ ok elf_symbols
unfolding elf_section_data section read32
symbols_read = refl

first_read : element 12 elf_rela 0 ≡ ok elf_rela
unfolding element
first_read = refl

first_symbol : rel_sym (rela elf_rela) ≡ 0
unfolding rela read32
first_symbol = refl

symbol_inside :
    (sh : Section) (rels symtab r : List ℕ) (i : ℕ)
    → sh.sh_link ≡ 3
    → elf_section_data elf elf_section_table 2 ≡ ok rels
    → elf_section_data elf elf_section_table sh.sh_link ≡ ok symtab
    → element 12 rels i ≡ ok r
    → 16 * rel_sym (rela r) + 16 ≤ length symtab
symbol_inside sh rels symtab r i link a b found =
    let same : elf_rela ≡ rels = ok-injective (sym rela_read ∙ a) in
    let there : elf_symbols ≡ symtab = ok-injective (
      sym symbols_read ∙ ap (λ (k : ℕ). elf_section_data elf elf_section_table k) (sym link) ∙ b) in
    let room = element_inside 12 rels i r found in
    let first : i ≡ 0 = omega (arith, room, ap length same) in
    let one : elf_rela ≡ r = ok-injective (
      sym first_read
      ∙ ap (λ (t : List ℕ). element 12 t 0) same
      ∙ ap (λ (k : ℕ). element 12 rels k) (sym first)
      ∙ found) in
    let zero_symbol : rel_sym (rela r) ≡ 0 =
      ap (λ (t : List ℕ). rel_sym (rela t)) (sym one) ∙ first_symbol in
    omega (arith, zero_symbol, ap length there)

-- the one section of relocations is linked to the symbols
IsLinked-two :
    (sh : Section)
    → elf_section_header elf_section_table 2 ≡ ok sh
    → IsLinked elf elf_section_table refl 2 sh
unfolding elf_section_header section read32
IsLinked-two sh e =
    let same = ok-injective e in
    record {
      link = omega (arith, ap (λ (s : Section). s.sh_link) same);
      entries = omega (arith, ap (λ (s : Section). s.sh_entsize) same);
      symbols = λ rels symtab r i a b found.
          symbol_inside sh rels symtab r i (sym (ap (λ (s : Section). s.sh_link) same)) a b found;
    }

IsLinked-sections :
    (i : ℕ) (sh : Section)
    → elf_section_header elf_section_table i ≡ ok sh
    → sh.sh_type ≡ 4
    → IsLinked elf elf_section_table refl i sh
unfolding elf_section_header section read32
IsLinked-sections zero sh e t =
    absurd (omega (arith, ap (λ (s : Section). s.sh_type) (ok-injective e), t))
IsLinked-sections (suc zero) sh e t =
    absurd (omega (arith, ap (λ (s : Section). s.sh_type) (ok-injective e), t))
IsLinked-sections (suc (suc zero)) sh e t = IsLinked-two sh e
IsLinked-sections (suc (suc (suc zero))) sh e t =
    absurd (omega (arith, ap (λ (s : Section). s.sh_type) (ok-injective e), t))
IsLinked-sections (suc (suc (suc (suc i)))) sh e t =
    absurd (omega (arith, header_inside elf_section_table (suc (suc (suc (suc i)))) sh e))

load_elf_relocs-ne-stray_example : load_elf_relocs elf elf_section_table elf_layout ≢ stray
load_elf_relocs-ne-stray_example =
    load_elf_relocs-ne-stray elf elf_section_table refl elf_layout IsLinked-sections
