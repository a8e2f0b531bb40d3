-- ===== src/Elf2Cpm/Relocs.antt =====
-- `load_elf_relocs` of tools/elf2cpm68k.c: the relocations of the loaded sections. An element of
-- `rel_data` is the address of a pointer with the number of the region it points to in bits 28, 29.
pub mod Order
pub mod InBounds
pub mod Entries
use libgloss_cpm68k.Prelude.{
  ℕ, zero, suc, ◌+◌, ◌-◌, ◌*◌, ◌/◌, ◌%◌, ◌^◌, Bool, true, false, ◌&&◌, ◌||◌, List, [], ◌∷◌, ◌++◌,
  ltb, leb, ◌==◌, if◌then◌else◌, length,
}
use libgloss_cpm68k.Prelude.Words.{add_long}
use libgloss_cpm68k.Elf2Cpm.Outcome.{
  Outcome, ok, failed, ◌>>=◌, ◌>>◌, require, rel_section, zero_entry_size, too_many_relocs,
  unsupported_reloc, bad_target, too_large, not_sorted,
}
use libgloss_cpm68k.Elf2Cpm.Headers.{Section, rela, rel_sym, rel_type, symbol, st_bind}
use libgloss_cpm68k.Elf2Cpm.Input.{Sections, element, elf_section_header, elf_section_data}

-- the sizes and places of `elf_file_t` that `load_elf` takes from the two segments
pub record Layout : Type 0 where
  pub text_offset : ℕ
  pub text_filesize : ℕ
  pub data_offset : ℕ
  pub data_vmaddr : ℕ
  pub data_filesize : ℕ
  pub bss_memsize : ℕ

abbrev pub max_relocs : ℕ
max_relocs = 5000

-- `REL_TYPE_DATA`, `REL_TYPE_TEXT` and `REL_TYPE_BSS` behind the shift
abbrev pub rel_type_data : ℕ
rel_type_data = 1

abbrev pub rel_type_text : ℕ
rel_type_text = 2

abbrev pub rel_type_bss : ℕ
rel_type_bss = 3

-- `(v & REL_TYPE_MASK) >> REL_TYPE_SHIFT`
abbrev pub type_of : ℕ → ℕ
type_of v = v / 2 ^ 28 % 4

-- `v & ~REL_TYPE_MASK`
abbrev pub addr_of : ℕ → ℕ
addr_of v = v - type_of v * 2 ^ 28

-- what a relocated pointer refers to
unfoldable pub target_type : Layout → ℕ → Outcome ℕ
target_type l target =
    let data_end = add_long l.data_vmaddr l.data_filesize in
    if ltb target l.text_filesize
    then ok rel_type_text
    else if leb l.data_vmaddr target && leb target data_end
    then ok rel_type_data
    else if leb target (add_long data_end l.bss_memsize)
    then ok rel_type_bss
    else failed bad_target

-- the end of a round: the relocation is recorded behind the others
unfoldable pub record_reloc : Layout → ℕ → ℕ → List ℕ → Outcome (List ℕ)
unfolding target_type
record_reloc l offset target rel_data = do
  require (ltb (length rel_data + 1) max_relocs) too_many_relocs
  type ← target_type l target
  require (type_of offset == 0) too_large
  ok (rel_data ++ ((offset + type * 2 ^ 28) ∷ []))

-- a round from `switch (rel_type)` on
unfoldable pub apply_type : Layout → ℕ → ℕ → ℕ → List ℕ → Outcome (List ℕ)
unfolding record_reloc
apply_type l type offset target rel_data =
    if type == 1
    then record_reloc l offset target rel_data
    else if type == 4 || type == 0
    then ok rel_data
    else failed unsupported_reloc

-- one round of the loop on the relocations of a section
unfoldable pub relocate : Layout → List ℕ → List ℕ → ℕ → List ℕ → Outcome (List ℕ)
unfolding element apply_type rela symbol
relocate l rels symtab i rel_data = do
  r ← element 12 rels i
  s ← element 16 symtab (rel_sym (rela r))
  if (symbol s).st_value == 0 && st_bind (symbol s) == 2
      then ok rel_data
      else apply_type l (rel_type (rela r)) (rela r).rel_offset (symbol s).st_value rel_data

-- `n` rounds from relocation `i` on
unfoldable pub relocate_from : Layout → List ℕ → List ℕ → ℕ → ℕ → List ℕ → Outcome (List ℕ)
unfolding relocate
relocate_from l rels symtab zero i rel_data = ok rel_data
relocate_from l rels symtab (suc n) i rel_data = do
  rel_data' ← relocate l rels symtab i rel_data
  relocate_from l rels symtab n (i + 1) rel_data'

-- a section of type `SHT_RELA`
unfoldable pub load_rela : List ℕ → Sections → Layout → ℕ → Section → List ℕ → Outcome (List ℕ)
unfolding elf_section_header elf_section_data relocate_from
load_rela file ss l index sh rel_data = do
  target ← elf_section_header ss sh.sh_info
  if target.sh_flags / 2 % 2 == 0 then ok rel_data else do
    rels ← elf_section_data file ss index
    symtab ← elf_section_data file ss sh.sh_link
    require (ltb 0 sh.sh_entsize) zero_entry_size
    relocate_from l rels symtab (sh.sh_size / sh.sh_entsize) 0 rel_data

-- one round of the loop on the sections
unfoldable pub scan_section : List ℕ → Sections → Layout → ℕ → List ℕ → Outcome (List ℕ)
unfolding elf_section_header load_rela
scan_section file ss l index rel_data = do
  sh ← elf_section_header ss index
  if sh.sh_type == 4
      then load_rela file ss l index sh rel_data
      else if sh.sh_type == 9
      then failed rel_section
      else ok rel_data

unfoldable pub scan_sections : List ℕ → Sections → Layout → ℕ → ℕ → List ℕ → Outcome (List ℕ)
unfolding scan_section
scan_sections file ss l zero index rel_data = ok rel_data
scan_sections file ss l (suc n) index rel_data = do
  rel_data' ← scan_section file ss l index rel_data
  scan_sections file ss l n (index + 1) rel_data'

-- the last loop, from the element behind one of address `prev` on
unfoldable pub in_order : ℕ → List ℕ → Bool
in_order prev [] = true
in_order prev (v ∷ vs) = leb prev (addr_of v) && in_order (addr_of v) vs

unfoldable pub is_sorted : List ℕ → Bool
unfolding in_order
is_sorted [] = true
is_sorted (v ∷ vs) = in_order (addr_of v) vs

unfoldable pub load_elf_relocs : List ℕ → Sections → Layout → Outcome (List ℕ)
unfolding scan_sections is_sorted
load_elf_relocs file ss l = do
  rel_data ← scan_sections file ss l ss.number 0 []
  require (is_sorted rel_data) not_sorted
  ok rel_data
