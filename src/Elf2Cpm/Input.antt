-- ===== src/Elf2Cpm/Input.antt =====
-- The reading of the ELF file by tools/elf2cpm68k.c. The file is the list of its bytes.
use libgloss_cpm68k.Prelude.{ℕ, ◌+◌, ◌*◌, List, ltb, leb, ◌==◌, if◌then◌else◌, take, drop, length}
use libgloss_cpm68k.Elf2Cpm.Outcome.{
  Outcome, ok, failed, ◌>>=◌, ◌>>◌, require, within, short_read, invalid_section,
}
use libgloss_cpm68k.Elf2Cpm.Headers.{Section, section}

-- `read_at` at an offset that is not negative: an offset is a `long` of 64 bits, and a file offset
-- of 32
unfoldable pub read_at : List ℕ → ℕ → ℕ → Outcome (List ℕ)
read_at file offset count =
    let bytes = take count (drop offset file) in
    if length bytes == count then ok bytes else failed short_read

-- element `i` of an array of structures of `size` bytes, `p + i` dereferenced
unfoldable pub element : ℕ → List ℕ → ℕ → Outcome (List ℕ)
element size bytes i = do
  within (leb (size * i + size) (length bytes))
  ok (take size (drop (size * i) bytes))

-- `ef->sections` with its number of elements; both are as read from the file
pub record Sections : Type 0 where
  pub number : ℕ
  pub bytes : List ℕ

-- `elf_section_header`
unfoldable pub elf_section_header : Sections → ℕ → Outcome Section
unfolding element
elf_section_header ss index = do
  require (ltb index ss.number) invalid_section
  bytes ← element 40 ss.bytes index
  ok (section bytes)

-- `elf_section_data`; the copy that it keeps of a section's data is that data, read again
unfoldable pub elf_section_data : List ℕ → Sections → ℕ → Outcome (List ℕ)
unfolding element read_at
elf_section_data file ss index = do
  bytes ← element 40 ss.bytes index
  read_at file (section bytes).sh_offset (section bytes).sh_size
