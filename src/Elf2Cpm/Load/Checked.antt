-- ===== src/Elf2Cpm/Load/Checked.antt =====
-- `load_elf`: what the checks guarantee where it returns, and where in the file it took it from.
use libgloss_cpm68k.Prelude.{
  ℕ, zero, suc, ◌+◌, ◌*◌, ◌^◌, ◌<◌, ◌≤◌, ◌≡◌, refl, sym, ap, ◌∙◌, inl, inr, true, List, [], ◌∷◌,
  ◌==◌, ==_iff, leb, take, drop, length, length-take, length-drop, drop-drop, arith, Bool-cases,
}
use mathlib.Core.Path.{subst}
use libgloss_cpm68k.Elf2Cpm.Outcome.{Outcome, ok, ok-injective, ◌>>=◌, require-eq-ok, >>=-eq-ok}
use libgloss_cpm68k.Elf2Cpm.Field.{IsBytes, IsBytes-take, IsBytes-drop, read32-lt}
use libgloss_cpm68k.Elf2Cpm.Headers.{FileHeader, file_header, Segment, segment}
use libgloss_cpm68k.Elf2Cpm.Input.{Sections, read_at, element}
use libgloss_cpm68k.Elf2Cpm.Relocs.{Layout, load_elf_relocs}
use libgloss_cpm68k.Elf2Cpm.Relocs.Entries.{IsSource, IsTable, load_elf_relocs-IsTable}
use libgloss_cpm68k.Elf2Cpm.Relocs.Order.{IsAscending}
use libgloss_cpm68k.Elf2Cpm.Load.{ElfFile, is_header, is_text, is_data, layout_of, load_elf}

-- the header of the file, its program header `i` and its table of section headers, where the header
-- says that they are
abbrev pub header_of : List ℕ → FileHeader
header_of file = file_header (take 52 file)

abbrev pub segment_of : List ℕ → ℕ → Segment
segment_of file i = segment (take 32 (drop ((header_of file).e_phoff + 32 * i) file))

abbrev pub sections_of : List ℕ → Sections
sections_of file =
    let h = header_of file in
    record { number = h.e_shnum; bytes = take (40 * h.e_shnum) (drop h.e_shoff file) }

-- the fields are 32-bit words, and the data is not below the text's end
pub record IsLayout (l : Layout) : Type 0 where
  pub behind : l.text_filesize ≤ l.data_vmaddr
  pub vmaddr_lt : l.data_vmaddr < 2 ^ 32
  pub filesize_lt : l.data_filesize < 2 ^ 32
  pub bss_lt : l.bss_memsize < 2 ^ 32

pub record IsLoaded (file : List ℕ) (ef : ElfFile) : Type 0 where
  pub header : is_header (header_of file) ≡ true
  pub segments_inside : (header_of file).e_phoff + 64 ≤ length file
  pub sections_inside : (header_of file).e_shoff + 40 * (header_of file).e_shnum ≤ length file
  pub text : is_text (segment_of file 0) ≡ true
  pub contents : is_data (segment_of file 0).p_filesz (segment_of file 1) ≡ true
  pub taken : ef.layout ≡ layout_of (segment_of file 0) (segment_of file 1)
  pub layout : IsLayout ef.layout
  pub table : IsTable (IsSource file (sections_of file)) ef.layout ef.rel_data
  pub ascending : IsAscending ef.rel_data

layout_of-IsLayout :
    (t d : List ℕ)
    → IsBytes d
    → is_data (segment t).p_filesz (segment d) ≡ true
    → IsLayout (layout_of (segment t) (segment d))
unfolding is_data segment
layout_of-IsLayout t d h checked = record {
  behind = ground arith;
  vmaddr_lt = read32-lt d 8 h;
  filesize_lt = read32-lt d 16 h;
  bss_lt = omega arith;
}

take-take : (b n : ℕ) (s : List ℕ) → b ≤ n → take b (take n s) ≡ take b s
take-take zero n s h = refl
take-take (suc b) zero s h = elim h [ ]
take-take (suc b) (suc n) [] h = refl
take-take (suc b) (suc n) (x ∷ s) h = ap (λ (t : List ℕ). x ∷ t) (take-take b n s (omega arith))

-- a part of the first `n` bytes
take-drop-take :
    (a b n : ℕ) (s : List ℕ) → a + b ≤ n → take b (drop a (take n s)) ≡ take b (drop a s)
take-drop-take zero b n s h = take-take b n s (omega arith)
take-drop-take (suc a) b zero s h = absurd (omega arith)
take-drop-take (suc a) b (suc n) [] h = refl
take-drop-take (suc a) b (suc n) (x ∷ s) h = take-drop-take a b n s (omega arith)

-- a step of the chain that read from the file, or from an array
module _ {A : Type 0} {a : A} where
  read_at-then :
      (file : List ℕ) (offset count : ℕ) (next : List ℕ → Outcome A)
      → (read_at file offset count >>= next) ≡ ok a
      → (length (take count (drop offset file)) ≡ count)
        × (next (take count (drop offset file)) ≡ ok a)
  unfolding read_at
  read_at-then file offset count next h =
      elim (Bool-cases (length (take count (drop offset file)) == count)) [
        | inl e ↦ ((==_iff _ count).0 e, rw e at h)
        | inr e ↦ let g = rw e at h in cc
      ]

  element-then :
      (size i : ℕ) (s : List ℕ) (next : List ℕ → Outcome A)
      → (element size s i >>= next) ≡ ok a
      → (size * i + size ≤ length s) × (next (take size (drop (size * i) s)) ≡ ok a)
  unfolding element
  element-then size i s next h = elim (Bool-cases (leb (size * i + size) (length s))) [
    | inl e ↦ (ground arith, rw e at h)
    | inr e ↦ let g = rw e at h in cc
  ]

header_sizes :
    (h : FileHeader)
    → is_header h ≡ true
    → (h.e_phentsize ≡ 32) × (h.e_shentsize ≡ 40) × (2 ≤ h.e_shnum)
unfolding is_header
header_sizes h e = ground arith

read_inside :
    (file : List ℕ) (offset count : ℕ)
    → 0 < count
    → length (take count (drop offset file)) ≡ count
    → offset + count ≤ length file
read_inside file offset count p e =
    omega (arith, e, p, length-take count (drop offset file), length-drop offset file)

-- element `i` of the program headers that were read, in the file
segment_read :
    (file : List ℕ) (offset count i : ℕ)
    → 32 * i + 32 ≤ count
    → take 32 (drop (32 * i) (take count (drop offset file)))
      ≡ take 32 (drop (offset + 32 * i) file)
segment_read file offset count i le =
    take-drop-take (32 * i) 32 count (drop offset file) le
    ∙ ap (take 32) (drop-drop (32 * i) offset file)

-- the parts that were read and checked, with `n` bytes of program headers
module _ (file : List ℕ) (bytes : IsBytes file) (n : ℕ) where
  abbrev segments_read : List ℕ
  segments_read = take n (drop (header_of file).e_phoff file)

  abbrev segment_at : ℕ → List ℕ
  segment_at i = take 32 (drop (32 * i) segments_read)

  abbrev sections_read : Sections
  sections_read =
      let h = header_of file in
      record { number = h.e_shnum; bytes = take (h.e_shentsize * h.e_shnum) (drop h.e_shoff file) }

  abbrev layout_read : Layout
  layout_read = layout_of (segment (segment_at 0)) (segment (segment_at 1))

  assembled :
      (rel_data : List ℕ)
      → is_header (header_of file) ≡ true
      → length segments_read ≡ n
      → 64 ≤ n
      → length sections_read.bytes ≡ (header_of file).e_shentsize * (header_of file).e_shnum
      → is_text (segment (segment_at 0)) ≡ true
      → is_data (segment (segment_at 0)).p_filesz (segment (segment_at 1)) ≡ true
      → load_elf_relocs file sections_read layout_read ≡ ok rel_data
      → IsLoaded file (record { layout = layout_read; rel_data = rel_data })
  assembled rel_data header got two got_sections text contents relocs =
      let H = header_of file in
      let (phsize, shsize, shnum) = header_sizes H header in
      let et : segment (segment_at 0) ≡ segment_of file 0 =
        ap segment (segment_read file H.e_phoff n 0 (omega (arith, two))) in
      let ed : segment (segment_at 1) ≡ segment_of file 1 =
        ap segment (segment_read file H.e_phoff n 1 (omega (arith, two))) in
      let size : H.e_shentsize * H.e_shnum ≡ 40 * H.e_shnum =
        ap (λ (k : ℕ). k * H.e_shnum) shsize in
      let es : sections_read ≡ sections_of file =
        ap
          (λ (k : ℕ).
            let s : Sections = record {
              number = H.e_shnum;
              bytes = take k (drop H.e_shoff file);
            } in
            s)
          size in
      let found = load_elf_relocs-IsTable file _ _ rel_data relocs in
      let from : IsBytes (segment_at 1) = IsBytes-take 32 (drop (32 * 1) segments_read) (
        IsBytes-drop (32 * 1) segments_read
          (IsBytes-take n (drop H.e_phoff file) (IsBytes-drop H.e_phoff file bytes))) in
      record {
        header = header;
        segments_inside = omega (arith, two, read_inside file H.e_phoff n (omega (arith, two)) got);
        sections_inside = omega (
          arith,
          size,
          read_inside file H.e_shoff (H.e_shentsize * H.e_shnum) (omega (arith, size, shnum))
              got_sections,
        );
        text = ap is_text (sym et) ∙ text;
        contents = sym (λ i. is_data (et i).p_filesz (ed i)) ∙ contents;
        taken = λ i. layout_of (et i) (ed i);
        layout = layout_of-IsLayout (segment_at 0) (segment_at 1) from contents;
        table = subst (λ (s : Sections). IsTable (IsSource file s) layout_read rel_data) es found.0;
        ascending = found.1;
      }

-- Where `load_elf` returns on a file of bytes, the file starts with an ELF header that it accepts,
-- and has two program headers and the table of section headers where this header says; the first
-- program header is a text segment, the second a data segment, and the offsets, sizes and addresses
-- taken are those of the two. The sizes are 32-bit words, the data starts no lower than the text
-- ends, there are fewer than `MAX_RELOCS` relocations, each is one of the file, found through that
-- table, with the region its symbol's value lies in, and their addresses never fall.
pub load_elf-IsLoaded :
    (file : List ℕ) (ef : ElfFile) → IsBytes file → load_elf file ≡ ok ef → IsLoaded file ef
unfolding load_elf
load_elf-IsLoaded file ef bytes h =
    let H = header_of file in
    let n = H.e_phentsize * H.e_phnum in
    let (_, h1) = read_at-then file 0 52 _ h in
    let (header, h2) = require-eq-ok (is_header H) _ _ h1 in
    let (got_segments, h3) = read_at-then file H.e_phoff n _ h2 in
    let (got_sections, h4) = read_at-then file H.e_shoff (H.e_shentsize * H.e_shnum) _ h3 in
    let (_, h5) = element-then 32 0 (segments_read file bytes n) _ h4 in
    let (text, h6) = require-eq-ok (is_text (segment (segment_at file bytes n 0))) _ _ h5 in
    let (two, h7) = element-then 32 1 (segments_read file bytes n) _ h6 in
    let (contents, h8) =
      require-eq-ok
        (is_data (segment (segment_at file bytes n 0)).p_filesz
          (segment (segment_at file bytes n 1)))
        _ _ h7 in
    let (rel_data, relocs, h9) =
      >>=-eq-ok (load_elf_relocs file (sections_read file bytes n) (layout_read file bytes n)) _
        h8 in
    subst (IsLoaded file) (ok-injective h9) (
      assembled file bytes n rel_data header got_segments (omega (arith, got_segments, two))
        got_sections text contents relocs)
