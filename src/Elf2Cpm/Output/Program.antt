-- ===== src/Elf2Cpm/Output/Program.antt =====
-- The program file as CP/M-68K reads it: the parts that its header delimits.
use libgloss_cpm68k.Prelude.{
  ℕ, zero, suc, ◌≡◌, refl, ap, true, List, [], ◌∷◌, ◌++◌, ltb, ◌==◌, if◌then◌else◌, length, take,
  drop, arith,
}
use libgloss_cpm68k.Elf2Cpm.Field.{read16, read32, write16, write32}
use libgloss_cpm68k.Elf2Cpm.Relocs.{Layout}
use libgloss_cpm68k.Elf2Cpm.Load.{ElfFile}
use libgloss_cpm68k.Elf2Cpm.Load.Checked.{IsLayout}
use libgloss_cpm68k.Elf2Cpm.Output.{exec_header}
use libgloss_cpm68k.Elf2Cpm.Output.Stream.{relocations}

pub record Program : Type 0 where
  pub text : List ℕ
  pub contents : List ℕ
  pub bss_size : ℕ
  pub relocs : List ℕ

-- the program of a file in one contiguous piece; the relocation words are there where the flags
-- of the header are 0
unfoldable pub read_program : List ℕ → Program
unfolding read16 read32 relocations
read_program file =
    let textlen = read32 file 2 in
    let datalen = read32 file 6 in
    let body = drop 28 file in
    record {
      text = take textlen body;
      contents = take datalen (drop textlen body);
      bss_size = read32 file 10;
      relocs = if read16 file 26 == 0 then relocations 0 (drop datalen (drop textlen body)) else [];
    }

module _ {ℓ} {A : Type ℓ} where
  take-append_eq : (n : ℕ) (xs ys : List A) → length xs ≡ n → take n (xs ++ ys) ≡ xs
  take-append_eq zero [] ys h = refl
  take-append_eq zero (x ∷ xs) ys h = absurd (omega arith)
  take-append_eq (suc n) [] ys h = absurd (omega arith)
  take-append_eq (suc n) (x ∷ xs) ys h =
      ap (λ (t : List A). x ∷ t) (take-append_eq n xs ys (omega arith))

  drop-append_eq : (n : ℕ) (xs ys : List A) → length xs ≡ n → drop n (xs ++ ys) ≡ ys
  drop-append_eq zero [] ys h = refl
  drop-append_eq zero (x ∷ xs) ys h = absurd (omega arith)
  drop-append_eq (suc n) [] ys h = absurd (omega arith)
  drop-append_eq (suc n) (x ∷ xs) ys h = drop-append_eq n xs ys (omega arith)

-- the fields of the header
header_body : (ef : ElfFile) (body : List ℕ) → drop 28 (exec_header ef ++ body) ≡ body
unfolding exec_header write16 write32
header_body ef body = refl

header_textlen :
    (ef : ElfFile) (body : List ℕ)
    → IsLayout ef.layout
    → read32 (exec_header ef ++ body) 2 ≡ ef.layout.data_vmaddr
unfolding exec_header write16 write32 read32
header_textlen ef body h = omega (arith, h.behind, h.vmaddr_lt)

header_datalen :
    (ef : ElfFile) (body : List ℕ)
    → IsLayout ef.layout
    → read32 (exec_header ef ++ body) 6 ≡ ef.layout.data_filesize
unfolding exec_header write16 write32 read32
header_datalen ef body h = omega (arith, h.filesize_lt)

header_bsslen :
    (ef : ElfFile) (body : List ℕ)
    → IsLayout ef.layout
    → read32 (exec_header ef ++ body) 10 ≡ ef.layout.bss_memsize
unfolding exec_header write16 write32 read32
header_bsslen ef body h = omega (arith, h.bss_lt)

positive : (n : ℕ) → ltb 0 (suc n) ≡ true
positive n = ground arith

header_flags :
    (l : Layout) (rel_data body : List ℕ)
    → let header = exec_header (record { layout = l; rel_data = rel_data }) in
      (read16 (header ++ body) 26 == 0) ≡ ltb 0 (length rel_data)
unfolding exec_header write16 write32 read16
header_flags l [] body = refl
header_flags l (v ∷ vs) body = simp (positive (length vs)) refl

if_empty :
    (rel_data words : List ℕ)
    → relocations 0 words ≡ rel_data
    → (if ltb 0 (length rel_data) then relocations 0 words else []) ≡ rel_data
if_empty [] words h = refl
if_empty (v ∷ vs) words h = rw (positive (length vs)) h

-- the parts that the header delimits, in the order in which they are written
pub read_program_parts :
    (l : Layout) (rel_data text contents words : List ℕ)
    → IsLayout l
    → length text ≡ l.data_vmaddr
    → length contents ≡ l.data_filesize
    → relocations 0 words ≡ rel_data
    → read_program
        (exec_header (record { layout = l; rel_data = rel_data }) ++ (text ++ (contents ++ words)))
      ≡ record { text = text; contents = contents; bss_size = l.bss_memsize; relocs = rel_data }
unfolding read_program
read_program_parts l rel_data text contents words h t c r =
    let ef : ElfFile = record { layout = l; rel_data = rel_data } in
    let body = text ++ (contents ++ words) in
    rw
      (
        header_textlen ef body h,
        header_datalen ef body h,
        header_bsslen ef body h,
        header_flags l rel_data body,
        header_body ef body,
        take-append_eq l.data_vmaddr text (contents ++ words) t,
        drop-append_eq l.data_vmaddr text (contents ++ words) t,
        take-append_eq l.data_filesize contents words c,
        drop-append_eq l.data_filesize contents words c,
        if_empty rel_data words r,
      )
      refl
