-- ===== src/Elf2Cpm/Output/Convert.antt =====
-- The converter as a whole: the program file against the ELF file.
use libgloss_cpm68k.Prelude.{
  ℕ, ◌+◌, ◌-◌, ◌*◌, ◌/◌, ◌^◌, ◌<◌, ◌≤◌, ◌≡◌, refl, sym, ap, ◌∙◌, List, ◌++◌, length, take, drop,
  replicate, length-append, length-replicate, length-take, length-drop, arith, append_assoc,
}
use libgloss_cpm68k.Prelude.Words.{sub_long}
use libgloss_cpm68k.Elf2Cpm.Outcome.{ok, failed, short_read, ok-injective, >>=-eq-ok}
use libgloss_cpm68k.Elf2Cpm.Field.{write16, write32, IsBytes}
use libgloss_cpm68k.Elf2Cpm.Relocs.{Layout}
use libgloss_cpm68k.Elf2Cpm.Load.{ElfFile, load_elf}
use libgloss_cpm68k.Elf2Cpm.Load.Checked.{IsLayout, load_elf-IsLoaded}
use libgloss_cpm68k.Elf2Cpm.Output.{
  Written, wrote, complete, ◌>+◌, zerofill, copy_bytes, write_cpm_relocs, exec_header, write_cpm,
  convert,
}
use libgloss_cpm68k.Elf2Cpm.Output.Copying.{
  read_at_room, copy_bytes-read_at, copy_bytes_room, copy_bytes_short, cut_copy,
}
use libgloss_cpm68k.Elf2Cpm.Output.Ending.{complete-eq-ok, go_on_parts}
use libgloss_cpm68k.Elf2Cpm.Output.Stream.{
  IsSpaced, relocations-write_relocs_from, length-write_relocs_from,
}
use libgloss_cpm68k.Elf2Cpm.Output.Program.{Program, read_program, read_program_parts}

-- the two segments lie in the file
pub record IsInFile (file : List ℕ) (l : Layout) : Type 0 where
  pub text : l.text_offset + l.text_filesize ≤ length file
  pub contents : l.data_offset + l.data_filesize ≤ length file

-- what the program should be: the text up to the start of the data, the data, the size of the bss
-- and the relocations
unfoldable pub program_of : List ℕ → ElfFile → Program
program_of file ef =
    let l = ef.layout in
    record {
      text =
          take l.text_filesize (drop l.text_offset file)
          ++ replicate (l.data_vmaddr - l.text_filesize) 0;
      contents = take l.data_filesize (drop l.data_offset file);
      bss_size = l.bss_memsize;
      relocs = ef.rel_data;
    }

copied_whole :
    (file : List ℕ) (offset count : ℕ)
    → offset + count ≤ length file
    → copy_bytes file offset count ≡ wrote (take count (drop offset file))
copied_whole file offset count room =
    complete-eq-ok (copy_bytes file offset count) _
      (copy_bytes-read_at file offset count ∙ read_at_room file offset count room)

write_cpm_parts :
    (file : List ℕ) (ef : ElfFile)
    → IsLayout ef.layout
    → IsInFile file ef.layout
    → write_cpm file ef
      ≡ wrote (
          exec_header ef
          ++ ((program_of file ef).text ++ ((program_of file ef).contents ++ write_cpm_relocs ef)))
unfolding write_cpm program_of
write_cpm_parts file ef h there =
    let l = ef.layout in
    let a = copied_whole file l.text_offset l.text_filesize there.text in
    let b = copied_whole file l.data_offset l.data_filesize there.contents in
    let pad : sub_long l.data_vmaddr l.text_filesize ≡ l.data_vmaddr - l.text_filesize =
      omega (arith, h.behind, h.vmaddr_lt) in
    let text = take l.text_filesize (drop l.text_offset file) in
    let rest = (program_of file ef).contents ++ write_cpm_relocs ef in
    rw (a, b)
      (ap (λ (t : List ℕ). wrote (exec_header ef ++ t))
        (ap (λ (n : ℕ). text ++ (replicate n 0 ++ rest)) pad
          ∙ sym (append_assoc text (replicate (l.data_vmaddr - l.text_filesize) 0) rest)))

-- the relocations are on even addresses of the program, in order, and do not overlap
pub record IsFitting (ef : ElfFile) : Type 0 where
  pub room : ef.layout.data_vmaddr + ef.layout.data_filesize < 2 ^ 32
  pub spaced : IsSpaced 0 (ef.layout.data_vmaddr + ef.layout.data_filesize) ef.rel_data

-- a program file with its meaning and its size
pub record IsProgramFile (file : List ℕ) (ef : ElfFile) (out : List ℕ) : Type 0 where
  pub meaning : read_program out ≡ program_of file ef
  pub size : length out ≡ 28 + 2 * (ef.layout.data_vmaddr + ef.layout.data_filesize)

length-exec_header : (ef : ElfFile) → length (exec_header ef) ≡ 28
unfolding exec_header write16 write32
length-exec_header ef = refl

length-read :
    (file : List ℕ) (offset count : ℕ)
    → offset + count ≤ length file
    → length (take count (drop offset file)) ≡ count
length-read file offset count h =
    omega (arith, length-take count (drop offset file), length-drop offset file)

length-program_of :
    (file : List ℕ) (ef : ElfFile)
    → IsLayout ef.layout
    → IsInFile file ef.layout
    → (length (program_of file ef).text ≡ ef.layout.data_vmaddr)
      × (length (program_of file ef).contents ≡ ef.layout.data_filesize)
unfolding program_of
length-program_of file ef h there =
    let l = ef.layout in
    let a = length-read file l.text_offset l.text_filesize there.text in
    let b = length-read file l.data_offset l.data_filesize there.contents in
    let pad = length-replicate {A = ℕ} (l.data_vmaddr - l.text_filesize) 0 in
    let sum =
      length-append (take l.text_filesize (drop l.text_offset file))
        (replicate (l.data_vmaddr - l.text_filesize) 0) in
    (omega (arith, a, pad, sum, h.behind), b)

-- Of a file of bytes that `load_elf` accepts, with both segments in the file and relocations that
-- are in order on even addresses of the program and do not overlap, the converter writes a program
-- file. Read as CP/M-68K reads it, it has the text up to the start of the data, the data, the size
-- of the bss and the relocations of the ELF file, and it has 28 bytes and two for each byte of text
-- and data.
pub read_program-convert :
    (file : List ℕ) (ef : ElfFile)
    → IsBytes file
    → load_elf file ≡ ok ef
    → IsInFile file ef.layout
    → IsFitting ef
    → (out : List ℕ) × (convert file ≡ ok (wrote out)) × IsProgramFile file ef out
unfolding convert program_of
read_program-convert file ef bytes loaded there fits =
    let l = ef.layout in
    let h = (load_elf-IsLoaded file ef bytes loaded).layout in
    let p = program_of file ef in
    let (a, b) = length-program_of file ef h there in
    let words = write_cpm_relocs ef in
    let out = exec_header ef ++ (p.text ++ (p.contents ++ words)) in
    (
      out,
      rw loaded (ap (λ (w : Written). ok w) (write_cpm_parts file ef h there)),
      record {
        meaning =
            read_program_parts l ef.rel_data p.text p.contents words h a b
              (relocations-write_relocs_from l 0 ef.rel_data (omega arith) fits.room fits.spaced);
        size = omega (
          arith,
          a,
          b,
          length-exec_header ef,
          length-append (exec_header ef) (p.text ++ (p.contents ++ words)),
          length-append p.text (p.contents ++ words),
          length-append p.contents words,
          length-write_relocs_from l 0 ef.rel_data fits.room fits.spaced,
        );
      },
    )

-- Where the converter writes a program file to its end, it loaded the ELF file, and each segment
-- that is not empty lies in it.
pub convert-IsInFile :
    (file out : List ℕ)
    → convert file ≡ ok (wrote out)
    → (ef : ElfFile) × (load_elf file ≡ ok ef)
      × (0 < ef.layout.text_filesize
          → ef.layout.text_offset + ef.layout.text_filesize ≤ length file)
      × (0 < ef.layout.data_filesize
          → ef.layout.data_offset + ef.layout.data_filesize ≤ length file)
unfolding convert write_cpm
convert-IsInFile file out h =
    let (ef, loaded, h1) = >>=-eq-ok (load_elf file) _ h in
    let l = ef.layout in
    let text = copy_bytes file l.text_offset l.text_filesize in
    let contents = copy_bytes file l.data_offset l.data_filesize in
    let pad = wrote (zerofill (sub_long l.data_vmaddr l.text_filesize)) in
    let behind = contents >+ wrote (write_cpm_relocs ef) in
    let whole : complete (write_cpm file ef) ≡ ok out = ap complete (ok-injective h1) in
    let (s1, t1, e1, f1) =
      go_on_parts (wrote (exec_header ef)) (text >+ (pad >+ behind)) out whole in
    let (s2, t2, e2, f2) = go_on_parts text (pad >+ behind) t1 f1 in
    let (s3, t3, e3, f3) = go_on_parts pad behind t2 f2 in
    let (s4, t4, e4, f4) = go_on_parts contents (wrote (write_cpm_relocs ef)) t3 f3 in
    (ef, loaded, copy_bytes_room file _ _ s2 e2, copy_bytes_room file _ _ s4 e4)

-- Of an ELF file that is cut short in its data, the converter stops with an error and leaves a
-- program file behind that is cut short too: it has the header of the whole program, the text up to
-- the start of the data, and the data that is there in whole rounds of 1024 bytes. The file is of
-- bytes, `load_elf` accepts it, the text is in it, and the data is not empty and ends behind it.
pub convert_cut :
    (file : List ℕ) (ef : ElfFile)
    → IsBytes file
    → load_elf file ≡ ok ef
    → ef.layout.text_offset + ef.layout.text_filesize ≤ length file
    → 0 < ef.layout.data_filesize
    → length file < ef.layout.data_offset + ef.layout.data_filesize
    → convert file
      ≡ ok (record {
        out =
            exec_header ef
            ++ ((program_of file ef).text
                ++ take
                    (1024 * ((length file - ef.layout.data_offset) / 1024))
                    (drop ef.layout.data_offset file));
        ended = failed short_read;
      })
unfolding convert write_cpm program_of cut_copy
convert_cut file ef bytes loaded room some_data short =
    let l = ef.layout in
    let h = (load_elf-IsLoaded file ef bytes loaded).layout in
    let a = copied_whole file l.text_offset l.text_filesize room in
    let b = copy_bytes_short file l.data_offset l.data_filesize some_data short in
    let pad : sub_long l.data_vmaddr l.text_filesize ≡ l.data_vmaddr - l.text_filesize =
      omega (arith, h.behind, h.vmaddr_lt) in
    let text = take l.text_filesize (drop l.text_offset file) in
    let there = take (1024 * ((length file - l.data_offset) / 1024)) (drop l.data_offset file) in
    rw (loaded, a, b)
      (ap
        (λ (t : List ℕ).
          let w : Written = record { out = exec_header ef ++ t; ended = failed short_read } in ok w)
        (ap (λ (n : ℕ). text ++ (replicate n 0 ++ there)) pad
          ∙ sym (append_assoc text (replicate (l.data_vmaddr - l.text_filesize) 0) there)))
