-- ===== src/Elf2Cpm/Output.antt =====
-- `write_cpm` of tools/elf2cpm68k.c: the program file. What a function writes is the list of the
-- bytes, with how it ended; a write is taken to succeed.
pub mod Copying
pub mod Ending
pub mod Stream
pub mod Program
pub mod Convert
use libgloss_cpm68k.Prelude.{
  ℕ, zero, suc, ◌+◌, ◌-◌, ◌*◌, ◌^◌, ◌<◌, List, [], ◌∷◌, ◌++◌, ltb, if◌then◌else◌, length, replicate,
  min, arith, dec_lt, lt_wf, Acc, dite,
}
use libgloss_cpm68k.Prelude.Words.{add_long, sub_long}
use libgloss_cpm68k.Elf2Cpm.Outcome.{Outcome, ok, failed, stray, ◌>>=◌}
use libgloss_cpm68k.Elf2Cpm.Field.{write16, write32}
use libgloss_cpm68k.Elf2Cpm.Input.{read_at}
use libgloss_cpm68k.Elf2Cpm.Relocs.{Layout, addr_of, type_of}
use libgloss_cpm68k.Elf2Cpm.Load.{ElfFile, load_elf}

abbrev pub copy_buf : ℕ
copy_buf = 1024

-- the bytes of one round
abbrev pub resid : ℕ → ℕ
resid count = if ltb count copy_buf then count else copy_buf

pub remaining-lt : (count : ℕ) → 0 < count → count - resid count < count
remaining-lt count h = ground arith

-- an output file: the bytes written to it, and how the writing ended; bytes written before an
-- `error` stay in the file
pub record Written : Type 0 where
  pub out : List ℕ
  pub ended : Outcome (Unit {0})

abbrev pub wrote : List ℕ → Written
wrote s = record { out = s; ended = ok tt }

-- what was written, if the writing came to its end
abbrev pub complete : Written → Outcome (List ℕ)
complete w = w.ended >>= λ _. ok w.out

-- bytes that are written if they could be read, and what is written behind them
abbrev pub put_read : Outcome (List ℕ) → Written → Written
put_read (ok bytes) next = record next { out = bytes ++ next.out }
put_read (failed why) next = record { out = []; ended = failed why }
put_read stray next = record { out = []; ended = stray }

-- `s` was written and so ended, then `next` is written
abbrev pub go_on : List ℕ → Outcome (Unit {0}) → Written → Written
go_on s (ok _) next = record next { out = s ++ next.out }
go_on s (failed why) next = record { out = s; ended = failed why }
go_on s stray next = record { out = s; ended = stray }

infixr 5 ◌>+◌
abbrev pub ◌>+◌ : Written → Written → Written
first >+ next = go_on first.out first.ended next

-- the loop of `copy_bytes`, which ends since `count` falls
unfoldable pub copy_from : List ℕ → ℕ → (count : ℕ) → Acc ◌<◌ count → Written
unfolding read_at
copy_from file offset count (Acc.intro _ smaller) =
    dite (dec_lt 0 count)
      (λ h. put_read (read_at file offset (resid count)) (
        copy_from file (offset + resid count) (count - resid count)
          (smaller (count - resid count) (remaining-lt count h))))
      (λ _. wrote [])

unfoldable pub copy_bytes : List ℕ → ℕ → ℕ → Written
unfolding copy_from lt_wf dec_lt
copy_bytes file offset count = copy_from file offset count (lt_wf.apply count)

abbrev pub zerofill : ℕ → List ℕ
zerofill count = replicate count 0

-- the two words of a relocation
unfoldable pub write_reloc : ℕ → List ℕ
unfolding write16
write_reloc v = write16 5 ++ write16 (type_of v)

-- the rounds of `write_cpm_relocs` from address `current` on, with the padding behind the last
unfoldable pub write_relocs_from : Layout → ℕ → List ℕ → List ℕ
unfolding write_reloc
write_relocs_from l current [] =
    zerofill (sub_long (add_long l.data_vmaddr l.data_filesize) current)
write_relocs_from l current (v ∷ vs) =
    zerofill (sub_long (addr_of v) current)
    ++ (write_reloc v ++ write_relocs_from l (add_long (addr_of v) 4) vs)

abbrev pub write_cpm_relocs : ElfFile → List ℕ
write_cpm_relocs ef = write_relocs_from ef.layout 0 ef.rel_data

-- `cpm_exec_header_t`, 28 bytes
unfoldable pub exec_header : ElfFile → List ℕ
unfolding write16 write32
exec_header ef =
    let l = ef.layout in
    write16 0x601a
    ++ write32 (add_long l.text_filesize (sub_long l.data_vmaddr l.text_filesize))
    ++ write32 l.data_filesize
    ++ write32 l.bss_memsize
    ++ write32 0
    ++ write32 0
    ++ write32 0
    ++ write16 (if ltb 0 (length ef.rel_data) then 0 else 0xffff)

unfoldable pub write_cpm : List ℕ → ElfFile → Written
unfolding copy_bytes write_relocs_from exec_header
write_cpm file ef =
    let l = ef.layout in
    wrote (exec_header ef)
    >+ (copy_bytes file l.text_offset l.text_filesize
        >+ (wrote (zerofill (sub_long l.data_vmaddr l.text_filesize))
            >+ (copy_bytes file l.data_offset l.data_filesize >+ wrote (write_cpm_relocs ef))))

-- `main`, from the ELF file to the program file, which is there only if the ELF file was loaded
unfoldable pub convert : List ℕ → Outcome Written
unfolding load_elf write_cpm
convert file = do ef ← load_elf file; ok (write_cpm file ef)
