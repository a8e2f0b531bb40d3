-- ===== src/Lib.antt =====
-- A model of libgloss for CP/M-68K: the C library under cpmlib/ that gives newlib its system calls
-- on top of the BDOS of CP/M-68K, with theorems about it.
--
-- The program. A channel is an index into the table of 16 control blocks `_fds` (cpmlib/osif.h,
-- channels.c); `_chvec` has a bit for each allocated one. `_open`, `_creat`, `open`, `close`,
-- `unlink` and `rename` allocate channels, parse file names into FCBs (parsefn.c) and call the BDOS
-- under the channel's user number (chkuser.c). `read`, `write`, `lseek` and `fstat` choose by the
-- flags of a channel between the console, the printer, ASCII files and binary files. A file is
-- transferred in sectors of 128 bytes through the one-sector buffer of its channel (blkio.c).
--
-- tools/elf2cpm68k.c runs on the host. It converts a linked ELF program to a program file of CP/M-68K:
-- a header, the text up to the data, the data, and a word for each word of both that tells which
-- longs are relocated.
--
-- The model. The state is one record, `World`: the allocation bits, the control blocks, `errno`,
-- and the state of the machine. Every C function is a function on it. An operation that works on
-- one channel through a pointer runs on a `Handle`, a copy of the block that is put back at the
-- end; no such operation reaches another channel. The BDOS is a parameter: a function from a
-- request and the machine to a reply and the machine. The calls of SETDMA are folded into the
-- requests that read or write the memory there. What the theorems rely on of the BDOS are the
-- records of laws in Bdos/Laws.antt; Tests/Machine.antt has a machine that keeps them.
--
-- Words. A LONG is a number below 2 ^ 32 and a WORD one below 2 ^ 16, in two's complement, with
-- the wrap-around written out; -1 is 2 ^ 32 - 1. Characters are numbers below 256, and a C string
-- is the list of its characters in front of the NUL, which `peek` reads as 0. A byte count that a
-- caller passes is a number; it is taken modulo 2 ^ 16 where the C code keeps it in a UWORD.
--
-- Loops. `_blkio` and the copying loops recurse on their counts. `_wrtchr`, `_rdasc`, `_wrtasc` and
-- the wait of `ttyinraw` take fuel: `_wrtchr` one more than the bytes that can be left, as each
-- filling of its buffer takes at least one; `_wrtasc` twice the bytes, as each round puts at least
-- one character and a byte makes at most two; `parse_args` the characters of the tail, as each round
-- takes one at least; `_rdasc` as many rounds as a LONG has sectors.
--
-- The loop of main.c has one round for each byte of the file and one for its end.
--
-- `copy_bytes` recurses on the accessibility of its count.
--
-- The converter. The ELF file is the list of its bytes; the program file is a `Written`, the bytes
-- written so far and how the writing ended. A function ends with a value, with the `error` that it
-- calls, or with `stray`, a read outside of an array, where C says nothing of what follows.
-- `elf_file_t` is an `ElfFile`; the length of its `rel_data` is `rel_count`.
--
-- Files. Prelude: Boolean tests, lists, words and bits. Bdos: cpmlib/osif.h. State: osif.h and
-- channels.c. Bytes: character functions. Channel: channels.c. User: chkuser.c. BlkIo: blkio.c.
-- ParseFn: parsefn.c. Handle: the buffer of a channel. Seek: filesz.c, lseek.c, fstat.c, isatty.c.
-- Kind: what operations keep of a channel. ReadBin and WriteBin: readbin.c and writebin.c. ReadAsc
-- and WriteAsc: readasc.c and writeasc.c. Console: wrtchr.c, ttyout.c, lstout.c. TtyIn: ttyin.c,
-- ttyinraw.c, sgtty.c. Io: read.c and write.c. Files: __open.c, `_open` and creat.c. Close:
-- close.c. Posix: `open`, unlink.c, rename.c and `_init` of _main.c. Calls: sequences of the
-- library's calls. Args: `parse_args`, and in Args/Start `_main`, `_exit` and `err`, of _main.c. Heap:
-- sbrk.c. Elf2Cpm: tools/elf2cpm68k.c. TestProgram: the loop of main.c that counts the bytes of a
-- file. Tests: the theorems at concrete inputs.
--
-- Not modelled: the assembly, the trap of bdos.c, the scripts, and the rest of the test program
-- main.c; of the converter the messages, failures of malloc, fopen and fwrite, and the arguments of
-- main. Also what follows a store outside of an array, of which the library has three: `_wrtbin` of
-- 65536 bytes and more runs over the channel's buffer, `get_token` puts the NUL of a token of 32
-- characters behind `tokbuf`, and `_ttyout` puts its `$` behind 127 characters one byte past the
-- buffer of `_wrtchr` (`fits_local` in Console/Fits tells where it does not). The calls of Calls are
-- those that do none of the three.
pub mod Prelude
pub mod Bdos
pub mod State
pub mod Bytes
pub mod Channel
pub mod ParseFn
pub mod User
pub mod BlkIo
pub mod Handle
pub mod Console
pub mod Seek
pub mod Kind
pub mod ReadAsc
pub mod WriteAsc
pub mod TtyIn
pub mod Io
pub mod Files
pub mod Close
pub mod Calls
pub mod TestProgram
pub mod Posix
pub mod WriteBin
pub mod ReadBin
pub mod Tests
pub mod Heap
pub mod Args
pub mod Elf2Cpm
