-- ===== src/Elf2Cpm.antt =====
-- tools/elf2cpm68k.c: the converter of linked ELF programs to CP/M-68K programs.
pub mod Outcome
pub mod Field
pub mod Headers
pub mod Input
pub mod Relocs
pub mod Load
pub mod Output
