-- ===== src/Bdos.antt =====
-- The interface to the operating system: cpmlib/osif.h and cpmlib/bdos.c. The BDOS is not code of
-- this repository: it is a parameter, a function from a request and the state of the machine to a
-- reply and the next state. A request carries the memory that its argument points to (an FCB, a
-- string, the sector at the DMA address), and the reply that memory as the call leaves it.
pub mod Laws
use libgloss_cpm68k.Prelude.{ℕ, List}

-- `struct fcbtab`. `record` is the LONG at bytes 32 to 35.
pub record Fcb : Type 0 where
  pub drive : ℕ
  pub fname : List ℕ
  pub ftype : List ℕ
  pub extent : ℕ
  pub s1 : ℕ
  pub s2 : ℕ
  pub reccnt : ℕ
  pub fpasswd : List ℕ
  pub fuser : ℕ
  pub resvd : List ℕ
  pub recno : ℕ

-- The functions of osif.h that the library calls, with their arguments.
pub data Request : Type 0 where
  exit_program : Request
  conin : Request
  conout : ℕ → Request
  lstout : ℕ → Request
  conio : ℕ → Request
  c_writestr : List ℕ → Request
  conbuf : ℕ → Request
  c_stat : Request
  open_file : Fcb → Request
  close_file : Fcb → Request
  search_first : Fcb → Request
  search_next : Fcb → Request
  delete : Fcb → Request
  create : Fcb → Request
  f_rename : Fcb → Fcb → Request
  user : ℕ → Request
  b_read : Fcb → List ℕ → Request
  b_write : Fcb → List ℕ → Request
  filsiz : Fcb → Request

-- `result` is the UWORD in d0; `fcb` and `memory` are what the call leaves in the FCB, and at the
-- DMA address or in the line buffer.
pub record Reply : Type 0 where
  pub result : ℕ
  pub fcb : Fcb
  pub memory : List ℕ

abbrev pub Bdos : Type 0 → Type 0
Bdos Os = Request → Os → Reply × Os

abbrev pub secsiz : ℕ
secsiz = 128
