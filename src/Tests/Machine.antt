-- ===== src/Tests/Machine.antt =====
-- A small machine for the tests: one file, a console, a printer and a user number.
use libgloss_cpm68k.Prelude.{
  ℕ, ◌%◌, ◌^◌, ◌≡◌, ◌≢◌, refl, Bool, false, Option, none, some, List, [], ◌∷◌, ◌++◌, ◌==◌,
  if◌then◌else◌, length, arith,
}
use libgloss_cpm68k.Bdos.{
  Fcb, Request, exit_program, conin, conout, lstout, conio, c_writestr, conbuf, c_stat, open_file,
  close_file, search_first, search_next, delete, create, f_rename, user, b_read, b_write, filsiz,
  Reply, Bdos,
}
use libgloss_cpm68k.Bdos.Laws.{is_user, UserLaws, FileLaws, until_dollar, DeviceLaws}

-- `disk` holds the file's records and `records` is their number; `found` and `room` say whether a
-- file can be opened and created
pub record Machine : Type 0 where
  pub number : ℕ
  pub disk : ℕ → Option (List ℕ)
  pub records : ℕ
  pub found : Bool
  pub room : Bool
  pub screen : List ℕ
  pub paper : List ℕ

abbrev pub current : Machine → ℕ
current m = m.number % 16

abbrev pub whole_record : Option (List ℕ) → Option (List ℕ)
whole_record none = none
whole_record (some s) = if length s == 128 then some s else none

abbrev pub at : Machine → ℕ → Option (List ℕ)
at m n = whole_record (m.disk n)

abbrev pub Names : ℕ → Fcb → Type 0
Names u f = Unit

abbrev pub blank : Fcb
blank = record {
  drive = 0;
  fname = [];
  ftype = [];
  extent = 0;
  s1 = 0;
  s2 = 0;
  reccnt = 0;
  fpasswd = [];
  fuser = 0;
  resvd = [];
  recno = 0;
}

abbrev reply : ℕ → Fcb → List ℕ → Reply
reply r f m = record { result = r; fcb = f; memory = m }

abbrev read_reply : Fcb → List ℕ → Option (List ℕ) → Reply
read_reply f m none = reply 1 f m
read_reply f m (some s) = reply 0 f s

abbrev store : ℕ → List ℕ → Machine → Machine
store n s m = record m { disk = λ i. if i == n then some s else m.disk i }

abbrev pub bdos : Bdos Machine
bdos (user n) m =
    if n == 0xff
    then (reply (current m) blank [], m)
    else (reply 0 blank [], record m { number = n })
bdos (conout c) m = (reply 0 blank [], record m { screen = m.screen ++ (c ∷ []) })
bdos (lstout c) m = (reply 0 blank [], record m { paper = m.paper ++ (c ∷ []) })
bdos (c_writestr s) m = (reply 0 blank [], record m { screen = m.screen ++ until_dollar s })
bdos (b_read f s) m = (read_reply f s (at m (f.recno % 2 ^ 24)), m)
bdos (b_write f s) m =
    if length s == 128 then (reply 0 f s, store (f.recno % 2 ^ 24) s m) else (reply 1 f s, m)
bdos (filsiz f) m = (reply 0 (record f { recno = m.records }) [], m)
bdos (open_file f) m = (reply (if m.found then 0 else 0xff) f [], m)
bdos (create f) m = (reply (if m.room then 0 else 0xff) f [], m)
bdos (close_file f) m = (reply 0 f [], m)
bdos (delete f) m = (reply 0 f [], m)
bdos exit_program m = (reply 0 blank [], m)
bdos conin m = (reply 0x41 blank [], m)
bdos (conio c) m = (reply 0 blank [], m)
bdos (conbuf n) m = (reply 0 blank [], m)
bdos c_stat m = (reply 0 blank [], m)
bdos (search_first f) m = (reply 0xff f [], m)
bdos (search_next f) m = (reply 0xff f [], m)
bdos (f_rename f g) m = (reply 0 f [], m)

others : (r : Request) (m : Machine) → is_user r ≡ false → current (bdos r m).1 ≡ current m
others (user n) m e = cc
others (conout c) m e = refl
others (lstout c) m e = refl
others (c_writestr s) m e = refl
others (b_read f s) m e = refl
others (b_write f s) m e = ground arith
others (filsiz f) m e = refl
others (open_file f) m e = refl
others (create f) m e = refl
others (close_file f) m e = refl
others (delete f) m e = refl
others exit_program m e = refl
others conin m e = refl
others (conio c) m e = refl
others (conbuf n) m e = refl
others c_stat m e = refl
others (search_first f) m e = refl
others (search_next f) m e = refl
others (f_rename f g) m e = refl

pub user_laws : UserLaws bdos current
user_laws = record {
  range = λ m. omega arith;
  get_user = λ m. refl;
  get_keeps = λ m. refl;
  set_user = λ n m lt. ground arith;
  others = others;
}

read_some :
    (f : Fcb) (m s : List ℕ) (o : Option (List ℕ))
    → o ≡ some s
    → ((read_reply f m o).result ≡ 0) × ((read_reply f m o).memory ≡ s)
read_some f m s none e = cc
read_some f m s (some t) e = (refl, cc)

read_none : (f : Fcb) (m : List ℕ) (o : Option (List ℕ)) → o ≡ none → (read_reply f m o).result ≢ 0
read_none f m none e = λ z. absurd (omega arith)
read_none f m (some t) e = cc

whole_length : (o : Option (List ℕ)) (s : List ℕ) → whole_record o ≡ some s → length s ≡ 128
whole_length none s e = cc
whole_length (some t) s e = ground arith

pub file_laws : FileLaws bdos current Names at
file_laws = record {
  names_record = λ u n f h. tt;
  whole = λ m n s e. whole_length (m.disk n) s e;
  user_keeps = λ n m i. ground arith;
  read_names = λ f s m h. tt;
  read_keeps = λ f s m i h. refl;
  read_present = λ f s m t h e. read_some f s t (at m (f.recno % 2 ^ 24)) e;
  read_absent = λ f s m h e. read_none f s (at m (f.recno % 2 ^ 24)) e;
  write_names = λ f s m h. tt;
  write_stored = λ f s m h len z. ground arith;
  write_other = λ f s m i h ne. ground arith;
  write_memory = λ f s m. ground arith;
}

pub device_laws : DeviceLaws bdos (λ m. m.screen) (λ m. m.paper)
device_laws = record {
  shows_char = λ c m. refl;
  shows_string = λ s m. refl;
  prints_char = λ c m. refl;
}
