-- ===== src/Bdos/Laws.antt =====
-- What the library relies on of the BDOS, as the CP/M-68K manual documents its calls: the user
-- number, and the records of a file.
use libgloss_cpm68k.Prelude.{
  ℕ, ◌%◌, ◌^◌, ◌<◌, ◌≡◌, ◌≢◌, Bool, true, false, List, [], ◌∷◌, ◌++◌, Option, none, some, ◌==◌,
  if◌then◌else◌, length,
}
use libgloss_cpm68k.Bdos.{
  Fcb, Request, conin, conout, lstout, c_writestr, user, b_read, b_write, Bdos, secsiz,
}

-- whether a request is function 32, which alone sets the user number
abbrev pub is_user : Request → Bool
is_user (user n) = true
is_user conin = false
is_user _ = false

-- Function 32 returns the current user number for 0xff, and sets it otherwise; no other function
-- changes it.
pub record UserLaws {Os : Type 0} (bdos : Bdos Os) (current : Os → ℕ) : Type 0 where
  pub range : (os : Os) → current os < 16
  pub get_user : (os : Os) → (bdos (user 0xff) os).0.result ≡ current os
  pub get_keeps : (os : Os) → current (bdos (user 0xff) os).1 ≡ current os
  pub set_user : (n : ℕ) (os : Os) → n < 16 → current (bdos (user n) os).1 ≡ n
  pub others : (r : Request) (os : Os) → is_user r ≡ false → current (bdos r os).1 ≡ current os

-- One file. `at os n` is its record `n`, if it has been written; `Names u f` says that `f` is an
-- FCB through which user `u` has it open. Only the low 24 bits of the record number count.
pub record FileLaws {Os : Type 0} (bdos : Bdos Os) (current : Os → ℕ) (Names : ℕ → Fcb → Type 0)
    (at : Os → ℕ → Option (List ℕ)) : Type 0 where
  pub names_record : (u n : ℕ) (f : Fcb) → Names u f → Names u (record f { recno = n })
  pub whole : (os : Os) (n : ℕ) (s : List ℕ) → at os n ≡ some s → length s ≡ secsiz
  pub user_keeps : (n : ℕ) (os : Os) (i : ℕ) → at (bdos (user n) os).1 i ≡ at os i
  pub read_names :
      (f : Fcb) (m : List ℕ) (os : Os)
      → Names (current os) f
      → Names (current os) (bdos (b_read f m) os).0.fcb
  pub read_keeps :
      (f : Fcb) (m : List ℕ) (os : Os) (i : ℕ)
      → Names (current os) f
      → at (bdos (b_read f m) os).1 i ≡ at os i
  pub read_present :
      (f : Fcb) (m : List ℕ) (os : Os) (s : List ℕ)
      → Names (current os) f
      → at os (f.recno % 2 ^ 24) ≡ some s
      → ((bdos (b_read f m) os).0.result ≡ 0) × ((bdos (b_read f m) os).0.memory ≡ s)
  pub read_absent :
      (f : Fcb) (m : List ℕ) (os : Os)
      → Names (current os) f
      → at os (f.recno % 2 ^ 24) ≡ none
      → (bdos (b_read f m) os).0.result ≢ 0
  pub write_names :
      (f : Fcb) (m : List ℕ) (os : Os)
      → Names (current os) f
      → Names (current os) (bdos (b_write f m) os).0.fcb
  pub write_stored :
      (f : Fcb) (m : List ℕ) (os : Os)
      → Names (current os) f
      → length m ≡ secsiz
      → (bdos (b_write f m) os).0.result ≡ 0
      → at (bdos (b_write f m) os).1 (f.recno % 2 ^ 24) ≡ some m
  pub write_other :
      (f : Fcb) (m : List ℕ) (os : Os) (i : ℕ)
      → Names (current os) f
      → i ≢ f.recno % 2 ^ 24
      → at (bdos (b_write f m) os).1 i ≡ at os i
  pub write_memory : (f : Fcb) (m : List ℕ) (os : Os) → (bdos (b_write f m) os).0.memory ≡ m

-- what function 9 prints of a string: the characters in front of its first `$`
unfoldable pub until_dollar : List ℕ → List ℕ
until_dollar [] = []
until_dollar (c ∷ s) = if c == b'$' then [] else c ∷ until_dollar s

-- The console shows the characters of functions 2 and 9, and the list device prints those of
-- function 5.
pub record DeviceLaws {Os : Type 0} (bdos : Bdos Os) (shown printed : Os → List ℕ) : Type 0 where
  pub shows_char : (c : ℕ) (os : Os) → shown (bdos (conout c) os).1 ≡ shown os ++ (c ∷ [])
  pub shows_string :
      (s : List ℕ) (os : Os) → shown (bdos (c_writestr s) os).1 ≡ shown os ++ until_dollar s
  pub prints_char : (c : ℕ) (os : Os) → printed (bdos (lstout c) os).1 ≡ printed os ++ (c ∷ [])
