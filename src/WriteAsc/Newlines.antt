-- ===== src/WriteAsc/Newlines.antt =====
-- The inner loop of `_wrtasc`: newlines are stored as carriage return and newline, also where a
-- sector's end falls between the two; and what is read back of them.
use libgloss_cpm68k.Prelude.{
  ℕ, zero, suc, ◌≤◌, ◌≡◌, ◌⊎◌, inl, inr, refl, not, ◌&&◌, List, [], ◌∷◌, ◌++◌, ◌==◌, if◌then◌else◌,
  arith, length,
}
use libgloss_cpm68k.ReadAsc.Text.{before_eof, without_cr, text}
use libgloss_cpm68k.WriteAsc.{fill}

-- a newline gets a carriage return in front unless `cc`, the character before it, is one
unfoldable pub stored_as : ℕ → List ℕ → List ℕ
stored_as cc [] = []
stored_as cc (c ∷ s) =
    let rest = stored_as c s in
    if c == 0x0a && not (cc == 0x0d) then 0x0d ∷ 0x0a ∷ rest else c ∷ rest

-- One filling of the buffer puts the first characters of what the bytes are to be stored as, and
-- the bytes that it leaves, after its last character, are to be stored as the others.
pub out-fill :
    (room cc : ℕ) (src : List ℕ)
    → (fill room cc src).out ++ stored_as (fill room cc src).last (fill room cc src).left
      ≡ stored_as cc src
unfolding fill stored_as
out-fill zero cc src = refl
out-fill (suc room) cc [] = refl
out-fill (suc room) cc (c ∷ src) = ground (arith, out-fill room 0x0d (c ∷ src), out-fill room c src)

-- One filling of the buffer never puts more characters than there is room for, and it puts as many
-- unless all bytes are stored.
pub room-fill :
    (room cc : ℕ) (src : List ℕ)
    → (length (fill room cc src).out ≤ room)
      × ((length (fill room cc src).out ≡ room) ⊎ ((fill room cc src).left ≡ []))
unfolding fill
room-fill zero cc src = (omega arith, inl refl)
room-fill (suc room) cc [] = (omega arith, inr refl)
room-fill (suc room) cc (c ∷ src) =
    ground (arith, room-fill room 0x0d (c ∷ src), room-fill room c src)

pub text-stored_as : (cc : ℕ) (s : List ℕ) → text (stored_as cc s) ≡ text s
unfolding stored_as before_eof without_cr
text-stored_as cc [] = refl
text-stored_as cc (c ∷ s) = ground (arith, text-stored_as c s)
